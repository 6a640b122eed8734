-- ===== src/Tests/Sessions.antt =====
-- Sessions and channels.
use ftps_server.Base.{ℕ, ◌≡◌, ◌⊎◌, refl, true, false, List, [], ◌∷◌, ok}
use ftps_server.Text.{Bytes, codes, equal}
use ftps_server.Command.{Command, pass, cwd, rnfr, dele, CommandType, get_argument}
use ftps_server.User.{initial_database}
use ftps_server.FileSystem.Directory
use ftps_server.FileSystem.FilePath.{get_canonical_full_path, ends_with_separator, is_path_rooted}
use ftps_server.Session.State.{terminated, Machine, reply, with_state}
use ftps_server.Session.Login.{command_pass}
use ftps_server.Session.Folder.{requested_folder, command_cwd}
use ftps_server.Session.Channel.{search_port}
use ftps_server.Session.Dispatch.{dispatch}
use ftps_server.Session.Frame.{in_state, dispatch-in_state}
use ftps_server.Session.Accounts.{LoginOutcome, command_pass_lem}
use ftps_server.Session.Passive.{IsSearched, search_port-IsSearched}
use ftps_server.Session.Names.{command_cwd_lem}
use ftps_server.Tests.Samples.{
  Files, sample_os, sample_os-RefusesEmpty, sample_net, sample, sample_session,
}

abbrev with_argument : CommandType → Bytes → Command
with_argument t a = record { command = t; arguments = a ∷ [] }

dispatch-in_state_example :
    dispatch sample_net sample_os dele
      (with_argument dele (codes "a"))
      (with_state terminated sample)
    ≡ in_state terminated
        (dispatch sample_net sample_os dele (with_argument dele (codes "a")) sample)
dispatch-in_state_example =
    dispatch-in_state sample_net sample_os dele terminated (with_argument dele (codes "a")) sample
      refl

command_pass_lem_example :
    (m' : Machine ℕ Files) × (command_pass (with_argument pass (codes "admin")) sample ≡ ok m')
    × LoginOutcome initial_database sample_session (codes "admin") m'.session
unfolding get_argument
command_pass_lem_example =
    command_pass_lem (with_argument pass (codes "admin")) sample (codes "admin") refl

search_port-IsSearched_example :
    IsSearched sample.data_port 20 sample.control_channel.address (search_port sample_net sample)
search_port-IsSearched_example = search_port-IsSearched sample_net sample

abbrev two_chunks : List Bytes
two_chunks = codes "ab" ∷ codes "c" ∷ []

abbrev change : Command
change = with_argument cwd (codes "/home")

command_cwd_lem_example :
    (m' : Machine ℕ Files) × (command_cwd sample_os change sample ≡ ok m')
    × (((m'.session ≡ sample.session)
          × (Directory.exists sample_os sample.files
                (get_canonical_full_path sample_os sample.files (codes "/home") []).1
              ≡ false))
        ⊎ ((m'.session ≡ record sample_session {
          folder = (get_canonical_full_path sample_os sample.files (codes "/home") []).1;
        })
            × (Directory.exists sample_os sample.files m'.folder ≡ true)
            × (ends_with_separator m'.folder ≡ true)))
unfolding get_argument requested_folder is_path_rooted equal
command_cwd_lem_example =
    command_cwd_lem sample_os change sample (codes "/home") (codes "/home") sample_os-RefusesEmpty
      refl refl

abbrev rename_from : Command
rename_from = with_argument rnfr (codes "/home/a")

abbrev greeted : Machine ℕ Files
greeted = reply (codes "220 FTP server is ready\r\n") sample
