-- ===== src/System/Crash.antt =====
-- A client that ends the process.
use ftps_server.Base.{ℕ, ◌≡◌, refl, true, false, [], ◌∷◌, ◌++◌, some, get_elem?, err, out_of_range}
use ftps_server.Text.{Bytes, codes, equal}
use ftps_server.Stream.{extract, skip_spaces, word, after_word, read_word}
use ftps_server.Command.{find_command, read_arguments, parse, get_argument}
use ftps_server.FileSystem.Os.{Os}
use ftps_server.FileSystem.FilePath.{is_path_rooted, is_path_homed}
use ftps_server.Net.World.{Net}
use ftps_server.Session.State.{Machine, terminated, is_state}
use ftps_server.Session.Folder.{requested_folder, command_cwd, substr_two}
use ftps_server.Session.Dispatch.{handle_buffer, dispatch, c_string, overwrite}
use ftps_server.Server.{Client, reading}
use ftps_server.System.{
  System, machine_of, read_message, session_step, RunStep, thread_runs, session_runs,
  session_throws, SystemStep, runs, owner_acts, SystemReach, here, next,
}

-- The line of CWD that asks for the home folder.
abbrev pub cwd_home : Bytes
cwd_home = codes "CWD ~\r\n" ++ 0 ∷ []

module _ {E F : Type 0} (net : Net E) (os : Os F) where
  handle_buffer-cwd_home :
      (buffer : Bytes) (m : Machine E F)
      → handle_buffer net os (overwrite buffer cwd_home) m ≡ err out_of_range
  unfolding handle_buffer c_string parse extract skip_spaces read_word word after_word find_command
      equal read_arguments dispatch command_cwd get_argument requested_folder is_path_rooted
      is_path_homed substr_two
  handle_buffer-cwd_home buffer m = refl

  session_step-cwd_home :
      (buffer : Bytes) (m : Machine E F)
      → is_state m.state terminated ≡ false
      → session_step net os reading cwd_home buffer m ≡ err out_of_range
  unfolding session_step read_message
  session_step-cwd_home buffer m live = rw live (rw (handle_buffer-cwd_home buffer m) refl)

  RunStep-not_crashed : {s t : System E F} → RunStep net os s t → s.crashed ≡ false
  RunStep-not_crashed (thread_runs junk n e) = n
  RunStep-not_crashed (session_runs i c message chunks p m n at_i did e) = n
  RunStep-not_crashed (session_throws i c message chunks f n at_i did x e) = n

  SystemStep-not_crashed : {s t : System E F} → SystemStep net os s t → s.crashed ≡ false
  SystemStep-not_crashed (runs r) = RunStep-not_crashed r
  SystemStep-not_crashed (owner_acts t n st e) = n

  crashed-stays : {s t : System E F} → s.crashed ≡ true → SystemReach net os s t → t ≡ s
  crashed-stays c here = refl
  crashed-stays c (next r st) =
      let same = crashed-stays c r in
      let alive = SystemStep-not_crashed st in absurd (let both : true ≡ false = cc in cc)

  -- Any client whose session reads commands, logged in or not, can end the whole process by one line,
  -- `CWD ~`: behind it no session, nor the server, makes a step.
  pub session-crashes :
      (s : System E F) (i : ℕ) (c : Client)
      → s.crashed ≡ false
      → get_elem? s.server.client_sessions i ≡ some c
      → c.point ≡ reading
      → is_state c.state terminated ≡ false
      → (t : System E F) × RunStep net os s t
        × (t.crashed ≡ true)
        × ((u : System E F) → SystemReach net os t u → u ≡ t)
  session-crashes s i c n at_i p live = (
    record s { crashed = true },
    session_throws i c cwd_home [] out_of_range n at_i
        (rw p (session_step-cwd_home c.buffer (machine_of s c.session []) live)) refl refl,
    refl,
    λ u r. crashed-stays refl r,
  )
