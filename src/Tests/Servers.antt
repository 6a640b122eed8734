-- ===== src/Tests/Servers.antt =====
-- The server.
use ftps_server.Base.{ℕ, ◌+◌, ◌≤◌, ◌≡◌, refl, inl, pos, length}
use ftps_server.Text.{codes}
use ftps_server.Net.Endpoints.{listener_on, bind}
use ftps_server.Session.State.{Indeterminate}
use ftps_server.Server.{
  Server, running, stopping, announcing, finished, joining, start, request_stop, announce,
  new_server, bind_address, thread_step, Reach, here,
}
use ftps_server.Server.Stopping.{lost_stop, IsOrderly, Reach-IsOrderly, stop_lem}
use ftps_server.Tests.Samples.{sample_net, sample_world}

abbrev fresh : Server ℕ
fresh = new_server sample_net (codes "127.0.0.1") (pos 50000) sample_world

fresh-announcing : (bind_address sample_net (start fresh)).thread ≡ announcing
unfolding bind_address listener_on bind
fresh-announcing = refl

lost_stop_example :
    (s : Server ℕ) × Reach sample_net fresh s
    × ((t : Server ℕ) → Reach sample_net s t → (t.owner ≡ joining) × (t.status ≡ running))
lost_stop_example =
    lost_stop sample_net (codes "127.0.0.1") (pos 50000) sample_world fresh-announcing

Reach-IsOrderly_example : IsOrderly fresh
Reach-IsOrderly_example =
    Reach-IsOrderly sample_net (codes "127.0.0.1") (pos 50000) sample_world here

abbrev serving : Server ℕ
serving = announce (bind_address sample_net (start fresh))

stop_lem_example :
    ((request_stop serving).status ≡ stopping)
    × (length (request_stop serving).client_sessions ≤ length serving.client_sessions + 1)
    × ((junk junk' : Indeterminate)
        → (thread_step sample_net junk' (thread_step sample_net junk (request_stop serving))).thread
          ≡ finished)
unfolding announce
stop_lem_example = stop_lem sample_net serving (inl refl) here
