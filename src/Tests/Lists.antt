-- ===== src/Tests/Lists.antt =====
-- LIST in the only directory of the samples.
use ftps_server.Base.{ℕ, []}
use ftps_server.Text.{codes}
use ftps_server.Command.{Command, list}
use ftps_server.FileSystem.Directory
use ftps_server.Session.State.{Machine}
use ftps_server.Tests.Samples.{Files, sample, sample_session}

abbrev at_home : Machine ℕ Files
at_home = record sample { session = record sample_session { folder = codes "/home/" } }

abbrev list_command : Command
list_command = record { command = list; arguments = [] }
