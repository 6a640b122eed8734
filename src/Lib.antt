-- ===== src/Lib.antt =====
-- The FTP server of src/: a control channel for each client, whose lines are parsed into commands,
-- and handlers for the commands, which log in, look at and change files, and open data channels.
--
-- The parts and how they interact:
--   Base            numbers, lists, Boolean tests, exceptions as values, and integers over ℕ
--   Text, Stream, Number   the strings, string streams, std::stoi and std::to_string of C++, as
--                   far as the code uses them; a byte is a number, and a string a list of bytes
--   Command         src/ftp_command.h and src/ftp_command.cpp: the parser of a line
--   Status          OPERATION_SUCCESS and OPERATION_FAILURE, and how C++ converts them
--   User            src/ftp_user.cpp and src/ftp_user_database.cpp: the accounts
--   Observer        src/ftp_observer.cpp: who is told of a stored file; User/Refine and
--                   Observer/Refine compare the two tables with functions
--   FileSystem      src/file_system.cpp: paths, files and directories; FileSystem/Exists and
--                   FileSystem/Unreported have what they find and what they report
--   Net             src/tls_session.cpp, src/tcp_transport.cpp, src/tcp_client.cpp and
--                   src/tcp_listener.cpp: the channels; Net/Balance and Net/Lifecycle count the
--                   objects of GnuTLS
--   Session         src/ftp_session.h and src/ftp_session.cpp: the state of a session, a handler
--                   for each command, and the thread that reads commands; Session/Replace and
--                   Session/Shown follow a client that replaces and lists files, Session/Throws
--                   has the exceptions of the commands, Session/Ending the end of the thread,
--                   Session/Answers counts what they send, and Session/Leaks the sockets of PASV;
--                   Session/Auth follows a client that repeats AUTH, Session/Stale has what a
--                   message means with the bytes behind it in the buffer, and Session/Sized where
--                   the loop of STOR with an announced size ends; Session/Overlap is
--                   `command_stor` in several sessions at once, pull by pull and write by
--                   write, and Session/Overlap/Handler relates it to the handler
--   Server          src/ftp_server.h and src/ftp_server.cpp: the thread that accepts connections, and
--                   its owner, which starts and stops it, as a relation of steps
--   System          the server and the threads of all its sessions on what they share, one relation;
--                   System/Thread relates the thread of one session to its steps there,
--                   System/Erased and System/Replaced follow a client that takes a file away or
--                   replaces it without a login; `RunReach` are the steps of the threads alone,
--                   `SystemReach` those of the owner of the server too; System/Race has the
--                   increments of the counter of ports as a read and a write
--   Main            src/main.cpp: the main thread, which registers an observer, and the line that
--                   the observer prints
--   Tests           the theorems at concrete inputs, and runs of the code
-- A class is a record, a method a function from the object to the object behind it; its name is
-- the method's. `ftp_session::command_x` is `command_x` on a `Machine`: the session, the files, the
-- accounts, the observers, the static counter of ports, and the calls made so far, the last first.
--
-- What the program gets from elsewhere is a parameter: `Os` is the file system of the operating
-- system on a state of any type, `Net` the sockets and GnuTLS on a state of any type. A named
-- hypothesis, `RefusesEmpty`, says that no call accepts the empty path. What the data channel
-- gives is the list `incoming`, and what the control channel gives a list of messages; an empty
-- message is the end of the data, or an error. Session/Pull.antt has the loops on the channel. An
-- exception, which nothing in the program catches, is a value of `Fault`; so is a call that has no
-- answer.
--
-- Loops are structural: the loops over the data and over the messages end with their lists, that
-- over ports has its twenty attempts, and that of the handshake the results of the calls. Only the
-- loops on the channel in Session/Pull.antt have fuel, one unit for each call of `pull`. An int is an
-- integer; where the code relies on its width (`<<`, `|`, the conversion to 16 bits) the wrap-around
-- is written out, and `std::stoi` has its bounds.
--
-- In System a round of the loop of a session is one step of the whole program. The buffer of 2000
-- bytes is part of the session and holds what it held in the round before. The message and the data
-- of a round are anything that channels may give, which includes what they do give. System/Replaced,
-- where the data of a run matters, asks that `pull` on the channel of the session gives it. The code
-- has no locks, and what is said of every run is said of what a session alone writes, of who observes,
-- and of the thread of the server. What threads do at the same time inside a round
-- is split further for two things that sessions share, the file of a STOR (Session/Overlap) and the
-- counter of ports (System/Race), which is a number without an upper bound. In Session/Overlap a
-- stream may write to the file any first part of what it holds, at any time before it is closed. An
-- exception in a thread ends the process, that of `server_thread` included.
--
-- A call that waits for a client has its answer from `Net` when the answer comes: a handler whose
-- call still waits has made no step. The end of `incoming` is the end of the data, like the empty
-- chunk that `pull` gives at it. A call of GnuTLS on a closed channel is in the log as a call on no
-- session; what the library does then is not modelled.
--
-- `IsLawful` is a second named hypothesis on the operating system: that appending, renaming,
-- removing and resolving do to the content of a file what POSIX says. `LoadsKeys`,
-- `EndsHandshakes` and `GivesSockets` say of the network that the certificate loads, that each
-- handshake ends and that `socket` does not fail.
--
-- Not modelled: the text on the console but for the line of the observer in src/main.cpp, and
-- src/state_machine.h, whose one method is empty. So are the destructors that have no
-- code; no code reads FTP_DEFAULT_DATA_PORT, and the names of the key files are part of what the
-- parameter `Net` answers.
mod Base
pub mod Text
pub mod Stream
pub mod Number
pub mod Command
pub mod Status
pub mod User
pub mod Observer
pub mod FileSystem
pub mod Net
pub mod Session
pub mod Server
pub mod System
pub mod Main
mod Tests
