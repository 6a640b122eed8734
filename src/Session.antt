-- ===== src/Session.antt =====
-- src/ftp_session.h and src/ftp_session.cpp: one client's session. The children hold the state, the
-- handlers by what they touch, the dispatch with the thread's loop, and the proofs.
pub mod State
pub mod Login
pub mod Folder
pub mod Settings
pub mod Channel
pub mod Transfer
pub mod Dispatch
pub mod Frame
pub mod Kept
pub mod Shared
pub mod Attempts
pub mod Auth
pub mod Accounts
pub mod Passive
pub mod Receive
pub mod Sized
pub mod Pull
pub mod Answers
pub mod Names
pub mod Files
pub mod Contents
pub mod Lines
pub mod Stale
pub mod Replace
pub mod Shown
pub mod Leaks
pub mod Overlap
pub mod Throws
pub mod Waits
pub mod Ending
pub mod Announce
