-- ===== src/FileSystem.antt =====
-- src/file_system.h and src/file_system.cpp: the classes `path`, `file` and `directory`. What the
-- operating system does is the parameter `Os`, over a state `F` of its file systems.
pub mod Os
pub mod FilePath
pub mod File
pub mod Directory
pub mod Lawful
pub mod Exists
pub mod Unreported
pub mod Listing
