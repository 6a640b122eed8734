-- ===== src/Tests.antt =====
-- Samples of the parameters and of states, tests, and each result at a concrete input.
mod Samples
mod Parsing
mod Tables
mod Files
mod Sessions
mod Servers
mod Transfers
mod Loops
mod Store
mod Stores
mod Served
mod Lists
mod Sockets
mod Threads
mod Overlaps
mod Faults
mod Secure
mod Systems
