-- ===== src/Tests.antt =====
-- The model run on small inputs, and each result at a concrete input.
mod Machine
mod Names
mod Tokens
mod Calls
mod Saves
mod Records
mod Waits
mod Pages
mod Disks
mod Native
mod Stored
mod Loads
mod Wired
mod Streams
mod Shells
