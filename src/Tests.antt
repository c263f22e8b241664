-- ===== src/Tests.antt =====
-- Runs of the definitions, and each theorem at a concrete input.
mod Log
mod Listener
mod Events
mod Race
mod Shutdown
mod Scanner
mod Frames
mod Colors
mod Keys
mod Handles
mod Threads
mod Terminal
mod Environment
mod Copies
mod Directory
mod Pager
mod Search
mod Errors
mod Calls
mod Exports
