-- ===== src/Tests.antt =====
-- Runs of the model on concrete values: each theorem of the results applied to one input.
mod Data
mod Sessions
mod Codecs
mod Locks
mod Connections
mod Pushes
mod WatcherData
mod Links
mod Cycles
mod Commands
