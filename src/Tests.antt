-- ===== src/Tests.antt =====
-- Runs of the theorems on concrete states of the server.
pub mod Samples
mod Files
mod Locks
mod Wire
mod Handlers
mod Transfers
mod Queues
mod Fetching
mod Sending
mod Clients
mod Mains
