-- ===== src/Tests.antt =====
-- Concrete runs: a canvas with three layers, a session that is answered out of order, and a server
-- with a shared canvas.
pub mod Layers
pub mod Linked
pub mod Sessions
pub mod Servers
pub mod Handlers
pub mod Placing
pub mod Tasks
pub mod Frames
pub mod Logins
pub mod Inputs
pub mod Videos
pub mod Commands
pub mod Workers
pub mod Polls
pub mod Clients
pub mod Barriers
pub mod Handles
