-- ===== src/Agent.antt =====
-- The privileged agent: its job runner, its fileworkers and their uploads, and its handlers.
pub mod Jobs
pub mod Fileworkers
pub mod Uploads
pub mod Users
pub mod Files
pub mod Shares
