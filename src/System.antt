-- ===== src/System.antt =====
-- The system adapters of the agent.
pub mod ManagedFile
pub mod Runner
pub mod Users
pub mod Samba
pub mod Acl
