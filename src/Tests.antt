-- ===== src/Tests.antt =====
-- The theorems at concrete inputs, and runs of the definitions.
mod Disks
mod Guarding
mod Planning
mod Files
mod Running
mod Serving
mod Executing
mod Visiting
mod Calling
mod Accounts
mod Browsing
mod Sharing
mod Polling
mod Dispatching
