-- ===== src/Storage.antt =====
-- The storage subsystem: the device tree, the protected-device guard, the plan builder and the
-- two phases of a plan, in the web process and in the agent, the inventory and the health of disks.
pub mod Device
pub mod Guard
pub mod Spec
pub mod Steps
pub mod Resolve
pub mod Execute
pub mod Bytes
pub mod Plan
pub mod Health
pub mod Inventory
