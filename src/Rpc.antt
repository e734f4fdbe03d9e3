-- ===== src/Rpc.antt =====
-- The RPC between the web process and the agent: rpc/transport.py and agent/dispatcher.py.
pub mod Transport
pub mod Dispatcher
