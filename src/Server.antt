-- ===== src/Server.antt =====
-- tinycloud-node-server: the parts of the server that decide by their own state.
pub mod InvocationReplay
