-- ===== src/Rpc.antt =====
-- src/handler/tau_handler.cpp: the methods of the RPC interface and their dispatch.
pub mod Session
pub mod Args
pub mod Service
pub mod Friends
pub mod Messages
pub mod Communities
pub mod Transactions
pub mod Queries
pub mod Dispatch
