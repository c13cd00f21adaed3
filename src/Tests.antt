-- ===== src/Tests.antt =====
-- The definitions run on small inputs, and each property applied where its hypotheses hold.
pub mod Platform
mod Json
mod Hex
mod Auth
mod Db
mod Alerts
mod Webui
mod Rpc
mod Dispatch
mod Requests
mod Http
mod Escape
mod Peers
mod Initial
mod Startup
mod Directory
mod Entries
mod Transfer
mod Notes
mod BlockHash
mod SendData
mod Posted
mod PostTransfer
mod Interleaving
mod SendMessage
