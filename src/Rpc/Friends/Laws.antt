-- ===== src/Rpc/Friends/Laws.antt =====
-- What the handlers for friends of src/handler/tau_handler.cpp do on a well-formed request.
use tau_shell.Rpc.Session
use tau_shell.Rpc.Session.{set_sql}
