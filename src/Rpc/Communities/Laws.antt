-- ===== src/Rpc/Communities/Laws.antt =====
-- What a handler for chains of src/handler/tau_handler.cpp does on a well-formed request.
use tau_shell.Rpc.Session
