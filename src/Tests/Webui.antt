-- ===== src/Tests/Webui.antt =====
-- The web server of src/rpc/webui.cpp.
use tau_shell.Prelude.{ℕ, ◌≡◌, Bool, false, Option, none, some, List, [], ◌∷◌, Bytes, length, codes}
use tau_shell.Prelude.Int.{pos}
use tau_shell.Fault.{ok}
use tau_shell.Program.{pure}
use tau_shell.Webui.{HttpHandler, WebuiBase}
use tau_shell.Webui.Laws.{start_op, stop_op, run_ops, after_calls, run_ops_lem}

abbrev handler : ℕ → Bool → HttpHandler ℕ
handler address answer = record {
  address = address;
  handle_http = λ s. ok (answer, address);
  handle_end_request = pure tt;
}

abbrev webui : WebuiBase ℕ
webui = record {
  m_handlers = handler 1 false ∷ [];
  m_document_root = codes ".";
  m_ctx = none;
  m_listen_port = pos 0;
}

abbrev context : List Bytes → Option ℕ
context options = some (length options)

run_ops_lem_example :
    let (calls, w) =
      run_ops context
        (start_op (pos 8080) (pos 30) ∷ start_op (pos 8081) (pos 30) ∷ stop_op ∷ [])
        webui in
    after_calls context none calls ≡ some w.m_ctx
run_ops_lem_example =
    run_ops_lem context (start_op (pos 8080) (pos 30) ∷ start_op (pos 8081) (pos 30) ∷ stop_op ∷ [])
      webui
