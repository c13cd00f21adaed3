-- ===== src/Webui.antt =====
-- src/rpc/webui.cpp and include/rpc/webui.hpp: the list of HTTP handlers and the web server.
-- Mongoose is a parameter: mg_start answers a context or NULL.
pub mod Laws
use tau_shell.Prelude.{
  ℕ, Bool, true, false, Option, none, some, List, [], ◌∷◌, ◌++◌, Bytes, codes, ◌==◌, if◌then◌else◌,
}
use tau_shell.Prelude.Int.{ℤ}
use tau_shell.Program.{Program, pure, ◌>>=◌, ◌>>◌}
use tau_shell.Text.{show_ℤ}

-- http_handler, at an address that identifies it
pub record HttpHandler {ℓ} (S : Type ℓ) : Type ℓ where
  pub address : ℕ
  pub handle_http : Program S Bool
  pub handle_end_request : Program S (Unit {0})

pub record WebuiBase {ℓ} (S : Type ℓ) : Type ℓ where
  pub m_handlers : List (HttpHandler S)
  pub m_document_root : Bytes
  pub m_ctx : Option ℕ
  pub m_listen_port : ℤ

module _ {ℓ} {S : Type ℓ} where
  unfoldable pub add_handler : HttpHandler S → WebuiBase S → WebuiBase S
  add_handler h w = record w { m_handlers = w.m_handlers ++ h ∷ [] }

  -- std::find and erase: the first one at that address
  unfoldable pub erase_first : ℕ → List (HttpHandler S) → List (HttpHandler S)
  erase_first h [] = []
  erase_first h (i ∷ is) = let rest = erase_first h is in if i.address == h then is else i ∷ rest

  unfoldable pub remove_handler : HttpHandler S → WebuiBase S → WebuiBase S
  remove_handler h w = record w { m_handlers = erase_first h.address w.m_handlers }

  unfoldable pub handle_http : List (HttpHandler S) → Program S Bool
  handle_http [] = pure false
  handle_http (i ∷ is) = do handled ← i.handle_http; if handled then pure true else handle_http is

  unfoldable pub handle_end_request : List (HttpHandler S) → Program S (Unit {0})
  handle_end_request [] = pure tt
  handle_end_request (i ∷ is) = do i.handle_end_request; handle_end_request is

  -- The callback of Mongoose, with the `user_data` of the request.
  unfoldable pub handle_http_request : Option (WebuiBase S) → Program S Bool
  handle_http_request none = pure false
  handle_http_request (some w) = handle_http w.m_handlers

  unfoldable pub end_request : Option (WebuiBase S) → Program S (Unit {0})
  end_request none = pure tt
  end_request (some w) = handle_end_request w.m_handlers

  unfoldable pub is_running : WebuiBase S → Bool
  is_running w = elim w.m_ctx [ none ↦ false | some ctx ↦ true ]

-- The calls of Mongoose: mg_start with its options, and mg_stop of a context.
pub data MgCall : Type 0 where
  mg_start : List Bytes → MgCall
  mg_stop : ℕ → MgCall

abbrev pub stop_calls : Option ℕ → List MgCall
stop_calls none = []
stop_calls (some ctx) = mg_stop ctx ∷ []

unfoldable pub server_options : Bytes → ℤ → ℤ → List Bytes
server_options root port num_threads =
    codes "document_root"
    ∷ root
    ∷ codes "enable_keep_alive"
    ∷ codes "yes"
    ∷ codes "listening_ports"
    ∷ show_ℤ port
    ∷ codes "num_threads"
    ∷ show_ℤ num_threads
    ∷ []

module _ {ℓ} {S : Type ℓ} (context : List Bytes → Option ℕ) where
  unfoldable pub start : ℤ → ℤ → WebuiBase S → List MgCall × WebuiBase S
  start port num_threads w =
      let options = server_options w.m_document_root port num_threads in
      (
        stop_calls w.m_ctx ++ mg_start options ∷ [],
        record w { m_listen_port = port; m_ctx = context options },
      )

unfoldable pub stop {ℓ} : {S : Type ℓ} → WebuiBase S → List MgCall × WebuiBase S
stop w = (stop_calls w.m_ctx, record w { m_ctx = none })
