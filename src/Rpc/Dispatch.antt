-- ===== src/Rpc/Dispatch.antt =====
-- The table of methods and handle_json_rpc of src/handler/tau_handler.cpp.
pub mod Laws
pub mod Envelope
use tau_shell.Prelude.{
  ℕ, ◌-◌, Bool, true, false, Option, none, some, List, [], ◌∷◌, Bytes, ◌++◌, codes, length,
  replicate, bytes_eq, String, if◌then◌else◌,
}
use tau_shell.Prelude.Int.{ℤ, pos, negsuc}
use tau_shell.Fault.{Res, ok, fault}
use tau_shell.Program.{Program, pure, ◌>>=◌, ◌>>◌}
use tau_shell.Memory.{store, c_string}
use tau_shell.Text.{show_ℤ, to_int32, parse_number, clamp_int64}
use tau_shell.Json.{Token, Tokens, string, object, primitive, deref, find_int}
use tau_shell.Rpc.Session.{Env, World, print}
use tau_shell.Rpc.Args.{key, need, terminate, text_at, on_buffer}
use tau_shell.Rpc.Service.{
  Handler, udp_analysis, session_stats, set_loop_time_interval, get_all_chains, stop_io_service,
  restart_io_service, crash_test,
}
use tau_shell.Rpc.Friends.{add_new_friend, update_friend_info, get_friend_info, delete_friend}
use tau_shell.Rpc.Messages.{
  add_new_message, publish_data, subscribe_from_peer, send_to_peer, send_data,
}
use tau_shell.Rpc.Communities.{
  create_chain_id, create_new_community, follow_chain, follow_chain_mobile, unfollow_chain,
  unfollow_chain_mobile, add_new_bootstrap_peers, start_chain, get_access_list, get_ban_list,
  get_mining_time, put_all_chain_data,
}
use tau_shell.Rpc.Queries.{
  get_median_tx_fee, get_block_by_number, get_block_by_hash, get_chain_state, get_account_info,
}
use tau_shell.Rpc.Transactions.{
  submit_note_transaction, submit_transaction, get_tx_state, is_transaction_in_fee_pool,
  request_chain_data,
}

-- method_handler: a name and the handler that stands behind it
abbrev pub MethodHandler : Type 0
MethodHandler = Bytes × (Option Tokens → Handler)

-- The tag is passed to every handler, and none uses it.
unfoldable pub handlers : Env → List MethodHandler
handlers env =
    (codes "udp-analysis", udp_analysis)
    ∷ (codes "session-stats", session_stats)
    ∷ (codes "set-loop-time-interval", set_loop_time_interval)
    ∷ (codes "add-new-friend", add_new_friend env)
    ∷ (codes "update-friend-info", update_friend_info)
    ∷ (codes "get-friend-info", get_friend_info)
    ∷ (codes "delete-friend", delete_friend env)
    ∷ (codes "add-new-message", add_new_message env)
    ∷ (codes "publish-data", publish_data)
    ∷ (codes "subscribe-from-peer", subscribe_from_peer env)
    ∷ (codes "send-to-peer", send_to_peer env)
    ∷ (codes "create-chain-id", create_chain_id env)
    ∷ (codes "create-new-community", create_new_community env)
    ∷ (codes "follow-chain", follow_chain env)
    ∷ (codes "follow-chain-mobile", follow_chain_mobile env)
    ∷ (codes "unfollow-chain", unfollow_chain env)
    ∷ (codes "unfollow-chain-mobile", unfollow_chain_mobile env)
    ∷ (codes "get-median-tx-fee", get_median_tx_fee env)
    ∷ (codes "get-block-by-number", get_block_by_number env)
    ∷ (codes "get-block-by-hash", get_block_by_hash env)
    ∷ (codes "send-data", send_data env)
    ∷ (codes "get-chain-state", get_chain_state env)
    ∷ (codes "get-account-info", get_account_info env)
    ∷ (codes "submit-note-transaction", submit_note_transaction env)
    ∷ (codes "submit-transaction", submit_transaction env)
    ∷ (codes "get-tx-state", get_tx_state env)
    ∷ (codes "get-all-chains", get_all_chains)
    ∷ (codes "stop-io-service", stop_io_service)
    ∷ (codes "restart-io-service", restart_io_service)
    ∷ (codes "crash-test", crash_test)
    ∷ (codes "add-new-bs-peers", add_new_bootstrap_peers env)
    ∷ (codes "start-chain", start_chain env)
    ∷ (codes "get-access-list", get_access_list env)
    ∷ (codes "get-ban-list", get_ban_list env)
    ∷ (codes "get-mining-time", get_mining_time env)
    ∷ (codes "is-tx-in-fee-pool", is_transaction_in_fee_pool env)
    ∷ (codes "request-chain-data", request_chain_data env)
    ∷ (codes "put-all-chain-data", put_all_chain_data env)
    ∷ []

unfoldable pub find_handler : Bytes → List MethodHandler → Option (Option Tokens → Handler)
find_handler m [] = none
find_handler m ((name, fun) ∷ rest) = if bytes_eq m name then some fun else find_handler m rest

-- `%I64d` of an int64: glibc takes it for an int in a field of 64 columns.
unfoldable pub show_tag : ℤ → Bytes
show_tag tag = let text = show_ℤ (to_int32 tag) in replicate (64 - length text) 32 ++ text

unfoldable pub return_failure : Bytes → ℤ → Handler
return_failure msg tag w = ok (
  tt,
  record w {
    response =
        codes "{ \"result\": \"" ++ (msg ++ (codes "\", \"tag\": " ++ (show_tag tag ++ codes "}")));
  },
)

-- buffer[args->end] = 0, where there are arguments
abbrev pub terminate_args : Option Tokens → Handler
terminate_args none = pure tt
terminate_args (some args) = do t ← need (some args); terminate t

abbrev pub run_handler : Tokens → Option (Option Tokens → Handler) → Handler
run_handler tokens none = pure tt
run_handler tokens (some fun) = do
  args ← key (some tokens) object "arguments"
  tag ← on_buffer (λ buf. find_int (some tokens) buf (codes "tag"))
  terminate_args args
  fun args

-- A name that is not in the table leaves the response empty.
unfoldable pub handle_json_rpc : Env → Tokens → Handler
handle_json_rpc env tokens = do
  found ← key (some tokens) string "method"
  elim found [
    | none ↦ return_failure (codes "missing method in request") (negsuc 0)
    | some method ↦ (do
      t ← need (some method)
      terminate t
      m ← text_at t
      run_handler tokens (find_handler m (handlers env)))
  ]
