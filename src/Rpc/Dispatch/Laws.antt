-- ===== src/Rpc/Dispatch/Laws.antt =====
-- How handle_json_rpc of src/handler/tau_handler.cpp finds the handler of a request, or does not.
use tau_shell.Prelude.{
  ◌≡◌, refl, ap, ◌∙◌, ◌⊎◌, inl, inr, Option, none, some, List, [], ◌∷◌, ◌++◌, Bytes, codes, Bool,
  true, false, bytes_eq, set, ◌||◌,
}
use tau_shell.Prelude.Int.{ℤ, negsuc}
use tau_shell.Fault.{ok, fault, null_pointer}
use tau_shell.Program.{resume-ok}
use tau_shell.Memory.{store}
use tau_shell.Json.{Token, Tokens, string, object, find_key, find_int}
use tau_shell.Rpc.Session.{Env, World}
use tau_shell.Rpc.Args.{set_buffer, terminate}
use tau_shell.Rpc.Args.Laws.{Value, ended, text_at-Value, terminate-Value}
use tau_shell.Rpc.Service.{Handler, set_loop_time_interval}
use tau_shell.Rpc.Friends.{add_new_friend, delete_friend}
use tau_shell.Rpc.Messages.{
  add_new_message, publish_data, subscribe_from_peer, send_to_peer, send_data,
}
use tau_shell.Rpc.Communities.{
  create_chain_id, create_new_community, follow_chain, follow_chain_mobile, unfollow_chain,
  unfollow_chain_mobile, add_new_bootstrap_peers, start_chain, get_access_list, get_ban_list,
  get_mining_time, put_all_chain_data,
}
use tau_shell.Rpc.Queries.{
  get_median_tx_fee, get_block_by_number, get_block_by_hash, get_chain_state, get_account_info,
}
use tau_shell.Rpc.Transactions.{
  submit_note_transaction, submit_transaction, get_tx_state, is_transaction_in_fee_pool,
  request_chain_data,
}
use tau_shell.Rpc.Dispatch.{
  MethodHandler, handlers, find_handler, run_handler, return_failure, show_tag, handle_json_rpc,
}

module _ (env : Env) where
  -- A request without a string "method" is answered by a failure, and nothing else is done.
  pub handle_json_rpc-missing_method :
      (tokens : Tokens) (w : World) {buf : Bytes}
      → find_key (some tokens) w.buffer (codes "method") string ≡ ok (none, buf)
      → handle_json_rpc env tokens w
        ≡ ok (
          tt,
          record w {
            buffer = buf;
            response =
                codes "{ \"result\": \"missing method in request\", \"tag\": "
                ++ (show_tag (negsuc 0) ++ codes "}");
          },
        )
  unfolding handle_json_rpc return_failure
  handle_json_rpc-missing_method tokens w found = resume-ok _ (ap (set_buffer w) found)

  method_found :
      (tokens : Tokens) (w : World) (buf m : Bytes) (t : Token) (rest : Tokens)
      → find_key (some tokens) w.buffer (codes "method") string ≡ ok (some (t ∷ rest), buf)
      → (v : Value buf t m)
      → handle_json_rpc env tokens w
        ≡ run_handler tokens
            (find_handler m (handlers env))
            (ended (record w { buffer = buf }) v.last)
  unfolding handle_json_rpc
  method_found tokens w buf m t rest found v =
      let w1 = record w { buffer = buf } in
      resume-ok _ (ap (set_buffer w) found)
      ∙ (resume-ok _ (terminate-Value t w1 m v) ∙ resume-ok _ (text_at-Value t w1 m v))

  -- A method that is not in the table leaves the response empty: no handler runs, and the client gets
  -- no error.
  pub handle_json_rpc-unknown :
      (tokens : Tokens) (w : World) (buf m : Bytes) (t : Token) (rest : Tokens)
      → find_key (some tokens) w.buffer (codes "method") string ≡ ok (some (t ∷ rest), buf)
      → (v : Value buf t m) → find_handler m (handlers env) ≡ none
      → handle_json_rpc env tokens w ≡ ok (tt, ended (record w { buffer = buf }) v.last)
  handle_json_rpc-unknown tokens w buf m t rest found v unknown =
      method_found tokens w buf m t rest found v
      ∙ ap (λ h. run_handler tokens h (ended (record w { buffer = buf }) v.last)) unknown

  run_handler-call :
      (tokens : Tokens) (w : World) (fun : Option Tokens → Handler) {buf' buf'' buf''' : Bytes}
      {a : Token} {args : Tokens} {tag : ℤ}
      → find_key (some tokens) w.buffer (codes "arguments") object ≡ ok (some (a ∷ args), buf')
      → find_int (some tokens) buf' (codes "tag") ≡ ok (tag, buf'')
      → store buf'' a.end 0 ≡ ok buf'''
      → run_handler tokens (some fun) w ≡ fun (some (a ∷ args)) (record w { buffer = buf''' })
  unfolding terminate
  run_handler-call tokens w fun arguments tagged stored = rw arguments (rw tagged (rw stored))

  -- A method of the table gets the object "arguments" with a NUL behind it, after the tag is read.
  pub handle_json_rpc-call :
      (tokens : Tokens) (w : World) (buf m : Bytes) (t : Token) (rest : Tokens)
      (fun : Option Tokens → Handler) {buf' buf'' buf''' : Bytes} {a : Token} {args : Tokens}
      {tag : ℤ}
      → find_key (some tokens) w.buffer (codes "method") string ≡ ok (some (t ∷ rest), buf)
      → (v : Value buf t m) → find_handler m (handlers env) ≡ some fun
      → find_key (some tokens) (set buf v.last 0) (codes "arguments") object
        ≡ ok (some (a ∷ args), buf')
      → find_int (some tokens) buf' (codes "tag") ≡ ok (tag, buf'')
      → store buf'' a.end 0 ≡ ok buf'''
      → handle_json_rpc env tokens w ≡ fun (some (a ∷ args)) (record w { buffer = buf''' })
  handle_json_rpc-call tokens w buf m t rest fun found v known arguments tagged stored =
      method_found tokens w buf m t rest found v
      ∙ (ap (λ h. run_handler tokens h (ended (record w { buffer = buf }) v.last)) known
          ∙ run_handler-call tokens (ended (record w { buffer = buf }) v.last) fun arguments tagged
              stored)

abbrev pub takes_no_args : List Bytes
takes_no_args =
    codes "udp-analysis"
    ∷ codes "session-stats"
    ∷ codes "update-friend-info"
    ∷ codes "get-friend-info"
    ∷ codes "get-all-chains"
    ∷ codes "stop-io-service"
    ∷ codes "restart-io-service"
    ∷ codes "crash-test"
    ∷ []

abbrev pub mem : Bytes → List Bytes → Bool
mem m [] = false
mem m (x ∷ xs) = bytes_eq m x || mem m xs

-- What a handler does without arguments.
abbrev pub EndsWithoutArgs : MethodHandler → Type 0
EndsWithoutArgs (name, fun) =
    (mem name takes_no_args ≡ true) ⊎ ((w : World) → fun none w ≡ fault null_pointer)

infixr 5 ◌&◌
pub data AllEnd : List MethodHandler → Type 0 where
  at_end : AllEnd []
  ◌&◌ :
      {h : MethodHandler} {hs : List MethodHandler}
      → EndsWithoutArgs h
      → AllEnd hs
      → AllEnd (h ∷ hs)

-- But for eight methods, every handler of the table dereferences NULL where the request has no
-- arguments.
pub handlers-without_args : (env : Env) → AllEnd (handlers env)
unfolding handlers find_key set_loop_time_interval add_new_friend delete_friend add_new_message
    publish_data subscribe_from_peer send_to_peer create_chain_id create_new_community follow_chain
    follow_chain_mobile unfollow_chain unfollow_chain_mobile get_median_tx_fee get_block_by_number
    get_block_by_hash send_data get_chain_state get_account_info submit_note_transaction
    submit_transaction get_tx_state add_new_bootstrap_peers start_chain get_access_list get_ban_list
    get_mining_time is_transaction_in_fee_pool request_chain_data put_all_chain_data
handlers-without_args env =
    inl refl
    & inl refl
    & inr (λ w. refl)
    & inr (λ w. refl)
    & inl refl
    & inl refl
    & inr (λ w. refl)
    & inr (λ w. refl)
    & inr (λ w. refl)
    & inr (λ w. refl)
    & inr (λ w. refl)
    & inr (λ w. refl)
    & inr (λ w. refl)
    & inr (λ w. refl)
    & inr (λ w. refl)
    & inr (λ w. refl)
    & inr (λ w. refl)
    & inr (λ w. refl)
    & inr (λ w. refl)
    & inr (λ w. refl)
    & inr (λ w. refl)
    & inr (λ w. refl)
    & inr (λ w. refl)
    & inr (λ w. refl)
    & inr (λ w. refl)
    & inr (λ w. refl)
    & inl refl
    & inl refl
    & inl refl
    & inl refl
    & inr (λ w. refl)
    & inr (λ w. refl)
    & inr (λ w. refl)
    & inr (λ w. refl)
    & inr (λ w. refl)
    & inr (λ w. refl)
    & inr (λ w. refl)
    & inr (λ w. refl)
    & at_end
