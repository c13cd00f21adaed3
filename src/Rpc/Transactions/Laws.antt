-- ===== src/Rpc/Transactions/Laws.antt =====
-- The handlers of src/handler/tau_handler.cpp that never answer.
use tau_shell.Rpc.Session
use tau_shell.Prelude.{
  ℕ, ap, ◌≡◌, refl, Option, Bytes, length, arith, ltb, ◌≤◌, ◌-◌, take, drop, false, ◌++◌,
}
use tau_shell.Prelude.Int.{pos_part, neg_part, pos, negsuc, int_laws}
use tau_shell.Fault.{fault, fault-ne-ok, bad_vararg, length_error}
use tau_shell.Program.{Never, after-Never, stop}
use tau_shell.Json.{Token, Tokens, string}
use tau_shell.Hex.{IsLawful, AllBytes}
use tau_shell.Rpc.Queries.{get_block_by_hash}
use tau_shell.Rpc.Session.{Env, World, call}
use tau_shell.Rpc.Args.{key, need, pubkey_at, string_chain_id_at, size_of}
use tau_shell.Rpc.Transactions.{resize_half, backward_size, backward_hash, request_chain_data}
use tau_shell.Json.Flat.{AllStand, value_token}
use tau_shell.Rpc.Args.Entries.{
  Request, Given, Ends, faulted, tokens, with_buffer, key-Given, string_chain_id_at-Given,
  size_of-Given, terminate-Given,
}

module _ (env : Env) where
  -- request_chain_data ends in a fault on every request: what it passes to the format is no C string.
  pub request_chain_data-Never : (args : Option Tokens) → Never (request_chain_data env args)
  unfolding request_chain_data
  request_chain_data-Never args s = after-Never (key args string "chain_id" s) _ (λ c s.
      after-Never (key args string "peer" s) _ (λ p s. after-Never (need c s) _ (λ c' s.
        after-Never (string_chain_id_at env c' s) _ (λ chain_id s. after-Never (need p s) _ (λ p' s.
          after-Never (pubkey_at env p' s) _ (λ peer s.
            after-Never (call (Session.request_chain_data chain_id peer) s) (λ _. stop bad_vararg)
              (λ _ s a s' k. fault-ne-ok k)))))))

-- A text of three characters or more has a size below -1, which no vector can have.
resize_half-backward :
    (t : Token) (n : ℕ)
    → size_of t ≡ pos n
    → 3 ≤ n
    → resize_half (backward_size t) ≡ fault length_error
unfolding resize_half
resize_half-backward t n size long =
    let above = ap pos_part size in
    let below_zero = ap neg_part size in
    let negative : backward_size t ≡ negsuc (n - 2) = omega (int_laws, above, below_zero, long) in
    let below : ltb (n - 2) 1 ≡ false = ground arith in rw negative (rw below)

module _ (env : Env) (lawful : IsLawful env.platform) (r : Request) where
  -- Where the entries of the arguments stand in the text, with a string "chain_id" that is the text of
  -- a chain id of at least eight bytes, and a string "block_hash" of three characters or more, such as
  -- every hash in hexadecimal, get_block_by_hash ends in the exception of a resize to a negative size.
  pub get_block_by_hash-throws :
      (w : World) (chain_id hash : Bytes)
      → AllStand w.buffer r.entries
      → (c : Given r "chain_id" string (env.platform.to_hex (take 8 chain_id) ++ drop 8 chain_id))
      → (t : Given r "block_hash" string hash) → AllBytes chain_id
      → 8 ≤ length chain_id
      → 3 ≤ length hash
      → Ends (get_block_by_hash env (tokens r)) w (faulted length_error)
  unfolding get_block_by_hash backward_hash
  get_block_by_hash-throws w chain_id hash stand c t chain_bytes chain_size long =
      let out = faulted length_error in
      key-Given r "chain_id" string c _ w out stand (λ _ _ h.
        key-Given r "block_hash" string t _ _ out h (λ _ _ h.
          string_chain_id_at-Given r env lawful c _ _ out chain_bytes chain_size h (λ buf h.
            let size = size_of-Given r t buf h in
            (
              buf,
              rw
                  (
                    terminate-Given r t (with_buffer w buf) h,
                    resize_half-backward (value_token t.entry) (length hash) size long,
                  )
                  refl,
            ))))
