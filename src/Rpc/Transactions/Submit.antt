-- ===== src/Rpc/Transactions/Submit.antt =====
-- What submit_transaction of src/handler/tau_handler.cpp submits on a well-formed request.
use tau_shell.Prelude.{
  refl, ℕ, zero, suc, ap, ◌+◌, leb, arith, ◌≡◌, ◌≤◌, ◌∙◌, Bool, Bool-cases, inl, inr, true, [], ◌∷◌,
  ◌++◌, Bytes, length, take, drop, zeros, if◌then◌else◌,
}
use tau_shell.Prelude.Int.{ℤ, pos, ◌+ℤ◌, ltb_ℤ}
use tau_shell.Fault.{ok}
use tau_shell.Program.{resume-ok}
use tau_shell.Text.{show_ℤ}
use tau_shell.Json.{string, primitive}
use tau_shell.Json.Flat.{AllStand}
use tau_shell.Hex.{IsLawful, AllBytes, hex_char_to_bytes_char, has_other}
use tau_shell.Rpc.Session
use tau_shell.Rpc.Session.{Env, World, SignedTx, transfer}
use tau_shell.Rpc.Args.Laws.{as_int}
use tau_shell.Rpc.Args.Entries.{
  Request, Given, Ends, returned, tokens, key-Given, int_at-as_int, pubkey_at-Given,
  string_chain_id_at-Given,
}
use tau_shell.Rpc.Transactions.{transfer_hex, constant, fee_for, submitted, submit_transaction}

take-past : (n : ℕ) (text : Bytes) → length text ≤ n → take n text ≡ text
take-past zero [] h = refl
take-past (suc n) [] h = refl
take-past zero (c ∷ text) h = absurd (omega arith)
take-past (suc n) (c ∷ text) h = ap (λ t. c ∷ t) (take-past n text (omega arith))

module _ (env : Env) where
  -- The calls up to a fee, and the fee.
  abbrev pub asked : World → ℤ → Bytes → World
  asked w fee chain_id = record w {
    calls =
        if ltb_ℤ fee (pos 0) then w.calls ++ Session.get_median_tx_free chain_id ∷ [] else w.calls;
  }

  abbrev pub charged : World → ℤ → Bytes → ℤ
  charged w fee chain_id =
      if ltb_ℤ fee (pos 0) then env.answers.median_tx_free w.calls chain_id else fee

  pub fee_for-charged :
      (fee : ℤ) (chain_id : Bytes) (w : World)
      → fee_for env fee chain_id w ≡ ok (charged w fee chain_id, asked w fee chain_id)
  fee_for-charged fee chain_id w = elim (Bool-cases (ltb_ℤ fee (pos 0))) [
    | inl median ↦ rw median
    | inr given ↦ rw given
  ]

  -- The first characters of a constant, decoded into an array of null bytes, whether or not all of
  -- them are digits.
  abbrev pub IsDecoded : Bytes → (size n : ℕ) → Bytes → Type 0
  IsDecoded text size n bytes =
      (all_digits : Bool) × (env.platform.from_hex (take size text) (zeros n)
        ≡ ok (all_digits, bytes))

  -- A NUL ends the constant where the span goes on behind it.
  pub constant_lem :
      (text : Bytes) (size n : ℕ) (bytes : Bytes) (w : World)
      → has_other text ≡ true
      → IsDecoded text size n bytes
      → constant env text (pos size) n w ≡ ok (bytes, w)
  unfolding hex_char_to_bytes_char
  constant_lem text size n bytes w stops (all_digits, h) =
      elim (Bool-cases (leb (0 + size) (length text))) [
        | inl inside ↦ rw inside (rw h)
        | inr outside ↦
            let whole : take size text ≡ text = take-past size text (ground arith) in
            let ended : has_other (take size text) ≡ true = rw whole stops in
            rw (outside, ended) (rw h)
      ]

  -- The transaction, and the world in which it is submitted.
  module _ (w : World) (chain_id sender receiver : Bytes) (amount fee : ℤ) (payload : Bytes) where
    abbrev pub account_asked : World
    account_asked = record w { calls = w.calls ++ Session.get_account_info chain_id sender ∷ [] }

    abbrev pub fee_asked : World
    fee_asked = asked account_asked fee chain_id

    abbrev pub next_nonce : ℤ
    next_nonce = (env.answers.account_info w.calls chain_id sender).nonce +ℤ pos 1

    abbrev pub built : SignedTx
    built =
        transfer chain_id (env.answers.session_time fee_asked.calls) sender receiver next_nonce
          amount (charged account_asked fee chain_id) payload

    abbrev pub time_asked : World
    time_asked = record fee_asked { calls = fee_asked.calls ++ Session.get_session_time ∷ [] }

    abbrev pub done : World
    done = record time_asked {
      calls = time_asked.calls ++ Session.submit_transaction built ∷ [];
      response =
          w.response ++ submitted env (env.answers.accepts time_asked.calls built) next_nonce built;
    }

module _ (env : Env) (lawful : IsLawful env.platform) (r : Request) where
  -- Where the entries of the arguments stand in the text, with a string "chain_id" that is the
  -- text of a chain id of at least eight bytes, a "sender" and a "receiver" that are keys of 32
  -- bytes in hexadecimal, numbers "amount" and "fee" of any size, and a string "payload": the
  -- session is asked for the account of the sender, for the median fee if the fee as atoi reads it
  -- is negative, and for the time; then one transfer is submitted, with the next nonce of that
  -- account, the amount as atoi reads it, cut to 32 bits, the fee so read or the median, and the
  -- decoded constant, whatever the payload. The response says whether it was accepted, its nonce
  -- and its hash, and no statement is run.
  pub submit_transaction_lem :
      (w : World) (chain_id sender receiver : Bytes) (amount fee : ℤ)
      (payload given_payload : Bytes)
      → AllStand w.buffer r.entries
      → (c : Given r "chain_id" string (env.platform.to_hex (take 8 chain_id) ++ drop 8 chain_id))
      → (s : Given r "sender" string (env.platform.to_hex sender))
      → (t : Given r "receiver" string (env.platform.to_hex receiver))
      → (a : Given r "amount" primitive (show_ℤ amount))
      → (f : Given r "fee" primitive (show_ℤ fee)) → (p : Given r "payload" string given_payload)
      → AllBytes chain_id
      → 8 ≤ length chain_id
      → AllBytes sender
      → length sender ≡ 32
      → AllBytes receiver
      → length receiver ≡ 32
      → IsDecoded env transfer_hex 44 22 payload
      → Ends
          (submit_transaction env (tokens r))
          w
          (returned (done env w chain_id sender receiver (as_int amount) (as_int fee) payload))
  unfolding submit_transaction has_other
  submit_transaction_lem w chain_id sender receiver amount fee payload given_payload stand c s t a f
        p chain_bytes chain_size sender_bytes sender_size receiver_bytes receiver_size decoded =
      let out =
        returned (done env w chain_id sender receiver (as_int amount) (as_int fee) payload) in
      key-Given r "chain_id" string c _ w out stand (λ _ _ h.
        key-Given r "sender" string s _ _ out h (λ _ _ h.
          key-Given r "receiver" string t _ _ out h (λ _ _ h.
            key-Given r "amount" primitive a _ _ out h (λ _ _ h.
              key-Given r "fee" primitive f _ _ out h (λ _ _ h.
                key-Given r "payload" string p _ _ out h (λ _ _ h.
                  string_chain_id_at-Given r env lawful c _ _ out chain_bytes chain_size h (λ _ h.
                    pubkey_at-Given r env lawful s _ _ out sender_bytes sender_size h (λ _ h.
                      pubkey_at-Given r env lawful t _ _ out receiver_bytes receiver_size h (λ _ h.
                        int_at-as_int r amount a _ _ out h (λ _ h.
                          int_at-as_int r fee f _ _ out h (λ buf h. (
                            buf,
                            resume-ok _ (fee_for-charged env (as_int fee) chain_id _)
                                ∙ resume-ok _
                                    (constant_lem env transfer_hex 44 22 payload _ refl decoded),
                          ))))))))))))
