-- ===== src/Rpc/Transactions/Notes.antt =====
-- What submit_note_transaction of src/handler/tau_handler.cpp submits on a well-formed request.
use tau_shell.Prelude.{
  ◌+◌, ◌≡◌, ◌≤◌, refl, ap, ◌∙◌, [], ◌∷◌, ◌++◌, Bytes, length, take, drop, zeros,
}
use tau_shell.Prelude.Int.{ℤ, pos}
use tau_shell.Fault.{Res}
use tau_shell.Program.{Program, lift, ◌>>=◌, resume, resume-ok}
use tau_shell.Text.{show_ℤ}
use tau_shell.Json.{string, primitive}
use tau_shell.Json.Flat.{AllStand, value_token}
use tau_shell.Hex.{IsLawful, AllBytes, has_other}
use tau_shell.Rpc.Session
use tau_shell.Rpc.Session.{Env, World, SignedTx, note, print}
use tau_shell.Rpc.Args.{size_of}
use tau_shell.Rpc.Args.Laws.{IsInt32, length-chain_text}
use tau_shell.Rpc.Args.Entries.{
  Request, Given, Ends, returned, tokens, with_buffer, key-Given, int_at-Given, pubkey_at-Given,
  string_chain_id_at-Given, size_of-Given,
}
use tau_shell.Rpc.Transactions.{note_hex, constant, submit, submitted, submit_note_transaction}
use tau_shell.Rpc.Transactions.Submit.{IsDecoded, asked, fee_for-charged, constant_lem}

module _ (env : Env) where
  -- The note, and the world in which it is submitted.
  module _ (w : World) (chain_id sender : Bytes) (fee : ℤ) (hash payload : Bytes) where
    abbrev pub fee_asked : World
    fee_asked = asked env w fee chain_id

    abbrev pub built : SignedTx
    built = note chain_id (env.answers.session_time fee_asked.calls) sender hash payload

    abbrev pub time_asked : World
    time_asked = record fee_asked { calls = fee_asked.calls ++ Session.get_session_time ∷ [] }

    abbrev pub done : World
    done = record time_asked {
      calls = time_asked.calls ++ Session.submit_transaction built ∷ [];
      response =
          w.response ++ submitted env (env.answers.accepts time_asked.calls built) (pos 0) built;
    }

    -- The rest of the handler, after the hash is decoded.
    abbrev submit_hashed : Bytes → Program World (Unit {0})
    submit_hashed tx_hash = do
      hash' ← lift (env.platform.sha1_hash tx_hash)
      let tx = note chain_id (env.answers.session_time fee_asked.calls) sender hash' payload
      result ← submit env tx
      print (submitted env result (pos 0) tx)

module _ (env : Env) (lawful : IsLawful env.platform) (r : Request) (w : World)
    (chain_id sender : Bytes) (fee : ℤ) (payload given_payload : Bytes)
    (stand : AllStand w.buffer r.entries)
    (c : Given r "chain_id" string (env.platform.to_hex (take 8 chain_id) ++ drop 8 chain_id))
    (s : Given r "sender" string (env.platform.to_hex sender))
    (f : Given r "fee" primitive (show_ℤ fee)) (p : Given r "payload" string given_payload)
    (chain_bytes : AllBytes chain_id) (chain_size : 8 ≤ length chain_id)
    (sender_bytes : AllBytes sender) (sender_size : length sender ≡ 32) (fee_fits : IsInt32 fee)
    (decoded : IsDecoded env note_hex 40 20 payload) where
  -- Up to the hash the handler goes on whatever the size of the chain id.
  up_to_hash :
      (hash : Bytes) (out : Bytes → Res (Unit {0} × World))
      → ((buf : Bytes)
          → resume
              (constant env note_hex
                (pos (length chain_id + 8))
                20
                (with_buffer (time_asked env w chain_id sender fee hash payload) buf))
              (submit_hashed env w chain_id sender fee hash payload)
            ≡ out buf)
      → Ends (submit_note_transaction env (tokens r)) w out
  unfolding submit_note_transaction has_other
  up_to_hash hash out k =
      let size : size_of (value_token c.entry) ≡ pos (length chain_id + 8) =
        size_of-Given r c w.buffer stand
        ∙ ap pos (length-chain_text env lawful chain_id chain_size) in
      let after = λ (buf : Bytes) (n : ℤ).
        resume
          (constant env note_hex n 20
            (with_buffer (time_asked env w chain_id sender fee hash payload) buf))
          (submit_hashed env w chain_id sender fee hash payload) in
      key-Given r "chain_id" string c _ w out stand (λ _ _ h.
        key-Given r "sender" string s _ _ out h (λ _ _ h.
          key-Given r "fee" primitive f _ _ out h (λ _ _ h.
            key-Given r "payload" string p _ _ out h (λ _ _ h.
              string_chain_id_at-Given r env lawful c _ _ out chain_bytes chain_size h (λ _ h.
                pubkey_at-Given r env lawful s _ _ out sender_bytes sender_size h (λ _ h.
                  int_at-Given r f _ _ out fee_fits h (λ buf h. (
                    buf,
                    resume-ok _ (fee_for-charged env fee chain_id _)
                        ∙ (resume-ok _ (constant_lem env note_hex 40 20 payload _ refl decoded)
                            ∙ (ap (after buf) size ∙ k buf)),
                  ))))))))

  -- Where the entries of the arguments stand in the text, with a string "chain_id" that is the
  -- text of a chain id of at least eight bytes, a "sender" that is a key in hexadecimal, a number "fee"
  -- of 32 bits and a string "payload": the session is asked for the median fee if the fee is
  -- negative, and for the time; then one note is submitted, without a fee, with the decoded
  -- constant, whatever the payload, and with what as many characters of the constant as the chain
  -- id has decode to as its hash. The response says whether it was accepted, and its hash.
  pub submit_note_transaction_lem :
      (hash : Bytes)
      → IsDecoded env note_hex (length chain_id + 8) 20 hash
      → Ends
          (submit_note_transaction env (tokens r))
          w
          (returned (done env w chain_id sender fee hash payload))
  unfolding has_other
  submit_note_transaction_lem hash hash_decoded = up_to_hash hash _ (λ buf.
      let size : length hash ≡ 20 =
        lawful.length-from_hex (take (length chain_id + 8) note_hex) (zeros 20) (hash_decoded.1) in
      resume-ok _ (constant_lem env note_hex (length chain_id + 8) 20 hash _ refl hash_decoded)
      ∙ rw (lawful.sha1_hash-exact hash size) refl)
