-- ===== src/Rpc/Transactions.antt =====
-- The handlers of src/handler/tau_handler.cpp for transactions.
pub mod Laws
pub mod Submit
pub mod Notes
use tau_shell.Prelude.{
  zeros, ℕ, ◌+◌, ◌/◌, Bool, true, false, Option, none, some, List, [], ◌∷◌, Bytes, ◌++◌, codes, ltb,
  if◌then◌else◌,
}
use tau_shell.Prelude.Int.{ℤ, pos, negsuc, ◌+ℤ◌, ◌-ℤ◌, ltb_ℤ}
use tau_shell.Fault.{Res, ok, fault, length_error, bad_vararg}
use tau_shell.Program.{Program, pure, stop, lift, gets, ◌>>=◌, ◌>>◌}
use tau_shell.Text.{show_ℤ, show_ℕ, to_int32}
use tau_shell.Json.{Token, Tokens, string, primitive}
use tau_shell.Hex.{hex_char_to_bytes_char}
use tau_shell.Db.Queries.{db_get_tx_state}
use tau_shell.Rpc.Session
use tau_shell.Rpc.Session.{Env, World, SignedTx, note, transfer, call, ask, print, with_db}
use tau_shell.Rpc.Args.{
  key, need, terminate, read_buffer, text_at, int_at, size_of, pubkey_at, string_chain_id_at,
  hex_chain_id_at,
}
use tau_shell.Rpc.Service.{Handler}

-- resize(size / 2): the division rounds towards zero, and a negative size throws.
unfoldable pub resize_half : ℤ → Res Bytes
resize_half (pos n) = ok (zeros (n / 2))
resize_half (negsuc n) = if ltb n 1 then ok [] else fault length_error

-- t->start - t->end + 1
abbrev pub backward_size : Token → ℤ
backward_size t = t.start -ℤ t.end +ℤ pos 1

-- A constant of the source, with its NUL: the payload of a note, and of a transfer.
abbrev pub note_hex : Bytes
note_hex = codes "d30101906e6f7465207472616e73616374696f6e" ++ 0 ∷ []

abbrev pub transfer_hex : Bytes
transfer_hex = codes "d5010292776972696e67207472616e73616374696f6e" ++ 0 ∷ []

module _ (env : Env) where
  -- The hash whose digits stand at position `at`, of the size that `t` gives.
  unfoldable pub backward_hash : Token → ℤ → Program World Bytes
  backward_hash t at = do
    terminate t
    room ← lift (resize_half (backward_size t))
    (done, bytes) ←
        read_buffer (λ buf. hex_char_to_bytes_char env.platform buf at (backward_size t) room)
    lift (env.platform.sha1_hash bytes)

  -- The digits are read where the chain id stands.
  unfoldable pub is_transaction_in_fee_pool : Option Tokens → Handler
  is_transaction_in_fee_pool args = do
    c ← key args string "chain_id"
    h ← key args string "tx_hash"
    c' ← need c
    terminate c'
    chain_id_hex ← text_at c'
    chain_id ← hex_chain_id_at env c'
    h' ← need h
    hash ← backward_hash h' c'.start
    existed ←
        ask (Session.is_transaction_in_fee_pool chain_id hash)
          (λ calls. env.answers.in_fee_pool calls chain_id hash)
    tx_hash_hex ← text_at c'
    print (
        codes "{\"Get tx in Chain Id\": "
        ++ (chain_id_hex
            ++ (codes " , hash: "
                ++ (tx_hash_hex
                    ++ (codes ", existed: "
                        ++ ((if existed then codes "1" else codes "0") ++ codes "s \"OK\"}"))))))

  -- The vector and the client's pointer are passed to `...`.
  unfoldable pub request_chain_data : Option Tokens → Handler
  request_chain_data args = do
    c ← key args string "chain_id"
    p ← key args string "peer"
    c' ← need c
    chain_id ← string_chain_id_at env c'
    p' ← need p
    peer ← pubkey_at env p'
    call (Session.request_chain_data chain_id peer)
    stop bad_vararg

  -- A constant decoded into an array of `n` null bytes, of which `size` characters are read.
  abbrev pub constant : Bytes → ℤ → ℕ → Program World Bytes
  constant text size n = do
    (done, bytes) ← lift (hex_char_to_bytes_char env.platform text (pos 0) size (zeros n))
    pure bytes

  -- A negative fee asks for the median.
  abbrev pub fee_for : ℤ → Bytes → Program World ℤ
  fee_for fee chain_id =
      if ltb_ℤ fee (pos 0)
      then ask (Session.get_median_tx_free chain_id)
          (λ calls. env.answers.median_tx_free calls chain_id)
      else pure fee

  abbrev pub submit : SignedTx → Program World Bool
  submit tx = ask (Session.submit_transaction tx) (λ calls. env.answers.accepts calls tx)

  abbrev pub submitted : Bool → ℤ → SignedTx → Bytes
  submitted result nonce tx =
      codes "{\"result\": \""
      ++ ((if result then codes "success" else codes "fail")
          ++ (codes "\", \"nonce\": "
              ++ (show_ℤ (to_int32 nonce)
                  ++ (codes ", \"txHash\":\""
                      ++ (env.platform.to_hex (env.answers.tx_sha1 tx) ++ codes "\"}")))))

  -- The fee is not used, and the hash is decoded by the size of the chain id.
  unfoldable pub submit_note_transaction : Option Tokens → Handler
  submit_note_transaction args = do
    c ← key args string "chain_id"
    s ← key args string "sender"
    f ← key args primitive "fee"
    p ← key args string "payload"
    c' ← need c
    chain_id ← string_chain_id_at env c'
    s' ← need s
    sender ← pubkey_at env s'
    f' ← need f
    given ← int_at f'
    fee ← fee_for given chain_id
    payload ← constant note_hex (pos 40) 20
    time_stamp ← ask Session.get_session_time env.answers.session_time
    tx_hash ← constant note_hex (size_of c') 20
    hash ← lift (env.platform.sha1_hash tx_hash)
    let tx = note chain_id time_stamp sender hash payload
    result ← submit tx
    print (submitted result (pos 0) tx)

  unfoldable pub submit_transaction : Option Tokens → Handler
  submit_transaction args = do
    c ← key args string "chain_id"
    s ← key args string "sender"
    r ← key args string "receiver"
    a ← key args primitive "amount"
    f ← key args primitive "fee"
    p ← key args string "payload"
    c' ← need c
    chain_id ← string_chain_id_at env c'
    s' ← need s
    sender ← pubkey_at env s'
    r' ← need r
    receiver ← pubkey_at env r'
    act ←
        ask (Session.get_account_info chain_id sender)
          (λ calls. env.answers.account_info calls chain_id sender)
    a' ← need a
    amount ← int_at a'
    f' ← need f
    given ← int_at f'
    fee ← fee_for given chain_id
    payload ← constant transfer_hex (pos 44) 22
    time_stamp ← ask Session.get_session_time env.answers.session_time
    let tx = transfer chain_id time_stamp sender receiver (act.nonce +ℤ pos 1) amount fee payload
    result ← submit tx
    print (submitted result (act.nonce +ℤ pos 1) tx)

  unfoldable pub get_tx_state : Option Tokens → Handler
  get_tx_state args = do
    h ← key args string "tx_hash"
    h' ← need h
    terminate h'
    tx_hash ← text_at h'
    tx_state ← with_db (db_get_tx_state env.engine tx_hash)
    print (codes "{\"result\": \"success\", \"state\": " ++ (show_ℕ tx_state ++ codes "}"))
