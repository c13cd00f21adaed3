-- ===== src/Rpc/Queries.antt =====
-- The handlers of src/handler/tau_handler.cpp that ask for accounts, blocks and the state of a chain.
use tau_shell.Prelude.{Option, List, [], ◌∷◌, Bytes, ◌++◌, codes, ◌==◌, if◌then◌else◌}
use tau_shell.Fault.{Res, ok, fault, bad_vararg}
use tau_shell.Program.{pure, lift, ◌>>=◌, ◌>>◌}
use tau_shell.Text.{show_ℤ, to_int32}
use tau_shell.Json.{Tokens, string, primitive}
use tau_shell.Db.Queries.{ChainState, empty_state, db_get_chain_state}
use tau_shell.Rpc.Session
use tau_shell.Rpc.Session.{Env, World, call, ask, print, with_db}
use tau_shell.Rpc.Args.{key, need, text_at, int_at, pubkey_at, string_chain_id_at}
use tau_shell.Rpc.Service.{Handler}
use tau_shell.Rpc.Transactions.{backward_hash}

-- A text that is taken for a format: a directive finds no argument, and "%%" is one "%".
unfoldable pub expand_format : Bytes → Res Bytes
expand_format [] = ok []
expand_format (c ∷ []) = if c == b'%' then fault bad_vararg else ok (c ∷ [])
expand_format (c ∷ (d ∷ cs)) =
    let rest = expand_format (d ∷ cs) in
    let after = expand_format cs in
    if c == b'%'
    then (if d == b'%'
        then (elim after [ ok s ↦ ok (b'%' ∷ s) | fault e ↦ fault e ])
        else fault bad_vararg)
    else (elim rest [ ok s ↦ ok (c ∷ s) | fault e ↦ fault e ])

abbrev pub print_format : Bytes → Handler
print_format text = do expanded ← lift (expand_format text); print expanded

unfoldable pub print_formats : List Bytes → Handler
print_formats [] = pure tt
print_formats (text ∷ texts) = do print_format text; print_formats texts

-- the numbers and hashes of a chain's head, consensus and tail block
abbrev pub state_text : Bytes → ChainState → Bytes
state_text sep state =
    codes "\"headBlockNumber\": "
    ++ (show_ℤ (state.block_number 0)
        ++ (codes ", \"consensusBlockNumber\": "
            ++ (show_ℤ (state.block_number 1)
                ++ (codes ", \"tailBlockNumber\": "
                    ++ (show_ℤ (state.block_number 2)
                        ++ (sep
                            ++ (codes "\"headBlockHash\": \""
                                ++ (state.block_hash 0
                                    ++ (codes "\", \"consensusBlockHash\": \""
                                        ++ (state.block_hash 1
                                            ++ (codes "\", \"tailBlockHash\": \""
                                                ++ (state.block_hash 2 ++ codes "\"}"))))))))))))

module _ (env : Env) where
  unfoldable pub get_account_info : Option Tokens → Handler
  get_account_info args = do
    c ← key args string "chain_id"
    k ← key args string "pubkey"
    c' ← need c
    chain_id ← string_chain_id_at env c'
    k' ← need k
    pubkey ← pubkey_at env k'
    call (Session.request_chain_state chain_id)
    chain_id_str ← text_at c'
    (found, state) ← with_db (db_get_chain_state env.engine chain_id_str empty_state)
    act ←
        ask (Session.get_account_info chain_id pubkey)
          (λ calls. env.answers.account_info calls chain_id pubkey)
    pubkey_hex ← text_at k'
    print (
        codes "{\"ChainID\": \""
        ++ (chain_id_str
            ++ (codes "\", \"Pubkey\": \""
                ++ (pubkey_hex
                    ++ (codes "\",\"balance\": "
                        ++ (show_ℤ act.balance
                            ++ (codes ", \"nonce\": "
                                ++ (show_ℤ act.nonce
                                    ++ (codes ", " ++ state_text (codes ",") state)))))))))

  -- It is not in the table of methods.
  unfoldable pub get_top_tip_block : Option Tokens → Handler
  get_top_tip_block args = do
    c ← key args string "chain_id"
    n ← key args primitive "number"
    c' ← need c
    chain_id ← string_chain_id_at env c'
    n' ← need n
    number ← int_at n'
    blocks ←
        ask (Session.get_top_tip_block chain_id number)
          (λ calls. env.answers.top_tip_block calls chain_id number)
    print_formats blocks

  unfoldable pub get_median_tx_fee : Option Tokens → Handler
  get_median_tx_fee args = do
    c ← key args string "chain_id"
    c' ← need c
    chain_id ← string_chain_id_at env c'
    fee ←
        ask (Session.get_median_tx_free chain_id)
          (λ calls. env.answers.median_tx_free calls chain_id)
    chain_id_str ← text_at c'
    print (
        codes "{\"Get Chain Id\": "
        ++ (chain_id_str ++ (codes ", Fee: " ++ (show_ℤ (to_int32 fee) ++ codes " \"OK\"}"))))

  unfoldable pub get_block_by_number : Option Tokens → Handler
  get_block_by_number args = do
    c ← key args string "chain_id"
    n ← key args primitive "number"
    c' ← need c
    chain_id ← string_chain_id_at env c'
    n' ← need n
    number ← int_at n'
    block ←
        ask (Session.get_block_by_number chain_id number)
          (λ calls. env.answers.block_by_number calls chain_id number)
    print_format block

  unfoldable pub get_block_by_hash : Option Tokens → Handler
  get_block_by_hash args = do
    c ← key args string "chain_id"
    h ← key args string "block_hash"
    c' ← need c
    chain_id ← string_chain_id_at env c'
    h' ← need h
    hash ← backward_hash env h' h'.start
    block ←
        ask (Session.get_block_by_hash chain_id hash)
          (λ calls. env.answers.block_by_hash calls chain_id hash)
    print_format block

  unfoldable pub get_chain_state : Option Tokens → Handler
  get_chain_state args = do
    c ← key args string "chain_id"
    c' ← need c
    chain_id ← string_chain_id_at env c'
    call (Session.request_chain_state chain_id)
    chain_id_str ← text_at c'
    (found, state) ← with_db (db_get_chain_state env.engine chain_id_str empty_state)
    print (codes "{" ++ state_text (codes ", ") state)
