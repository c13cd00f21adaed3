-- ===== src/Rpc/Session.antt =====
-- What the handlers of src/handler/tau_handler.cpp work on: the request's text, the response, the
-- calls of the libTAU session and the database. A session is a parameter: what it answers is a
-- function of the calls made so far.
use tau_shell.Prelude.{Bool, List, [], ◌∷◌, ◌++◌, Bytes}
use tau_shell.Prelude.Int.{ℤ}
use tau_shell.Fault.{Res, ok, fault}
use tau_shell.Program.{Program}
use tau_shell.Hex.{Platform}
use tau_shell.Db.Model.{Engine, Sql}

-- blockchain::account
pub record Account : Type 0 where
  pub peer : Bytes
  pub balance : ℤ
  pub nonce : ℤ

-- The transactions that the handlers build and sign: a note with the hash of the one before, and a
-- transfer.
pub data SignedTx : Type 0 where
  note : (chain_id : Bytes) → (timestamp : ℤ) → (sender hash payload : Bytes) → SignedTx
  transfer :
      (chain_id : Bytes)
      → (timestamp : ℤ) → (sender receiver : Bytes) → (nonce amount fee : ℤ) → (payload : Bytes)
      → SignedTx

-- The calls of `m_ses`, by their names.
pub data Call : Type 0 where
  post_session_stats stop_service restart_service crash_test get_all_chains : Call
  get_session_time : Call
  new_account_seed : Bytes → Call
  set_loop_time_interval : ℤ → Call
  add_new_friend delete_friend : Bytes → Call
  add_new_message : ℤ → Bytes → Bytes → Bytes → Call
  publish_data subscribe_from_peer send_to_peer create_chain_id : Bytes → Bytes → Call
  send : Bytes → Bytes → ℤ → ℤ → ℤ → ℤ → Call
  create_new_community : Bytes → List Account → Call
  add_new_bootstrap_peers follow_chain : Bytes → List Bytes → Call
  unfollow_chain start_chain put_all_chain_data get_access_list get_ban_list : Bytes → Call
  get_mining_time get_median_tx_free request_chain_state : Bytes → Call
  is_transaction_in_fee_pool request_chain_data get_account_info get_block_by_hash :
      Bytes → Bytes → Call
  submit_transaction : SignedTx → Call
  get_top_tip_block get_block_by_number : Bytes → ℤ → Call

-- The answers of the session, each after the calls before it, and `tx.sha1()` of a signed transaction.
pub record Answers : Type 0 where
  pub session_time : List Call → ℤ
  pub chain_id : List Call → Bytes → Bytes → Bytes
  pub mining_time : List Call → Bytes → ℤ
  pub in_fee_pool : List Call → Bytes → Bytes → Bool
  pub median_tx_free : List Call → Bytes → ℤ
  pub account_info : List Call → Bytes → Bytes → Account
  pub accepts : List Call → SignedTx → Bool
  pub top_tip_block : List Call → Bytes → ℤ → List Bytes
  pub block_by_number : List Call → Bytes → ℤ → Bytes
  pub block_by_hash : List Call → Bytes → Bytes → Bytes
  pub tx_sha1 : SignedTx → Bytes

-- `key_lt` and `account_lt` order the keys and the accounts in a std::set.
pub record Env : Type 0 where
  pub platform : Platform
  pub engine : Engine
  pub answers : Answers
  pub key_lt : Bytes → Bytes → Bool
  pub account_lt : Account → Account → Bool

pub record World : Type 0 where
  pub buffer : Bytes
  pub response : Bytes
  pub calls : List Call
  pub sql : Sql

-- A call whose answer is not used, or not there.
abbrev pub call : Call → Program World (Unit {0})
call c w = ok (tt, record w { calls = w.calls ++ c ∷ [] })

abbrev pub ask {ℓ} : {A : Type ℓ} → Call → (List Call → A) → Program World A
ask c answer w = ok (answer w.calls, record w { calls = w.calls ++ c ∷ [] })

-- appendf
abbrev pub print : Bytes → Program World (Unit {0})
print text w = ok (tt, record w { response = w.response ++ text })

abbrev pub set_sql {ℓ} : {A : Type ℓ} → World → Res (A × Sql) → Res (A × World)
set_sql w (ok (a, sql)) = ok (a, record w { sql = sql })
set_sql w (fault e) = fault e

-- A call of the database.
abbrev pub with_db {ℓ} : {A : Type ℓ} → Program Sql A → Program World A
with_db m w = set_sql w (m w.sql)
