-- ===== src/Db/Queries/Laws.antt =====
-- What the queries of src/util/db_util.cpp answer.
use tau_shell.Prelude.{◌+◌, ◌≡◌, refl, some, List, [], ◌∷◌, Bytes, ◌++◌, true}
use tau_shell.Fault.{ok}
use tau_shell.Db.Model.{Engine, Sql, Row}
use tau_shell.Db.Queries.{
  ChainState, row_state, last_state, chain_state_sql, db_get_chain_state, tx_state_sql,
  db_get_tx_state,
}

last_state-append :
    (e : Engine) (state : ChainState) (rows : List Row) (r : Row)
    → last_state e state (rows ++ r ∷ []) ≡ row_state e r
unfolding last_state
last_state-append e state [] r = refl
last_state-append e state (q ∷ rows) r = last_state-append e (row_state e q) rows r

-- Of the rows of a chain the last one is the state, whatever the state was before.
pub db_get_chain_state-last :
    (e : Engine) (chain_id : Bytes) (state : ChainState) (s : Sql) (rows : List Row) (r : Row)
    → e.rows s.statements (chain_state_sql e chain_id) ≡ some (rows ++ r ∷ [])
    → db_get_chain_state e chain_id state s ≡ ok ((true, row_state e r), s)
unfolding db_get_chain_state
db_get_chain_state-last e chain_id state s rows r found =
    rw found (rw (last_state-append e state rows r))

-- A transaction that a row is found of has the state 1, and the statement stays unfinalized. Of one
-- without a row the state is 0, and the statement is finalized.
pub db_get_tx_state-rows :
    (e : Engine) (tx_hash : Bytes) (s : Sql) (rows : List Row)
    → e.rows s.statements (tx_state_sql e tx_hash) ≡ some rows
    → db_get_tx_state e tx_hash s ≡ (elim rows [
      | [] ↦ ok (0, s)
      | r ∷ rest ↦ ok (1, record s { unfinalized = s.unfinalized + 1 })
    ])
unfolding db_get_tx_state
db_get_tx_state-rows e tx_hash s [] found = rw (found, db_get_tx_state)
db_get_tx_state-rows e tx_hash s (r ∷ rows) found = rw (found, db_get_tx_state)
