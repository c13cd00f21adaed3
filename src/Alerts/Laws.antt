-- ===== src/Alerts/Laws.antt =====
-- What the alerts of src/handler/alert_handler.cpp leave in the database.
use tau_shell.Prelude.{
  ◌≡◌, refl, sym, ap, fun_ext, ◌∙◌, ◌≤◌, false, List, [], ◌∷◌, Bytes, ◌++◌, append_assoc, codes,
  length, ◌==◌, arith,
}
use tau_shell.Prelude.Int.{ℤ, pos}
use tau_shell.Fault.{ok}
use tau_shell.Program.{resume, ◌>>◌, resume-ok, resume_assoc}
use tau_shell.Hex.{Platform, bytes_chain_id_to_string}
use tau_shell.Db.Model.{Engine, Sql, Block}
use tau_shell.Db.Messages.{db_update_message_status}
use tau_shell.Db.Chains.{
  insert_tx_sql, insert_block_sql, delete_tx_sql, delete_block_sql, update_community_sql,
  db_add_new_transaction, db_add_new_block, db_delete_transaction, db_delete_block,
  db_update_community_status, community_status_sql,
}
use tau_shell.Alerts.{
  Alert, dispatch, dispatch_all, alert_on_new_tail_block, alert_on_new_consensus_point_block,
  alert_on_new_head_block, alert_on_rollback_block, alert_on_confirmation_root,
  alert_on_syncing_message, alert_on_session_stats, alert_on_new_device_id, alert_on_friend_info,
}

-- The state with statements behind those that were run.
abbrev pub ran : List Bytes → Sql → Sql
ran sqls s = record s { statements = s.statements ++ sqls }

abbrev pub IsSilent : Alert → Type 0
IsSilent (Alert.new_message msg) = ⊥
IsSilent (Alert.last_seen peer time) = ⊥
IsSilent (Alert.new_head_block blk) = ⊥
IsSilent (Alert.new_tail_block blk) = ⊥
IsSilent (Alert.new_consensus_point_block blk) = ⊥
IsSilent (Alert.rollback_block blk) = ⊥
IsSilent _ = Unit

abbrev pub AllSilent : List Alert → Type 0
AllSilent [] = Unit
AllSilent (a ∷ rest) = IsSilent a × AllSilent rest

module _ (p : Platform) (e : Engine) where
  db_update_community_status-ok :
      (blk : Block) (type : _) (s : Sql) {chain_id : Bytes}
      → bytes_chain_id_to_string p blk.chain_id ≡ ok chain_id
      → db_update_community_status p e blk type s
        ≡ ok (
          e.exec_ok s.statements (community_status_sql p e blk type chain_id),
          ran (community_status_sql p e blk type chain_id ∷ []) s,
        )
  unfolding db_update_community_status
  db_update_community_status-ok blk type s printed = rw printed

  -- A new tail block is written to the columns of the consensus block, and a new consensus block to
  -- those of the tail block.
  pub dispatch-tail_and_consensus :
      (blk : Block) (s : Sql) {chain_id : Bytes}
      → bytes_chain_id_to_string p blk.chain_id ≡ ok chain_id
      → (dispatch p e (Alert.new_tail_block blk) s
          ≡ ok (
            tt,
            ran
                (update_community_sql p e
                    (codes "consensusBlock")
                    (codes "consensusBlockHash")
                    blk
                    chain_id
                  ∷ [])
                s,
          ))
        × (dispatch p e (Alert.new_consensus_point_block blk) s
            ≡ ok (
              tt,
              ran
                  (update_community_sql p e (codes "tailBlock") (codes "tailBlockHash") blk chain_id
                    ∷ [])
                  s,
            ))
  unfolding dispatch alert_on_new_tail_block alert_on_new_consensus_point_block community_status_sql
  dispatch-tail_and_consensus blk s printed = (
    resume-ok _ (db_update_community_status-ok blk 2 s printed),
    resume-ok _ (db_update_community_status-ok blk 1 s printed),
  )

  -- A rolled back block takes its transaction with it: both rows are deleted, the transaction's first,
  -- whatever the database answers.
  pub dispatch-rollback_block :
      (blk : Block) (s : Sql)
      → dispatch p e (Alert.rollback_block blk) s
        ≡ ok (tt, ran (delete_tx_sql p e blk.tx ∷ delete_block_sql p e blk ∷ []) s)
  unfolding dispatch alert_on_rollback_block db_delete_block db_delete_transaction
  dispatch-rollback_block blk s = rw (append_assoc s.statements (delete_tx_sql p e blk.tx ∷ []))

  db_add_new_transaction-ok :
      (blk : Block) (s : Sql) {chain_id : Bytes}
      → 1 ≤ length blk.tx.chain_id
      → bytes_chain_id_to_string p blk.tx.chain_id ≡ ok chain_id
      → let sql = insert_tx_sql p e blk.tx chain_id (pos 1) blk.block_number in
        db_add_new_transaction p e blk.tx (pos 1) blk.block_number s
        ≡ ok (e.exec_ok s.statements sql, ran (sql ∷ []) s)
  unfolding db_add_new_transaction
  db_add_new_transaction-ok blk s some_id printed =
      let e : (length blk.tx.chain_id == 0) ≡ false = ground arith in rw e (rw printed)

  db_add_new_block-ok :
      (blk : Block) (s : Sql) {chain_id tx_chain_id : Bytes}
      → bytes_chain_id_to_string p blk.chain_id ≡ ok chain_id
      → 1 ≤ length blk.tx.chain_id
      → bytes_chain_id_to_string p blk.tx.chain_id ≡ ok tx_chain_id
      → let tx_sql = insert_tx_sql p e blk.tx tx_chain_id (pos 1) blk.block_number in
        let sql = insert_block_sql p e blk chain_id in
        db_add_new_block p e blk s
        ≡ ok (e.exec_ok (s.statements ++ tx_sql ∷ []) sql, ran (tx_sql ∷ sql ∷ []) s)
  unfolding db_add_new_block
  db_add_new_block-ok blk s printed some_id tx_printed = rw printed (
      resume-ok _ (db_add_new_transaction-ok blk s some_id tx_printed)
      ∙ rw (append_assoc s.statements (insert_tx_sql p e blk.tx _ (pos 1) blk.block_number ∷ [])))

  -- A new head block whose transaction has a chain id, and whose own chain id and that of its
  -- transaction can be printed, is stored with its transaction and becomes the head of its chain:
  -- three statements in this order, none of which waits for the success of another.
  pub dispatch-new_head_block :
      (blk : Block) (s : Sql) {chain_id tx_chain_id : Bytes}
      → bytes_chain_id_to_string p blk.chain_id ≡ ok chain_id
      → 1 ≤ length blk.tx.chain_id
      → bytes_chain_id_to_string p blk.tx.chain_id ≡ ok tx_chain_id
      → dispatch p e (Alert.new_head_block blk) s
        ≡ ok (
          tt,
          ran
              (insert_tx_sql p e blk.tx tx_chain_id (pos 1) blk.block_number
                ∷ insert_block_sql p e blk chain_id
                ∷ update_community_sql p e (codes "headBlock") (codes "headBlockHash") blk chain_id
                ∷ [])
              s,
        )
  unfolding dispatch alert_on_new_head_block community_status_sql
  dispatch-new_head_block blk s {chain_id} printed some_id tx_printed =
      let tx_sql = insert_tx_sql p e blk.tx _ (pos 1) blk.block_number in
      let added : db_add_new_block p e blk s
          ≡ ok (_, ran (tx_sql ∷ insert_block_sql p e blk chain_id ∷ []) s) =
        db_add_new_block-ok blk s printed some_id tx_printed in
      resume-ok _ added
      ∙ (resume-ok _ (
            db_update_community_status-ok blk 0
              (ran (tx_sql ∷ insert_block_sql p e blk chain_id ∷ []) s) printed)
          ∙ rw (append_assoc s.statements (tx_sql ∷ insert_block_sql p e blk chain_id ∷ [])))

  alert_on_confirmation_root-silent :
      (roots : List Bytes) (time : ℤ) (s : Sql)
      → alert_on_confirmation_root p e roots time s ≡ ok (tt, s)
  unfolding alert_on_confirmation_root db_update_message_status
  alert_on_confirmation_root-silent [] time s = refl
  alert_on_confirmation_root-silent (r ∷ roots) time s =
      alert_on_confirmation_root-silent roots time s

  dispatch-silent : (a : Alert) (s : Sql) → IsSilent a → dispatch p e a s ≡ ok (tt, s)
  unfolding dispatch alert_on_session_stats alert_on_new_device_id alert_on_friend_info
      alert_on_syncing_message db_update_message_status
  dispatch-silent Alert.session_stats s h = refl
  dispatch-silent Alert.log s h = refl
  dispatch-silent Alert.dht_log s h = refl
  dispatch-silent Alert.new_device_id s h = refl
  dispatch-silent (Alert.confirmation_root roots time) s h =
      alert_on_confirmation_root-silent roots time s
  dispatch-silent (Alert.syncing_message hash time) s h = refl
  dispatch-silent Alert.friend_info s h = refl
  dispatch-silent Alert.communication_log s h = refl
  dispatch-silent Alert.blockchain_log s h = refl
  dispatch-silent (Alert.new_transaction tx) s h = refl
  dispatch-silent Alert.fork_point_block s h = refl
  dispatch-silent Alert.top_three_votes s h = refl
  dispatch-silent Alert.other s h = refl
  dispatch-silent (Alert.new_message msg) s h = elim h [ ]
  dispatch-silent (Alert.last_seen peer time) s h = elim h [ ]
  dispatch-silent (Alert.new_head_block blk) s h = elim h [ ]
  dispatch-silent (Alert.new_tail_block blk) s h = elim h [ ]
  dispatch-silent (Alert.new_consensus_point_block blk) s h = elim h [ ]
  dispatch-silent (Alert.rollback_block blk) s h = elim h [ ]

  -- No queue of the other alerts touches the database: a confirmation or a sync of a message, whose
  -- status is not stored, a transaction outside a block, a fork point, votes, and those for the log.
  pub dispatch_all-silent :
      (queue : List Alert) (s : Sql) → AllSilent queue → dispatch_all p e queue s ≡ ok (tt, s)
  unfolding dispatch_all
  dispatch_all-silent [] s h = refl
  dispatch_all-silent (a ∷ rest) s (h, hs) =
      resume-ok _ (dispatch-silent a s h) ∙ dispatch_all-silent rest s hs

  -- Alerts are handled in the order of the queue, and a fault in one ends them all.
  pub dispatch_all-append :
      (queue more : List Alert) (s : Sql)
      → dispatch_all p e (queue ++ more) s ≡ (dispatch_all p e queue >> dispatch_all p e more) s
  unfolding dispatch_all
  dispatch_all-append [] more s = refl
  dispatch_all-append (a ∷ rest) more s =
      ap (λ k. resume (dispatch p e a s) (λ _. k)) (fun_ext (dispatch_all-append rest more))
      ∙ sym (
          resume_assoc (dispatch p e a s) (λ _. dispatch_all p e rest) (λ _. dispatch_all p e more))
