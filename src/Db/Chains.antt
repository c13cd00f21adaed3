-- ===== src/Db/Chains.antt =====
-- The chains, transactions and blocks of src/util/db_util.cpp.
pub mod Laws
use tau_shell.Prelude.{
  ℕ, Bool, true, false, not, List, [], ◌∷◌, Bytes, codes, ◌++◌, length, ◌==◌, if◌then◌else◌,
}
use tau_shell.Prelude.Int.{ℤ, pos, negsuc}
use tau_shell.Program.{Program, pure, lift, ◌>>=◌, ◌>>◌}
use tau_shell.Text.{show_ℤ, show_ℕ}
use tau_shell.Hex.{Platform, bytes_chain_id_to_string}
use tau_shell.Db.Model.{Engine, Sql, exec, quote, Transaction, Block}

module _ (p : Platform) (e : Engine) where
  unfoldable pub insert_community_sql : Bytes → Bytes
  insert_community_sql chain_id =
      codes
        "INSERT INTO Communities(chainID, communityName, headBlock, tailBlock, consensusBlock) VALUES( "
      ++ (quote chain_id ++ codes ", \"TAU_SHELL_CHAIN\", 0, 0, 0)")

  unfoldable pub insert_member_sql : Bytes → Bytes → Bytes
  insert_member_sql chain_id peer =
      codes "INSERT INTO Members VALUES("
      ++ (quote chain_id ++ (codes ", " ++ (quote (p.to_hex peer) ++ codes ", 0, 0, 0, 0)")))

  -- An insert that fails is printed, and the next peer follows.
  unfoldable pub insert_members : Bytes → List Bytes → Program Sql (Unit {0})
  insert_members chain_id [] = pure tt
  insert_members chain_id (peer ∷ peers) = do
    done ← exec e (insert_member_sql chain_id peer)
    insert_members chain_id peers

  -- `peers` in the order of the set
  unfoldable pub db_follow_chain : Bytes → List Bytes → Program Sql Bool
  db_follow_chain chain_id peers = do
    stored ← exec e (insert_community_sql chain_id)
    if not stored then pure false else do insert_members chain_id peers; pure true

  unfoldable pub delete_community_sql : Bytes → Bytes
  delete_community_sql chain_id = codes "DELETE FROM Communities WHERE chainID=" ++ quote chain_id

  unfoldable pub delete_members_sql : Bytes → Bytes
  delete_members_sql chain_id = codes "DELETE FROM Members WHERE chainID=" ++ quote chain_id

  unfoldable pub db_unfollow_chain : Bytes → Program Sql Bool
  db_unfollow_chain chain_id = do
    deleted ← exec e (delete_community_sql chain_id)
    if not deleted then pure false else do done ← exec e (delete_members_sql chain_id); pure true

  unfoldable pub insert_tx_sql : Transaction → Bytes → ℤ → ℤ → Bytes
  insert_tx_sql tx chain_id status block_number =
      codes "INSERT INTO Txs VALUES("
      ++ (quote (p.to_hex tx.sha1)
          ++ (codes ", "
              ++ (quote chain_id
                  ++ (codes ", "
                      ++ (quote (p.to_hex tx.sender)
                          ++ (codes ", "
                              ++ (show_ℤ tx.fee
                                  ++ (codes ", "
                                      ++ (show_ℤ tx.timestamp
                                          ++ (codes ", "
                                              ++ (show_ℤ tx.nonce
                                                  ++ (codes ", "
                                                      ++ (show_ℤ tx.type
                                                          ++ (codes ", "
                                                            ++ (quote (p.to_hex tx.payload)
                                                            ++ (codes ", "
                                                            ++ (show_ℤ status
                                                            ++ (codes ", "
                                                            ++ (show_ℤ block_number
                                                            ++ (codes ", "
                                                            ++ (quote (p.to_hex tx.receiver)
                                                            ++ (codes ", "
                                                            ++ (show_ℤ tx.amount
                                                            ++ codes
                                                            ", 0, \"TAU\", \"TAU\", \"TAU\")")))))))))))))))))))))))

  unfoldable pub db_add_new_transaction : Transaction → ℤ → ℤ → Program Sql Bool
  db_add_new_transaction tx status block_number = if length tx.chain_id == 0 then pure false else do
    chain_id ← lift (bytes_chain_id_to_string p tx.chain_id)
    exec e (insert_tx_sql tx chain_id status block_number)

  unfoldable pub insert_block_sql : Block → Bytes → Bytes
  insert_block_sql blk chain_id =
      codes "INSERT INTO Blocks VALUES("
      ++ (quote chain_id
          ++ (codes ", "
              ++ (quote (p.to_hex blk.sha1)
                  ++ (codes ", "
                      ++ (show_ℤ blk.block_number
                          ++ (codes ", "
                              ++ (quote (p.to_hex blk.miner)
                                  ++ (codes ", "
                                      ++ (show_ℤ blk.tx.fee
                                          ++ (codes ", "
                                              ++ (show_ℕ blk.cumulative_difficulty
                                                  ++ codes ", 0)")))))))))))

  -- Whether the transaction was stored is not looked at.
  unfoldable pub db_add_new_block : Block → Program Sql Bool
  db_add_new_block blk = do
    chain_id ← lift (bytes_chain_id_to_string p blk.chain_id)
    stored ← db_add_new_transaction blk.tx (pos 1) blk.block_number
    exec e (insert_block_sql blk chain_id)

  unfoldable pub delete_tx_sql : Transaction → Bytes
  delete_tx_sql tx = codes "DELETE FROM Txs Where txID=" ++ quote (p.to_hex tx.sha1)

  unfoldable pub db_delete_transaction : Transaction → Program Sql Bool
  db_delete_transaction tx = exec e (delete_tx_sql tx)

  unfoldable pub delete_block_sql : Block → Bytes
  delete_block_sql blk = codes "DELETE FROM Blocks Where blockHash=" ++ quote (p.to_hex blk.sha1)

  unfoldable pub db_delete_block : Block → Program Sql Bool
  db_delete_block blk = do deleted ← db_delete_transaction blk.tx; exec e (delete_block_sql blk)

  unfoldable pub update_community_sql : Bytes → Bytes → Block → Bytes → Bytes
  update_community_sql column hash_column blk chain_id =
      codes "UPDATE Communities SET "
      ++ (column
          ++ (codes " = "
              ++ (show_ℤ blk.block_number
                  ++ (codes ", "
                      ++ (hash_column
                          ++ (codes "="
                              ++ (quote (p.to_hex blk.sha1)
                                  ++ (codes " WHERE chainID=" ++ quote chain_id))))))))

  -- The statement that the type of a block selects.
  unfoldable pub community_status_sql : Block → ℕ → Bytes → Bytes
  community_status_sql blk type chain_id =
      if type == 0
      then update_community_sql (codes "headBlock") (codes "headBlockHash") blk chain_id
      else if type == 1
      then update_community_sql (codes "tailBlock") (codes "tailBlockHash") blk chain_id
      else update_community_sql (codes "consensusBlock") (codes "consensusBlockHash") blk chain_id

  unfoldable pub db_update_community_status : Block → ℕ → Program Sql Bool
  db_update_community_status blk type = do
    chain_id ← lift (bytes_chain_id_to_string p blk.chain_id)
    exec e (community_status_sql blk type chain_id)
