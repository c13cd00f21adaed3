-- ===== src/Alerts.antt =====
-- src/handler/alert_handler.cpp, and the switch of src/main.cpp that hands it the session's alerts.
pub mod Laws
pub mod Loop
use tau_shell.Prelude.{List, [], ◌∷◌, Bytes}
use tau_shell.Prelude.Int.{ℤ, pos, negsuc}
use tau_shell.Program.{Program, pure, ◌>>=◌, ◌>>◌}
use tau_shell.Hex.{Platform}
use tau_shell.Db.Model.{Engine, Sql, Message, Transaction, Block}
use tau_shell.Db.Friends.{db_update_friend_last_seen}
use tau_shell.Db.Messages.{db_add_new_message, db_update_message_status}
use tau_shell.Db.Chains.{
  db_add_new_transaction, db_add_new_block, db_delete_block, db_update_community_status,
}

-- libTAU's alerts, with the members that the handlers read. `other` is a type with no case.
pub data Alert : Type 0 where
  session_stats log dht_log new_device_id friend_info communication_log blockchain_log : Alert
  fork_point_block top_three_votes other : Alert
  new_message : Message → Alert
  confirmation_root : (confirmation_roots : List Bytes) → (time : ℤ) → Alert
  syncing_message : (syncing_msg_hash : Bytes) → (time : ℤ) → Alert
  last_seen : (peer : Bytes) → (time : ℤ) → Alert
  new_head_block new_tail_block new_consensus_point_block rollback_block : Block → Alert
  new_transaction : Transaction → Alert

abbrev pub DbHandler : Type 0
DbHandler = Program Sql (Unit {0})

-- A counter is printed to the log.
unfoldable pub alert_on_session_stats : DbHandler
alert_on_session_stats = pure tt

unfoldable pub alert_on_new_device_id : DbHandler
alert_on_new_device_id = pure tt

unfoldable pub alert_on_friend_info : DbHandler
alert_on_friend_info = pure tt

unfoldable pub alert_on_fork_point_block : DbHandler
alert_on_fork_point_block = pure tt

unfoldable pub alert_on_top_three_votes : DbHandler
alert_on_top_three_votes = pure tt

module _ (p : Platform) (e : Engine) where
  unfoldable pub alert_on_new_message : Message → DbHandler
  alert_on_new_message msg = do stored ← db_add_new_message p e msg (pos 1); pure tt

  unfoldable pub alert_on_confirmation_root : List Bytes → ℤ → DbHandler
  alert_on_confirmation_root [] time = pure tt
  alert_on_confirmation_root (msg_hash ∷ msg_hashes) time = do
    updated ← db_update_message_status p e msg_hash time (pos 2)
    alert_on_confirmation_root msg_hashes time

  unfoldable pub alert_on_syncing_message : Bytes → ℤ → DbHandler
  alert_on_syncing_message msg_hash time = do
    updated ← db_update_message_status p e msg_hash time (pos 1)
    pure tt

  unfoldable pub alert_on_last_seen : Bytes → ℤ → DbHandler
  alert_on_last_seen pubkey time = do updated ← db_update_friend_last_seen p e pubkey time; pure tt

  unfoldable pub alert_on_new_head_block : Block → DbHandler
  alert_on_new_head_block blk = do
    stored ← db_add_new_block p e blk
    updated ← db_update_community_status p e blk 0
    pure tt

  unfoldable pub alert_on_new_tail_block : Block → DbHandler
  alert_on_new_tail_block blk = do updated ← db_update_community_status p e blk 2; pure tt

  unfoldable pub alert_on_new_consensus_point_block : Block → DbHandler
  alert_on_new_consensus_point_block blk = do
    updated ← db_update_community_status p e blk 1
    pure tt

  -- The status and the block number are the defaults of the declaration. No alert gets here.
  unfoldable pub alert_on_new_transaction : Transaction → DbHandler
  alert_on_new_transaction tx = do
    stored ← db_add_new_transaction p e tx (negsuc 0) (negsuc 0)
    pure tt

  unfoldable pub alert_on_rollback_block : Block → DbHandler
  alert_on_rollback_block blk = do deleted ← db_delete_block p e blk; pure tt

  -- The switch of the main loop, in which three of the calls are commented out.
  unfoldable pub dispatch : Alert → DbHandler
  dispatch session_stats = alert_on_session_stats
  dispatch log = pure tt
  dispatch dht_log = pure tt
  dispatch new_device_id = alert_on_new_device_id
  dispatch (new_message msg) = alert_on_new_message msg
  dispatch (confirmation_root roots time) = alert_on_confirmation_root roots time
  dispatch (syncing_message hash time) = alert_on_syncing_message hash time
  dispatch friend_info = alert_on_friend_info
  dispatch (last_seen peer time) = alert_on_last_seen peer time
  dispatch communication_log = pure tt
  dispatch blockchain_log = pure tt
  dispatch (new_head_block blk) = alert_on_new_head_block blk
  dispatch (new_tail_block blk) = alert_on_new_tail_block blk
  dispatch (new_consensus_point_block blk) = alert_on_new_consensus_point_block blk
  dispatch (new_transaction tx) = pure tt
  dispatch (rollback_block blk) = alert_on_rollback_block blk
  dispatch fork_point_block = pure tt
  dispatch top_three_votes = pure tt
  dispatch other = pure tt

  unfoldable pub dispatch_all : List Alert → DbHandler
  dispatch_all [] = pure tt
  dispatch_all (i ∷ alert_queue) = do dispatch i; dispatch_all alert_queue
