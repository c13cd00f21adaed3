-- ===== src/Tests/Alerts.antt =====
-- The alerts of src/handler/alert_handler.cpp and the main loop.
use tau_shell.Prelude.{◌≡◌, refl, [], ◌∷◌, codes, arith}
use tau_shell.Prelude.Int.{pos}
use tau_shell.Fault.{ok}
use tau_shell.Program.{pure, ◌>>◌}
use tau_shell.Memory.{slice, until_nul}
use tau_shell.Hex.{bytes_chain_id_to_string}
use tau_shell.Db.Chains.{insert_tx_sql, insert_block_sql, update_community_sql}
use tau_shell.Alerts
use tau_shell.Alerts.{dispatch, dispatch_all}
use tau_shell.Alerts.Laws.{ran, dispatch-tail_and_consensus, dispatch-new_head_block}
use tau_shell.Alerts.Loop.{Round, started, round_flags, main_loop, main_loop-signal}
use tau_shell.Tests.Platform.{platform}
use tau_shell.Tests.Db.{engine, empty_sql, chain_id, message, transaction, block}

printed : bytes_chain_id_to_string platform chain_id ≡ ok (codes "deadbeef00010203TAU")
unfolding bytes_chain_id_to_string slice until_nul
printed = refl

dispatch-tail_and_consensus_example :
    (dispatch platform engine (Alerts.Alert.new_tail_block block) empty_sql
      ≡ ok (
        tt,
        ran
            (update_community_sql platform engine
                (codes "consensusBlock")
                (codes "consensusBlockHash")
                block
                (codes "deadbeef00010203TAU")
              ∷ [])
            empty_sql,
      ))
    × (dispatch platform engine (Alerts.Alert.new_consensus_point_block block) empty_sql
        ≡ ok (
          tt,
          ran
              (update_community_sql platform engine
                  (codes "tailBlock")
                  (codes "tailBlockHash")
                  block
                  (codes "deadbeef00010203TAU")
                ∷ [])
              empty_sql,
        ))
dispatch-tail_and_consensus_example =
    dispatch-tail_and_consensus platform engine block empty_sql printed

dispatch-new_head_block_example :
    dispatch platform engine (Alerts.Alert.new_head_block block) empty_sql
    ≡ ok (
      tt,
      ran
          (insert_tx_sql platform engine transaction (codes "deadbeef00010203TAU") (pos 1) (pos 42)
            ∷ insert_block_sql platform engine block (codes "deadbeef00010203TAU")
            ∷ update_community_sql platform engine
                (codes "headBlock")
                (codes "headBlockHash")
                block
                (codes "deadbeef00010203TAU")
            ∷ [])
          empty_sql,
    )
dispatch-new_head_block_example =
    dispatch-new_head_block platform engine block empty_sql printed (omega arith) printed

abbrev calm : Round
calm = record {
  alert_queue = Alerts.Alert.new_head_block block ∷ [];
  signals = 0;
  late_signals = 0;
}

abbrev last_round : Round
last_round = record {
  alert_queue = Alerts.Alert.new_message message ∷ [];
  signals = 1;
  late_signals = 1;
}

main_loop-signal_example :
    main_loop platform engine (calm ∷ last_round ∷ calm ∷ []) started empty_sql
    ≡ (dispatch_all platform engine
            (Alerts.Alert.new_head_block block ∷ Alerts.Alert.new_message message ∷ [])
          >> pure (round_flags last_round))
        empty_sql
main_loop-signal_example =
    main_loop-signal platform engine (calm ∷ []) last_round (calm ∷ []) empty_sql (refl, refl, tt)
      (omega arith)
