-- ===== src/Db/Messages.antt =====
-- The messages of src/util/db_util.cpp.
use tau_shell.Prelude.{Bool, true, false, not, Bytes, codes, ◌++◌, if◌then◌else◌}
use tau_shell.Prelude.Int.{ℤ}
use tau_shell.Program.{Program, pure, ◌>>=◌}
use tau_shell.Text.{show_ℤ}
use tau_shell.Hex.{Platform}
use tau_shell.Db.Model.{Engine, Sql, exec, quote, Message}

module _ (p : Platform) (e : Engine) where
  unfoldable pub insert_message_sql : Message → Bytes
  insert_message_sql msg =
      codes "INSERT INTO ChatMessages VALUES("
      ++ (quote (p.to_hex msg.sha1)
          ++ (codes ", "
              ++ (quote (p.to_hex msg.sender)
                  ++ (codes ", "
                      ++ (quote (p.to_hex msg.receiver)
                          ++ (codes ", "
                              ++ (show_ℤ msg.timestamp
                                  ++ (codes ", 0, "
                                      ++ (quote (p.to_hex msg.sha1)
                                          ++ (codes ", 0, "
                                              ++ (quote msg.payload ++ codes ")")))))))))))

  unfoldable pub insert_message_log_sql : Message → ℤ → Bytes
  insert_message_log_sql msg status =
      codes "INSERT INTO ChatMsgLogs VALUES("
      ++ (quote (p.to_hex msg.sha1)
          ++ (codes ", " ++ (show_ℤ status ++ (codes ", " ++ (show_ℤ msg.timestamp ++ codes ")")))))

  unfoldable pub db_add_new_message : Message → ℤ → Program Sql Bool
  db_add_new_message msg status = do
    stored ← exec e (insert_message_sql msg)
    if not stored then pure false else exec e (insert_message_log_sql msg status)

  -- The update is commented out; only a line is printed.
  unfoldable pub db_update_message_status : Bytes → ℤ → ℤ → Program Sql Bool
  db_update_message_status msg_hash time status = pure true
