-- ===== src/Db/Friends.antt =====
-- The friends of src/util/db_util.cpp.
use tau_shell.Prelude.{Bool, true, Bytes, codes, ◌++◌}
use tau_shell.Prelude.Int.{ℤ}
use tau_shell.Program.{Program, pure}
use tau_shell.Text.{show_ℤ}
use tau_shell.Hex.{Platform}
use tau_shell.Db.Model.{Engine, Sql, exec, quote}

module _ (p : Platform) (e : Engine) where
  unfoldable pub insert_friend_sql : Bytes → Bytes
  insert_friend_sql f =
      codes "INSERT INTO Friends VALUES("
      ++ (quote f ++ (codes ", " ++ (quote f ++ codes ", -1, -1, -1, -1, -1)")))

  unfoldable pub db_add_new_friend : Bytes → Program Sql Bool
  db_add_new_friend f = exec e (insert_friend_sql f)

  -- nothing is deleted
  unfoldable pub db_delete_friend : Bytes → Program Sql Bool
  db_delete_friend f = pure true

  unfoldable pub update_friend_sql : Bytes → Bytes → ℤ → Bytes
  update_friend_sql column pubkey time =
      codes "UPDATE Friends SET "
      ++ (column
          ++ (codes " = "
              ++ (show_ℤ time ++ (codes " WHERE friendPK = " ++ quote (p.to_hex pubkey)))))

  unfoldable pub db_update_friend_last_seen : Bytes → ℤ → Program Sql Bool
  db_update_friend_last_seen pubkey time =
      exec e (update_friend_sql (codes "lastSeenTime") pubkey time)

  unfoldable pub db_update_friend_last_comm : Bytes → ℤ → Program Sql Bool
  db_update_friend_last_comm pubkey time =
      exec e (update_friend_sql (codes "lastCommTime") pubkey time)

  unfoldable pub db_insert_friend_info : Program Sql Bool
  db_insert_friend_info = pure true

  unfoldable pub db_update_friend_info : Program Sql Bool
  db_update_friend_info = pure true
