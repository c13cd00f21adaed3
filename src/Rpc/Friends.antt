-- ===== src/Rpc/Friends.antt =====
-- The handlers of src/handler/tau_handler.cpp for friends.
pub mod Laws
use tau_shell.Prelude.{Option, Bytes, ◌++◌, codes}
use tau_shell.Program.{Program, pure, ◌>>=◌, ◌>>◌}
use tau_shell.Json.{Tokens, string}
use tau_shell.Db.Friends.{db_add_new_friend, db_delete_friend}
use tau_shell.Rpc.Session
use tau_shell.Rpc.Session.{Env, World, call, print, with_db}
use tau_shell.Rpc.Args.{key, need, text_at, pubkey_at}
use tau_shell.Rpc.Service.{Handler}

module _ (env : Env) where
  -- The session is told first, and the answer of the database is not looked at.
  unfoldable pub add_new_friend : Option Tokens → Handler
  add_new_friend args = do
    f ← key args string "friend"
    t ← need f
    friend_pubkey ← pubkey_at env t
    call (Session.add_new_friend friend_pubkey)
    friend_pubkey_hex ← text_at t
    stored ← with_db (db_add_new_friend env.platform env.engine friend_pubkey_hex)
    print (codes "{ \"result\": \"Add New Friend\": " ++ (friend_pubkey_hex ++ codes " \"OK\"}"))

  unfoldable pub delete_friend : Option Tokens → Handler
  delete_friend args = do
    f ← key args string "friend"
    t ← need f
    friend_pubkey ← pubkey_at env t
    call (Session.delete_friend friend_pubkey)
    deleted ← with_db (db_delete_friend env.platform env.engine friend_pubkey)
    friend_pubkey_hex ← text_at t
    print (codes "{ \"result\": \"Delete Friend\": " ++ (friend_pubkey_hex ++ codes " \"OK\"}"))

unfoldable pub get_friend_info : Option Tokens → Handler
get_friend_info args = pure tt

unfoldable pub update_friend_info : Option Tokens → Handler
update_friend_info args = pure tt
