-- ===== src/Rpc/Communities.antt =====
-- The handlers of src/handler/tau_handler.cpp for chains and their peers.
pub mod Laws
use tau_shell.Prelude.{ℕ, zero, suc, ◌+◌, Option, List, [], Bytes, ◌++◌, codes}
use tau_shell.Prelude.Int.{pos}
use tau_shell.Program.{Program, pure, lift, ◌>>=◌, ◌>>◌}
use tau_shell.Text.{show_ℤ, to_int32}
use tau_shell.Json.{Tokens, string, array}
use tau_shell.Hex.{bytes_chain_id_to_string}
use tau_shell.Db.Chains.{db_follow_chain, db_unfollow_chain}
use tau_shell.Rpc.Session
use tau_shell.Rpc.Session.{Env, World, Account, Call, call, ask, print, with_db}
use tau_shell.Rpc.Args.{
  key, need, terminate, text_at, span_at, string_chain_id_at, hex_chain_id_at, emplace, peer_at,
  peers_at,
}
use tau_shell.Rpc.Service.{Handler}

module _ (env : Env) where
  unfoldable pub create_chain_id : Option Tokens → Handler
  create_chain_id args = do
    c ← key args string "community_name"
    c' ← need c
    terminate c'
    community_name ← span_at c'
    chain_id ←
        ask (Session.create_chain_id (codes "0000") community_name)
          (λ calls. env.answers.chain_id calls (codes "0000") community_name)
    text ← lift (bytes_chain_id_to_string env.platform chain_id)
    print (codes "{\"chainID\": \"" ++ (text ++ codes "\"}"))

  -- Each peer starts with the same balance. The time is asked for and not used.
  unfoldable pub accounts_loop :
      ℕ → ℕ → Option Tokens → List Bytes → List Account → Program World (List Bytes × List Account)
  accounts_loop zero i args peer_list accounts = pure (peer_list, accounts)
  accounts_loop (suc left) i args peer_list accounts = do
    pubkey ← peer_at env i args
    time_stamp ← ask Session.get_session_time env.answers.session_time
    accounts_loop left (i + 1) args (emplace env.key_lt pubkey peer_list) (
        emplace env.account_lt (record { peer = pubkey; balance = pos 100000000000; nonce = pos 0 })
          accounts)

  unfoldable pub create_new_community : Option Tokens → Handler
  create_new_community args = do
    c ← key args string "chain_id"
    ks ← key args array "peers"
    c' ← need c
    chain_id ← hex_chain_id_at env c'
    ks' ← need ks
    (peer_list, accounts) ← accounts_loop ks'.size 0 args [] []
    call (Session.create_new_community chain_id accounts)
    chain_id_str ← text_at c'
    stored ← with_db (db_follow_chain env.platform env.engine chain_id_str peer_list)
    print (codes "{\"result\": \"success\"}")

  unfoldable pub add_new_bootstrap_peers : Option Tokens → Handler
  add_new_bootstrap_peers args = do
    c ← key args string "chain_id"
    ks ← key args array "peers"
    c' ← need c
    chain_id ← string_chain_id_at env c'
    ks' ← need ks
    peer_list ← peers_at env ks' args
    call (Session.add_new_bootstrap_peers chain_id peer_list)
    print (codes "{\"result\": \"success\"}")

  unfoldable pub follow_chain : Option Tokens → Handler
  follow_chain args = do
    c ← key args string "chain_id"
    ks ← key args array "peers"
    ks' ← need ks
    peer_list ← peers_at env ks' args
    c' ← need c
    terminate c'
    chain_id_hex_str ← text_at c'
    chain_id ← hex_chain_id_at env c'
    call (Session.follow_chain chain_id peer_list)
    stored ← with_db (db_follow_chain env.platform env.engine chain_id_hex_str peer_list)
    print (codes "{\"Follow Chain Id\": " ++ (chain_id_hex_str ++ codes " \"OK\"}"))

  unfoldable pub follow_chain_mobile : Option Tokens → Handler
  follow_chain_mobile args = do
    c ← key args string "chain_id"
    ks ← key args array "peers"
    ks' ← need ks
    peer_list ← peers_at env ks' args
    c' ← need c
    chain_id ← string_chain_id_at env c'
    call (Session.follow_chain chain_id peer_list)
    chain_id_str ← text_at c'
    stored ← with_db (db_follow_chain env.platform env.engine chain_id_str peer_list)
    print (codes "{\"Follow Chain Id\": " ++ (chain_id_str ++ codes " \"OK\"}"))

  unfoldable pub unfollow_chain : Option Tokens → Handler
  unfollow_chain args = do
    c ← key args string "chain_id"
    c' ← need c
    terminate c'
    chain_id_hex_str ← text_at c'
    chain_id ← hex_chain_id_at env c'
    call (Session.unfollow_chain chain_id)
    deleted ← with_db (db_unfollow_chain env.platform env.engine chain_id_hex_str)
    print (codes "{\"Unfollow Chain Id\": " ++ (chain_id_hex_str ++ codes " \"OK\"}"))

  unfoldable pub unfollow_chain_mobile : Option Tokens → Handler
  unfollow_chain_mobile args = do
    c ← key args string "chain_id"
    c' ← need c
    chain_id ← string_chain_id_at env c'
    call (Session.unfollow_chain chain_id)
    chain_id_str ← text_at c'
    deleted ← with_db (db_unfollow_chain env.platform env.engine chain_id_str)
    print (codes "{\"Unfollow Chain Id\": " ++ (chain_id_str ++ codes " \"OK\"}"))

  unfoldable pub start_chain : Option Tokens → Handler
  start_chain args = do
    c ← key args string "chain_id"
    c' ← need c
    terminate c'
    chain_id_hex ← text_at c'
    chain_id ← hex_chain_id_at env c'
    call (Session.start_chain chain_id)
    print (codes "{\"Start Chain Id\": " ++ (chain_id_hex ++ codes " \"OK\"}"))

  unfoldable pub put_all_chain_data : Option Tokens → Handler
  put_all_chain_data args = do
    c ← key args string "chain_id"
    c' ← need c
    terminate c'
    chain_id_hex ← text_at c'
    chain_id ← hex_chain_id_at env c'
    call (Session.put_all_chain_data chain_id)
    print (codes "{\"Put Data Chain Id\": " ++ (chain_id_hex ++ codes " \"OK\"}"))

  unfoldable pub get_access_list : Option Tokens → Handler
  get_access_list args = do
    c ← key args string "chain_id"
    c' ← need c
    terminate c'
    chain_id_hex ← text_at c'
    chain_id ← hex_chain_id_at env c'
    call (Session.get_access_list chain_id)
    print (codes "{\"Get access list Chain Id\": " ++ (chain_id_hex ++ codes " \"OK\"}"))

  unfoldable pub get_ban_list : Option Tokens → Handler
  get_ban_list args = do
    c ← key args string "chain_id"
    c' ← need c
    terminate c'
    chain_id_hex ← text_at c'
    chain_id ← hex_chain_id_at env c'
    call (Session.get_ban_list chain_id)
    print (codes "{\"Get ban list Chain Id\": " ++ (chain_id_hex ++ codes " \"OK\"}"))

  unfoldable pub get_mining_time : Option Tokens → Handler
  get_mining_time args = do
    c ← key args string "chain_id"
    c' ← need c
    terminate c'
    chain_id_hex ← text_at c'
    chain_id ← hex_chain_id_at env c'
    time_left ←
        ask (Session.get_mining_time chain_id) (λ calls. env.answers.mining_time calls chain_id)
    print (
        codes "{\"Get mining time Chain Id\": "
        ++ (chain_id_hex
            ++ (codes " , time left " ++ (show_ℤ (to_int32 time_left) ++ codes "s \"OK\"}"))))
