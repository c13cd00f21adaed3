-- ===== src/Rpc/Messages.antt =====
-- The handlers of src/handler/tau_handler.cpp that send data to peers.
pub mod Laws
use tau_shell.Prelude.{Option, ◌++◌, codes}
use tau_shell.Program.{◌>>=◌, ◌>>◌}
use tau_shell.Text.{to_int8}
use tau_shell.Json.{Tokens, string, primitive}
use tau_shell.Rpc.Session
use tau_shell.Rpc.Session.{Env, World, call, ask, print}
use tau_shell.Rpc.Args.{key, need, terminate, text_at, span_at, int_at, pubkey_at}
use tau_shell.Rpc.Service.{Handler}

module _ (env : Env) where
  -- The message is not stored here, and the response stays empty.
  unfoldable pub add_new_message : Option Tokens → Handler
  add_new_message args = do
    s ← key args string "sender"
    r ← key args string "receiver"
    p ← key args string "payload"
    s' ← need s
    sender ← pubkey_at env s'
    r' ← need r
    receiver ← pubkey_at env r'
    p' ← need p
    payload ← span_at p'
    time_stamp ← ask Session.get_session_time env.answers.session_time
    call (Session.add_new_message time_stamp sender receiver payload)

  unfoldable pub subscribe_from_peer : Option Tokens → Handler
  subscribe_from_peer args = do
    p ← key args string "peer"
    d ← key args string "data"
    p' ← need p
    peer ← pubkey_at env p'
    d' ← need d
    bytes ← span_at d'
    call (Session.subscribe_from_peer peer bytes)
    peer_pubkey_hex ← text_at p'
    print (codes "{ \"result\": \"Subscribe form peer\": " ++ (peer_pubkey_hex ++ codes " \"OK\"}"))

  unfoldable pub send_to_peer : Option Tokens → Handler
  send_to_peer args = do
    p ← key args string "peer"
    d ← key args string "data"
    p' ← need p
    peer ← pubkey_at env p'
    d' ← need d
    bytes ← span_at d'
    call (Session.send_to_peer peer bytes)
    peer_pubkey_hex ← text_at p'
    print (codes "{ \"result\": \"Send to peer\": " ++ (peer_pubkey_hex ++ codes " \"OK\"}"))

  -- The numbers are cut to eight bits, and the response stays empty.
  unfoldable pub send_data : Option Tokens → Handler
  send_data args = do
    f ← key args string "receiver"
    p ← key args string "payload"
    a ← key args primitive "alpha"
    b ← key args primitive "beta"
    i ← key args primitive "invoke_limit"
    h ← key args primitive "hit_limit"
    f' ← need f
    receiver ← pubkey_at env f'
    p' ← need p
    terminate p'
    payload ← text_at p'
    a' ← need a
    alpha ← int_at a'
    b' ← need b
    beta ← int_at b'
    i' ← need i
    invoke_limit ← int_at i'
    h' ← need h
    hit_limit ← int_at h'
    call (
        Session.send receiver payload (to_int8 alpha) (to_int8 beta) (to_int8 invoke_limit)
          (to_int8 hit_limit))

unfoldable pub publish_data : Option Tokens → Handler
publish_data args = do
  k ← key args string "key"
  v ← key args string "value"
  k' ← need k
  key_bytes ← span_at k'
  v' ← need v
  value ← span_at v'
  call (Session.publish_data key_bytes value)
  print (codes "{ \"result\": \"Publish OK\"}\n")
