-- ===== src/Http/Transfer.antt =====
-- A transfer on its way through src/handler/tau_handler.cpp: from handle_http over handle_json_rpc and
-- submit_transaction to the session of libTAU, and the answer on its way back.
use tau_shell.Prelude.{
  ℕ, ◌≡◌, ◌≤◌, refl, ap, ◌∙◌, true, some, [], ◌∷◌, ◌++◌, Bytes, codes, length, take, drop,
}
use tau_shell.Prelude.Int.{ℤ, pos}
use tau_shell.Fault.{ok}
use tau_shell.Text.{show_ℤ}
use tau_shell.Json.{string, primitive}
use tau_shell.Auth.{Permissions}
use tau_shell.Hex.{IsLawful, AllBytes}
use tau_shell.Rpc.Session.{Env, World}
use tau_shell.Rpc.Args.Laws.{as_int}
use tau_shell.Rpc.Args.Entries.{Given, Ends, returned, with_buffer}
use tau_shell.Rpc.Transactions.{transfer_hex, submit_transaction}
use tau_shell.Rpc.Transactions.Submit.{IsDecoded, done, submit_transaction_lem}
use tau_shell.Rpc.Dispatch.{handlers, find_handler, handle_json_rpc}
use tau_shell.Rpc.Dispatch.Envelope.{
  Envelope, IsWellFormed, Intact, request_tokens, handle_json_rpc-Envelope,
}
use tau_shell.Http.{Request, Service, Server, post_body, success_header, handle_http}
use tau_shell.Http.Laws.{perms_of, handle_http-reply}

submit_transaction_found :
    (env : Env)
    → find_handler (codes "submit-transaction") (handlers env) ≡ some (submit_transaction env)
unfolding find_handler handlers
submit_transaction_found env = refl

-- The world in which a body of a request is read.
abbrev pub arrived : Bytes → Server → World
arrived body s = record { buffer = body; response = []; calls = s.calls; sql = s.sql }

module _ (service : Service) (lawful : IsLawful service.env.platform) (v : Envelope)
    (chain_id sender receiver : Bytes) (amount fee : ℤ) (payload given_payload : Bytes)
    (good : IsWellFormed v) (method : v.method.value ≡ codes "submit-transaction")
    (c : Given v.arguments "chain_id" string
      (service.env.platform.to_hex (take 8 chain_id) ++ drop 8 chain_id))
    (s : Given v.arguments "sender" string (service.env.platform.to_hex sender))
    (t : Given v.arguments "receiver" string (service.env.platform.to_hex receiver))
    (a : Given v.arguments "amount" primitive (show_ℤ amount))
    (f : Given v.arguments "fee" primitive (show_ℤ fee))
    (p : Given v.arguments "payload" string given_payload) (chain_bytes : AllBytes chain_id)
    (chain_size : 8 ≤ length chain_id) (sender_bytes : AllBytes sender)
    (sender_size : length sender ≡ 32) (receiver_bytes : AllBytes receiver)
    (receiver_size : length receiver ≡ 32)
    (decoded : IsDecoded service.env transfer_hex 44 22 payload) where
  json_rpc-transfer :
      (w : World)
      → Intact v w.buffer
      → Ends (handle_json_rpc service.env (request_tokens v)) w (
          returned
            (done service.env w chain_id sender receiver (as_int amount) (as_int fee) payload))
  json_rpc-transfer w h =
      let known : find_handler v.method.value (handlers service.env)
          ≡ some (submit_transaction service.env) =
        ap (λ m. find_handler m (handlers service.env)) method
        ∙ submit_transaction_found service.env in
      let (buf, stand, called) =
        handle_json_rpc-Envelope v good service.env w (submit_transaction service.env) h known in
      let (buf', submitted) =
        submit_transaction_lem service.env lawful v.arguments (with_buffer w buf) chain_id sender
          receiver amount fee payload given_payload stand c s t a f p chain_bytes chain_size
          sender_bytes sender_size receiver_bytes receiver_size decoded in
      (buf', called ∙ submitted)

  -- Let the tokens that jsmn_parse makes of the body of a POST to /rpc be those of a well-formed
  -- request that stands in it, with the method "submit-transaction", with a number as its "tag" or
  -- no primitive value of that name, and with arguments as submit_transaction asks for: the text of a chain
  -- id of at least eight bytes, a sender and a receiver of 32 bytes in hexadecimal, numbers
  -- "amount" and "fee" of any size, and a string "payload". If the user has an account, the
  -- request is answered by the header, the response and a NUL; response and calls are those of the
  -- one transfer, with amount and fee as atoi reads them, and no statement is run.
  pub handle_http-transfer :
      (req : Request) (server : Server) {perms : Permissions} {b : ℕ} {bs : Bytes}
      → req.uri ≡ codes "/rpc"
      → perms_of service req ≡ ok (some perms)
      → post_body req ≡ ok (b ∷ bs)
      → service.jsmn_parse (b ∷ bs) ≡ (pos 0, request_tokens v)
      → Intact v (b ∷ bs)
      → let out =
          done service.env
            (arrived (b ∷ bs) server)
            chain_id
            sender
            receiver
            (as_int amount)
            (as_int fee)
            payload in
        handle_http service req server
        ≡ ok (
          true,
          record {
            sent =
                server.sent ++ (success_header (length out.response) ++ (out.response ++ 0 ∷ []));
            calls = out.calls;
            sql = server.sql;
          },
        )
  handle_http-transfer req server {b = b} {bs = bs} here known body parsed intact =
      let (buf, replied) = json_rpc-transfer (arrived (b ∷ bs) server) intact in
      handle_http-reply service req server here known body parsed replied
