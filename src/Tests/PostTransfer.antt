-- ===== src/Tests/PostTransfer.antt =====
-- A transfer posted to handle_http of src/handler/tau_handler.cpp.
use tau_shell.Prelude.{ℕ, ◌≡◌, refl, true, some, [], ◌∷◌, ◌++◌, codes, length, take, drop, arith}
use tau_shell.Prelude.Int.{pos, negsuc}
use tau_shell.Fault.{ok}
use tau_shell.Text.{parse_number, clamp_int64, to_int32, show_ℕ, show_ℤ}
use tau_shell.Json.{string, primitive}
use tau_shell.Json.Skip.{flatten}
use tau_shell.Json.Flat.{AllStand}
use tau_shell.Auth.{full_permissions}
use tau_shell.Rpc.Args.Laws.{as_int}
use tau_shell.Rpc.Args.Entries.{Given}
use tau_shell.Rpc.Transactions.Submit.{done}
use tau_shell.Rpc.Dispatch.Envelope.{IsWellFormed, IsApart, Intact, request_tokens}
use tau_shell.Http.{Request, Service, post_body, header_int, read_body, success_header, handle_http}
use tau_shell.Http.Laws.{perms_of}
use tau_shell.Http.Transfer.{arrived, handle_http-transfer}
use tau_shell.Tests.Platform.{lawful, hex}
use tau_shell.Tests.Auth.{header_example}
use tau_shell.Tests.Http.{service, server, request, one_user, full_user}
use tau_shell.Tests.Entries.{
  chain, sender, receiver, transfer_bytes, Stands-take, apart_test, apart_test-IsApart,
}
use tau_shell.Tests.Posted.{
  text, body, chain_id_entry, sender_entry, receiver_entry, amount_entry, fee_entry, payload_entry,
  arguments, posted,
}

apart : (e : ℕ) → apart_test posted e ≡ true → IsApart posted e
apart e h = apart_test-IsApart posted e h

posted-IsWellFormed : IsWellFormed posted
unfolding flatten show_ℤ show_ℕ
posted-IsWellFormed = record {
  more = _;
  finds_method = refl;
  finds_tag = refl;
  finds_arguments = refl;
  keys_apart = (apart 8 refl, (apart 41 refl, tt));
  method_apart = apart 29 refl;
  arguments_apart = apart 277 refl;
}

arguments_stand : AllStand body arguments.entries
arguments_stand = (
  Stands-take body 45 53 (codes "chain_id") b'"' refl refl refl (ground arith) refl,
  Stands-take body 56 75 (hex (take 8 chain) ++ drop 8 chain) b'"' refl refl refl (ground arith)
      refl,
  (
    Stands-take body 78 84 (codes "sender") b'"' refl refl refl (ground arith) refl,
    Stands-take body 87 151 (hex sender) b'"' refl refl refl (ground arith) refl,
    (
      Stands-take body 154 162 (codes "receiver") b'"' refl refl refl (ground arith) refl,
      Stands-take body 165 229 (hex receiver) b'"' refl refl refl (ground arith) refl,
      (
        Stands-take body 232 238 (codes "amount") b'"' refl refl refl (ground arith) refl,
        Stands-take body 240 252 (codes "100000000000") b',' refl refl refl (ground arith) refl,
        (
          Stands-take body 254 257 (codes "fee") b'"' refl refl refl (ground arith) refl,
          Stands-take body 259 261 (codes "-1") b',' refl refl refl (ground arith) refl,
          (
            Stands-take body 263 270 (codes "payload") b'"' refl refl refl (ground arith) refl,
            Stands-take body 273 275 (codes "hi") b'"' refl refl refl (ground arith) refl,
            tt,
          ),
        ),
      ),
    ),
  ),
)

posted-Intact : Intact posted body
posted-Intact = record {
  names = (
    (Stands-take body 2 8 (codes "method") b'"' refl refl refl (ground arith) refl).0,
    (omega arith, tt),
    (
      (Stands-take body 32 41 (codes "arguments") b'"' refl refl refl (ground arith) refl).0,
      tt,
      tt,
    ),
  );
  stand = (
    Stands-take body 2 8 (codes "method") b'"' refl refl refl (ground arith) refl,
    Stands-take body 11 29 (codes "submit-transaction") b'"' refl refl refl (ground arith) refl,
    arguments_stand,
  );
  fits = omega arith;
}

posted-chain_id-Given : Given arguments "chain_id" string (hex (take 8 chain) ++ drop 8 chain)
posted-chain_id-Given = record { entry = chain_id_entry; found = refl; has = refl }

posted-sender-Given : Given arguments "sender" string (hex sender)
posted-sender-Given = record { entry = sender_entry; found = refl; has = refl }

posted-receiver-Given : Given arguments "receiver" string (hex receiver)
posted-receiver-Given = record { entry = receiver_entry; found = refl; has = refl }

posted-amount-Given : Given arguments "amount" primitive (show_ℤ (pos 100000000000))
unfolding show_ℤ show_ℕ
posted-amount-Given = record { entry = amount_entry; found = refl; has = refl }

posted-fee-Given : Given arguments "fee" primitive (show_ℤ (negsuc 0))
unfolding show_ℤ show_ℕ
posted-fee-Given = record { entry = fee_entry; found = refl; has = refl }

posted-payload-Given : Given arguments "payload" string (codes "hi")
posted-payload-Given = record { entry = payload_entry; found = refl; has = refl }

abbrev transfer_service : Service
transfer_service = record service { jsmn_parse = λ text. (pos 0, request_tokens posted) }

abbrev post : Request
post = record request { content_length = some (codes "278"); body = text }

post_perms : perms_of transfer_service post ≡ ok (some full_permissions)
post_perms = rw (header_example (one_user (pos 0))) (rw full_user)

post_read : post_body post ≡ ok body
unfolding post_body header_int read_body parse_number clamp_int64 to_int32
post_read = refl

handle_http-transfer_example :
    let out =
      done transfer_service.env
        (arrived body server)
        chain
        sender
        receiver
        (as_int (pos 100000000000))
        (as_int (negsuc 0))
        transfer_bytes in
    handle_http transfer_service post server
    ≡ ok (
      true,
      record {
        sent = success_header (length out.response) ++ (out.response ++ 0 ∷ []);
        calls = out.calls;
        sql = server.sql;
      },
    )
handle_http-transfer_example =
    handle_http-transfer transfer_service lawful posted chain sender receiver (pos 100000000000)
      (negsuc 0) transfer_bytes (codes "hi") posted-IsWellFormed refl posted-chain_id-Given
      posted-sender-Given posted-receiver-Given posted-amount-Given posted-fee-Given
      posted-payload-Given (ground arith) (omega arith) (ground arith) refl (ground arith) refl
      (true, refl) post server refl post_perms post_read refl posted-Intact
