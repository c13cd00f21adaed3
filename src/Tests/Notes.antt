-- ===== src/Tests/Notes.antt =====
-- Requests to submit a note, of src/handler/tau_handler.cpp.
use tau_shell.Prelude.{refl, true, false, [], ◌∷◌, ◌++◌, Bytes, codes, take, drop, zeros, arith}
use tau_shell.Prelude.Int.{pos}
use tau_shell.Text.{show_ℕ, show_ℤ}
use tau_shell.Json.{string, primitive}
use tau_shell.Json.Flat.{Entry, AllStand}
use tau_shell.Rpc.Args.Entries.{Request, Given, Ends, returned, tokens}
use tau_shell.Rpc.Transactions.{submit_note_transaction}
use tau_shell.Rpc.Transactions.Notes
use tau_shell.Rpc.Transactions.Notes.{submit_note_transaction_lem}
use tau_shell.Tests.Platform.{lawful, hex}
use tau_shell.Tests.Rpc.{env, world}
use tau_shell.Tests.Entries.{chain, sender, Stands-take}

abbrev note_bytes : Bytes
note_bytes = 211 ∷ 1 ∷ 1 ∷ 144 ∷ codes "note transaction"

abbrev note_request_text : Bytes
note_request_text =
    codes "{\"chain_id\":\""
    ++ (hex (take 8 chain)
        ++ drop 8 chain
        ++ (codes "\",\"sender\":\""
            ++ (hex sender
                ++ (codes "\",\"fee\":"
                    ++ (codes "7" ++ (codes ",\"payload\":\"" ++ (codes "hi" ++ (codes "\"}"))))))))

abbrev note_request_chain_id : Entry
note_request_chain_id = record {
  key_start = 2;
  key_end = 10;
  key = codes "chain_id";
  type = string;
  value_start = 13;
  value_end = 32;
  value = hex (take 8 chain) ++ drop 8 chain;
}

abbrev note_request_sender : Entry
note_request_sender = record {
  key_start = 35;
  key_end = 41;
  key = codes "sender";
  type = string;
  value_start = 44;
  value_end = 108;
  value = hex sender;
}

abbrev note_request_fee : Entry
note_request_fee = record {
  key_start = 111;
  key_end = 114;
  key = codes "fee";
  type = primitive;
  value_start = 116;
  value_end = 117;
  value = codes "7";
}

abbrev note_request_payload : Entry
note_request_payload = record {
  key_start = 119;
  key_end = 126;
  key = codes "payload";
  type = string;
  value_start = 129;
  value_end = 131;
  value = codes "hi";
}

abbrev note_request : Request
note_request = record {
  first = 0;
  last = 133;
  entries =
      note_request_chain_id ∷ note_request_sender ∷ note_request_fee ∷ note_request_payload ∷ [];
  rest = [];
  bottom = 0;
  above = ground arith;
}

note_request_stand : AllStand (world note_request_text).buffer note_request.entries
note_request_stand = (
  Stands-take (world note_request_text).buffer 2 10 (codes "chain_id") b'"' refl refl refl
      (ground arith) refl,
  Stands-take (world note_request_text).buffer 13 32 (hex (take 8 chain) ++ drop 8 chain) b'"' refl
      refl refl (ground arith) refl,
  (
    Stands-take (world note_request_text).buffer 35 41 (codes "sender") b'"' refl refl refl
        (ground arith) refl,
    Stands-take (world note_request_text).buffer 44 108 (hex sender) b'"' refl refl refl
        (ground arith) refl,
    (
      Stands-take (world note_request_text).buffer 111 114 (codes "fee") b'"' refl refl refl
          (ground arith) refl,
      Stands-take (world note_request_text).buffer 116 117 (codes "7") b',' refl refl refl
          (ground arith) refl,
      (
        Stands-take (world note_request_text).buffer 119 126 (codes "payload") b'"' refl refl refl
            (ground arith) refl,
        Stands-take (world note_request_text).buffer 129 131 (codes "hi") b'"' refl refl refl
            (ground arith) refl,
        tt,
      ),
    ),
  ),
)

note_request-chain_id-Given :
    Given note_request "chain_id" string (hex (take 8 chain) ++ drop 8 chain)
note_request-chain_id-Given = record { entry = note_request_chain_id; found = refl; has = refl }

note_request_sender-Given : Given note_request "sender" string (hex sender)
note_request_sender-Given = record { entry = note_request_sender; found = refl; has = refl }

note_request_fee-Given : Given note_request "fee" primitive (show_ℤ (pos 7))
unfolding show_ℤ show_ℕ
note_request_fee-Given = record { entry = note_request_fee; found = refl; has = refl }

note_request_payload-Given : Given note_request "payload" string (codes "hi")
note_request_payload-Given = record { entry = note_request_payload; found = refl; has = refl }

-- The hash is decoded from 19 characters, since the text of the chain id has 19.
abbrev note_hash : Bytes
note_hash = take 9 note_bytes ++ zeros 11

submit_note_transaction_lem_example :
    Ends (submit_note_transaction env (tokens note_request)) (world note_request_text) (
      returned (Notes.done env (world note_request_text) chain sender (pos 7) note_hash note_bytes))
submit_note_transaction_lem_example =
    submit_note_transaction_lem env lawful note_request (world note_request_text) chain sender
      (pos 7) note_bytes (codes "hi") note_request_stand note_request-chain_id-Given
      note_request_sender-Given note_request_fee-Given note_request_payload-Given (ground arith)
      (omega arith) (ground arith) refl (omega arith) (true, refl) note_hash (false, refl)
