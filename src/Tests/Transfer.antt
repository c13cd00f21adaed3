-- ===== src/Tests/Transfer.antt =====
-- A request to submit a transfer, of src/handler/tau_handler.cpp.
use tau_shell.Prelude.{refl, true, [], ◌∷◌, ◌++◌, Bytes, codes, take, drop, arith}
use tau_shell.Prelude.Int.{pos, negsuc}
use tau_shell.Text.{show_ℕ, show_ℤ}
use tau_shell.Json.{string, primitive}
use tau_shell.Json.Flat.{Entry, AllStand}
use tau_shell.Rpc.Args.Entries.{Request, Given, Ends, returned, tokens}
use tau_shell.Rpc.Transactions.{submit_transaction}
use tau_shell.Rpc.Transactions.Submit
use tau_shell.Rpc.Transactions.Submit.{submit_transaction_lem}
use tau_shell.Tests.Platform.{lawful, hex}
use tau_shell.Tests.Rpc.{env, world}
use tau_shell.Rpc.Args.Laws.{as_int}
use tau_shell.Tests.Entries.{chain, sender, receiver, transfer_bytes, Stands-take}

abbrev transfer_text : Bytes
transfer_text =
    codes "{\"chain_id\":\""
    ++ (hex (take 8 chain)
        ++ drop 8 chain
        ++ (codes "\",\"sender\":\""
            ++ (hex sender
                ++ (codes "\",\"receiver\":\""
                    ++ (hex receiver
                        ++ (codes "\",\"amount\":"
                            ++ (codes "100000000000"
                                ++ (codes ",\"fee\":"
                                    ++ (codes "-1"
                                        ++ (codes ",\"payload\":\""
                                            ++ (codes "hi" ++ (codes "\"}"))))))))))))

abbrev transfer_chain_id : Entry
transfer_chain_id = record {
  key_start = 2;
  key_end = 10;
  key = codes "chain_id";
  type = string;
  value_start = 13;
  value_end = 32;
  value = hex (take 8 chain) ++ drop 8 chain;
}

abbrev transfer_sender : Entry
transfer_sender = record {
  key_start = 35;
  key_end = 41;
  key = codes "sender";
  type = string;
  value_start = 44;
  value_end = 108;
  value = hex sender;
}

abbrev transfer_receiver : Entry
transfer_receiver = record {
  key_start = 111;
  key_end = 119;
  key = codes "receiver";
  type = string;
  value_start = 122;
  value_end = 186;
  value = hex receiver;
}

abbrev transfer_amount : Entry
transfer_amount = record {
  key_start = 189;
  key_end = 195;
  key = codes "amount";
  type = primitive;
  value_start = 197;
  value_end = 209;
  value = codes "100000000000";
}

abbrev transfer_fee : Entry
transfer_fee = record {
  key_start = 211;
  key_end = 214;
  key = codes "fee";
  type = primitive;
  value_start = 216;
  value_end = 218;
  value = codes "-1";
}

abbrev transfer_payload : Entry
transfer_payload = record {
  key_start = 220;
  key_end = 227;
  key = codes "payload";
  type = string;
  value_start = 230;
  value_end = 232;
  value = codes "hi";
}

abbrev transfer : Request
transfer = record {
  first = 0;
  last = 234;
  entries =
      transfer_chain_id ∷ transfer_sender ∷ transfer_receiver ∷ transfer_amount ∷ transfer_fee
      ∷ transfer_payload ∷ [];
  rest = [];
  bottom = 0;
  above = ground arith;
}

transfer_stand : AllStand (world transfer_text).buffer transfer.entries
transfer_stand = (
  Stands-take (world transfer_text).buffer 2 10 (codes "chain_id") b'"' refl refl refl
      (ground arith) refl,
  Stands-take (world transfer_text).buffer 13 32 (hex (take 8 chain) ++ drop 8 chain) b'"' refl refl
      refl (ground arith) refl,
  (
    Stands-take (world transfer_text).buffer 35 41 (codes "sender") b'"' refl refl refl
        (ground arith) refl,
    Stands-take (world transfer_text).buffer 44 108 (hex sender) b'"' refl refl refl (ground arith)
        refl,
    (
      Stands-take (world transfer_text).buffer 111 119 (codes "receiver") b'"' refl refl refl
          (ground arith) refl,
      Stands-take (world transfer_text).buffer 122 186 (hex receiver) b'"' refl refl refl
          (ground arith) refl,
      (
        Stands-take (world transfer_text).buffer 189 195 (codes "amount") b'"' refl refl refl
            (ground arith) refl,
        Stands-take (world transfer_text).buffer 197 209 (codes "100000000000") b',' refl refl refl
            (ground arith) refl,
        (
          Stands-take (world transfer_text).buffer 211 214 (codes "fee") b'"' refl refl refl
              (ground arith) refl,
          Stands-take (world transfer_text).buffer 216 218 (codes "-1") b',' refl refl refl
              (ground arith) refl,
          (
            Stands-take (world transfer_text).buffer 220 227 (codes "payload") b'"' refl refl refl
                (ground arith) refl,
            Stands-take (world transfer_text).buffer 230 232 (codes "hi") b'"' refl refl refl
                (ground arith) refl,
            tt,
          ),
        ),
      ),
    ),
  ),
)

transfer-chain_id-Given : Given transfer "chain_id" string (hex (take 8 chain) ++ drop 8 chain)
transfer-chain_id-Given = record { entry = transfer_chain_id; found = refl; has = refl }

transfer_sender-Given : Given transfer "sender" string (hex sender)
transfer_sender-Given = record { entry = transfer_sender; found = refl; has = refl }

transfer_receiver-Given : Given transfer "receiver" string (hex receiver)
transfer_receiver-Given = record { entry = transfer_receiver; found = refl; has = refl }

transfer_amount-Given : Given transfer "amount" primitive (show_ℤ (pos 100000000000))
unfolding show_ℤ show_ℕ
transfer_amount-Given = record { entry = transfer_amount; found = refl; has = refl }

transfer_fee-Given : Given transfer "fee" primitive (show_ℤ (negsuc 0))
unfolding show_ℤ show_ℕ
transfer_fee-Given = record { entry = transfer_fee; found = refl; has = refl }

transfer_payload-Given : Given transfer "payload" string (codes "hi")
transfer_payload-Given = record { entry = transfer_payload; found = refl; has = refl }

-- An amount that 32 bits do not hold, and a fee of -1, which asks for the median.
submit_transaction_lem_example :
    Ends (submit_transaction env (tokens transfer)) (world transfer_text) (
      returned (
        Submit.done env
          (world transfer_text)
          chain
          sender
          receiver
          (as_int (pos 100000000000))
          (as_int (negsuc 0))
          transfer_bytes))
submit_transaction_lem_example =
    submit_transaction_lem env lawful transfer (world transfer_text) chain sender receiver
      (pos 100000000000) (negsuc 0) transfer_bytes (codes "hi") transfer_stand
      transfer-chain_id-Given transfer_sender-Given transfer_receiver-Given transfer_amount-Given
      transfer_fee-Given transfer_payload-Given (ground arith) (omega arith) (ground arith) refl
      (ground arith) refl (true, refl)
