-- ===== src/Tests/Posted.antt =====
-- The text and the tokens of a request to submit a transfer, without a tag, for src/handler/tau_handler.cpp.
use tau_shell.Prelude.{none, [], ◌∷◌, ◌++◌, Bytes, codes, take, drop, arith}
use tau_shell.Prelude.Int.{pos}
use tau_shell.Json.{string, primitive, object}
use tau_shell.Json.Skip.{node}
use tau_shell.Json.Fields.{Field, members}
use tau_shell.Json.Flat.{Entry, field_of, fields_of}
use tau_shell.Rpc.Args.Entries
use tau_shell.Rpc.Args.Entries.{Given}
use tau_shell.Rpc.Dispatch.Envelope.{Envelope}
use tau_shell.Tests.Platform.{hex}
use tau_shell.Tests.Entries.{chain, sender, receiver}

abbrev pub text : Bytes
text =
    codes "{\"method\":\"submit-transaction\",\"arguments\":{\"chain_id\":\""
    ++ (hex (take 8 chain)
        ++ drop 8 chain
        ++ (codes "\",\"sender\":\""
            ++ (hex sender
                ++ (codes "\",\"receiver\":\""
                    ++ (hex receiver
                        ++ (codes "\",\"amount\":100000000000,\"fee\":-1,\"payload\":\"hi\"}}"))))))

abbrev pub body : Bytes
body = text ++ 0 ∷ []

abbrev pub method_entry : Entry
method_entry = record {
  key_start = 2;
  key_end = 8;
  key = codes "method";
  type = string;
  value_start = 11;
  value_end = 29;
  value = codes "submit-transaction";
}

abbrev pub chain_id_entry : Entry
chain_id_entry = record {
  key_start = 45;
  key_end = 53;
  key = codes "chain_id";
  type = string;
  value_start = 56;
  value_end = 75;
  value = hex (take 8 chain) ++ drop 8 chain;
}

abbrev pub sender_entry : Entry
sender_entry = record {
  key_start = 78;
  key_end = 84;
  key = codes "sender";
  type = string;
  value_start = 87;
  value_end = 151;
  value = hex sender;
}

abbrev pub receiver_entry : Entry
receiver_entry = record {
  key_start = 154;
  key_end = 162;
  key = codes "receiver";
  type = string;
  value_start = 165;
  value_end = 229;
  value = hex receiver;
}

abbrev pub amount_entry : Entry
amount_entry = record {
  key_start = 232;
  key_end = 238;
  key = codes "amount";
  type = primitive;
  value_start = 240;
  value_end = 252;
  value = codes "100000000000";
}

abbrev pub fee_entry : Entry
fee_entry = record {
  key_start = 254;
  key_end = 257;
  key = codes "fee";
  type = primitive;
  value_start = 259;
  value_end = 261;
  value = codes "-1";
}

abbrev pub payload_entry : Entry
payload_entry = record {
  key_start = 263;
  key_end = 270;
  key = codes "payload";
  type = string;
  value_start = 273;
  value_end = 275;
  value = codes "hi";
}

abbrev pub arguments : Entries.Request
arguments = record {
  first = 43;
  last = 277;
  entries =
      chain_id_entry ∷ sender_entry ∷ receiver_entry ∷ amount_entry ∷ fee_entry ∷ payload_entry
      ∷ [];
  rest = [];
  bottom = 43;
  above = ground arith;
}

abbrev pub arguments_field : Field
arguments_field = record {
  key_start = 32;
  key_end = 41;
  key = codes "arguments";
  value = node object (pos 43) (pos 277) (members (fields_of arguments.entries));
}

abbrev pub posted : Envelope
posted = record {
  start = pos 0;
  end = pos 278;
  fields = field_of method_entry ∷ arguments_field ∷ [];
  rest = [];
  method = method_entry;
  tag = none;
  arguments = arguments;
}
