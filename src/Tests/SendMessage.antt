-- ===== src/Tests/SendMessage.antt =====
-- A request to send a message, of src/handler/tau_handler.cpp.
use tau_shell.Prelude.{refl, [], ◌∷◌, ◌++◌, Bytes, codes, arith}
use tau_shell.Json.{string}
use tau_shell.Json.Flat.{Entry, AllStand}
use tau_shell.Rpc.Args.Entries.{Request, Given, Ends, returned, tokens}
use tau_shell.Rpc.Messages.{add_new_message}
use tau_shell.Rpc.Messages.Laws.{message_added, add_new_message_lem}
use tau_shell.Tests.Platform.{lawful, hex}
use tau_shell.Tests.Rpc.{env, world}
use tau_shell.Tests.Entries.{sender, receiver, Stands-take}

abbrev message_text : Bytes
message_text =
    codes "{\"sender\":\""
    ++ (hex sender
        ++ (codes "\",\"receiver\":\""
            ++ (hex receiver ++ (codes "\",\"payload\":\"" ++ (codes "hi" ++ (codes "\"}"))))))

abbrev message_sender : Entry
message_sender = record {
  key_start = 2;
  key_end = 8;
  key = codes "sender";
  type = string;
  value_start = 11;
  value_end = 75;
  value = hex sender;
}

abbrev message_receiver : Entry
message_receiver = record {
  key_start = 78;
  key_end = 86;
  key = codes "receiver";
  type = string;
  value_start = 89;
  value_end = 153;
  value = hex receiver;
}

abbrev message_payload : Entry
message_payload = record {
  key_start = 156;
  key_end = 163;
  key = codes "payload";
  type = string;
  value_start = 166;
  value_end = 168;
  value = codes "hi";
}

abbrev message : Request
message = record {
  first = 0;
  last = 170;
  entries = message_sender ∷ message_receiver ∷ message_payload ∷ [];
  rest = [];
  bottom = 0;
  above = ground arith;
}

message_stand : AllStand (world message_text).buffer message.entries
message_stand = (
  Stands-take (world message_text).buffer 2 8 (codes "sender") b'"' refl refl refl (ground arith)
      refl,
  Stands-take (world message_text).buffer 11 75 (hex sender) b'"' refl refl refl (ground arith)
      refl,
  (
    Stands-take (world message_text).buffer 78 86 (codes "receiver") b'"' refl refl refl
        (ground arith) refl,
    Stands-take (world message_text).buffer 89 153 (hex receiver) b'"' refl refl refl (ground arith)
        refl,
    (
      Stands-take (world message_text).buffer 156 163 (codes "payload") b'"' refl refl refl
          (ground arith) refl,
      Stands-take (world message_text).buffer 166 168 (codes "hi") b'"' refl refl refl
          (ground arith) refl,
      tt,
    ),
  ),
)

message_sender-Given : Given message "sender" string (hex sender)
message_sender-Given = record { entry = message_sender; found = refl; has = refl }

message_receiver-Given : Given message "receiver" string (hex receiver)
message_receiver-Given = record { entry = message_receiver; found = refl; has = refl }

message_payload-Given : Given message "payload" string (codes "hi")
message_payload-Given = record { entry = message_payload; found = refl; has = refl }

add_new_message_lem_example :
    Ends
      (add_new_message env (tokens message))
      (world message_text)
      (returned (message_added env (world message_text) sender receiver (codes "hi")))
add_new_message_lem_example =
    add_new_message_lem env lawful message (world message_text) receiver (codes "hi") message_stand
      message_receiver-Given message_payload-Given (ground arith) refl sender message_sender-Given
      (ground arith) refl
