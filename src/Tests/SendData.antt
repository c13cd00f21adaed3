-- ===== src/Tests/SendData.antt =====
-- A request to send data, of src/handler/tau_handler.cpp.
use tau_shell.Prelude.{refl, [], ◌∷◌, ◌++◌, Bytes, codes, arith}
use tau_shell.Prelude.Int.{pos, negsuc}
use tau_shell.Text.{show_ℕ, show_ℤ}
use tau_shell.Json.{string, primitive}
use tau_shell.Json.Flat.{Entry, AllStand}
use tau_shell.Rpc.Args.Entries.{Request, Given, Ends, returned, tokens}
use tau_shell.Rpc.Messages.{send_data}
use tau_shell.Rpc.Messages.Laws.{data_sent, send_data_lem}
use tau_shell.Tests.Platform.{lawful, hex}
use tau_shell.Tests.Rpc.{env, world}
use tau_shell.Tests.Entries.{receiver, Stands-take}

abbrev data_request_text : Bytes
data_request_text =
    codes "{\"receiver\":\""
    ++ (hex receiver
        ++ (codes "\",\"payload\":\""
            ++ (codes "hi"
                ++ (codes "\",\"alpha\":"
                    ++ (codes "300"
                        ++ (codes ",\"beta\":"
                            ++ (codes "1"
                                ++ (codes ",\"invoke_limit\":"
                                    ++ (codes "2"
                                        ++ (codes ",\"hit_limit\":"
                                            ++ (codes "-1" ++ (codes "}"))))))))))))

abbrev data_request_receiver : Entry
data_request_receiver = record {
  key_start = 2;
  key_end = 10;
  key = codes "receiver";
  type = string;
  value_start = 13;
  value_end = 77;
  value = hex receiver;
}

abbrev data_request_payload : Entry
data_request_payload = record {
  key_start = 80;
  key_end = 87;
  key = codes "payload";
  type = string;
  value_start = 90;
  value_end = 92;
  value = codes "hi";
}

abbrev data_request_alpha : Entry
data_request_alpha = record {
  key_start = 95;
  key_end = 100;
  key = codes "alpha";
  type = primitive;
  value_start = 102;
  value_end = 105;
  value = codes "300";
}

abbrev data_request_beta : Entry
data_request_beta = record {
  key_start = 107;
  key_end = 111;
  key = codes "beta";
  type = primitive;
  value_start = 113;
  value_end = 114;
  value = codes "1";
}

abbrev data_request_invoke_limit : Entry
data_request_invoke_limit = record {
  key_start = 116;
  key_end = 128;
  key = codes "invoke_limit";
  type = primitive;
  value_start = 130;
  value_end = 131;
  value = codes "2";
}

abbrev data_request_hit_limit : Entry
data_request_hit_limit = record {
  key_start = 133;
  key_end = 142;
  key = codes "hit_limit";
  type = primitive;
  value_start = 144;
  value_end = 146;
  value = codes "-1";
}

abbrev data_request : Request
data_request = record {
  first = 0;
  last = 147;
  entries =
      data_request_receiver ∷ data_request_payload ∷ data_request_alpha ∷ data_request_beta
      ∷ data_request_invoke_limit ∷ data_request_hit_limit ∷ [];
  rest = [];
  bottom = 0;
  above = ground arith;
}

data_request_stand : AllStand (world data_request_text).buffer data_request.entries
data_request_stand = (
  Stands-take (world data_request_text).buffer 2 10 (codes "receiver") b'"' refl refl refl
      (ground arith) refl,
  Stands-take (world data_request_text).buffer 13 77 (hex receiver) b'"' refl refl refl
      (ground arith) refl,
  (
    Stands-take (world data_request_text).buffer 80 87 (codes "payload") b'"' refl refl refl
        (ground arith) refl,
    Stands-take (world data_request_text).buffer 90 92 (codes "hi") b'"' refl refl refl
        (ground arith) refl,
    (
      Stands-take (world data_request_text).buffer 95 100 (codes "alpha") b'"' refl refl refl
          (ground arith) refl,
      Stands-take (world data_request_text).buffer 102 105 (codes "300") b',' refl refl refl
          (ground arith) refl,
      (
        Stands-take (world data_request_text).buffer 107 111 (codes "beta") b'"' refl refl refl
            (ground arith) refl,
        Stands-take (world data_request_text).buffer 113 114 (codes "1") b',' refl refl refl
            (ground arith) refl,
        (
          Stands-take (world data_request_text).buffer 116 128 (codes "invoke_limit") b'"' refl refl
              refl (ground arith) refl,
          Stands-take (world data_request_text).buffer 130 131 (codes "2") b',' refl refl refl
              (ground arith) refl,
          (
            Stands-take (world data_request_text).buffer 133 142 (codes "hit_limit") b'"' refl refl
                refl (ground arith) refl,
            Stands-take (world data_request_text).buffer 144 146 (codes "-1") b'}' refl refl refl
                (ground arith) refl,
            tt,
          ),
        ),
      ),
    ),
  ),
)

data_request_receiver-Given : Given data_request "receiver" string (hex receiver)
data_request_receiver-Given = record { entry = data_request_receiver; found = refl; has = refl }

data_request_payload-Given : Given data_request "payload" string (codes "hi")
data_request_payload-Given = record { entry = data_request_payload; found = refl; has = refl }

data_request_alpha-Given : Given data_request "alpha" primitive (show_ℤ (pos 300))
unfolding show_ℤ show_ℕ
data_request_alpha-Given = record { entry = data_request_alpha; found = refl; has = refl }

data_request_beta-Given : Given data_request "beta" primitive (show_ℤ (pos 1))
unfolding show_ℤ show_ℕ
data_request_beta-Given = record { entry = data_request_beta; found = refl; has = refl }

data_request_invoke_limit-Given : Given data_request "invoke_limit" primitive (show_ℤ (pos 2))
unfolding show_ℤ show_ℕ
data_request_invoke_limit-Given = record {
  entry = data_request_invoke_limit;
  found = refl;
  has = refl;
}

data_request_hit_limit-Given : Given data_request "hit_limit" primitive (show_ℤ (negsuc 0))
unfolding show_ℤ show_ℕ
data_request_hit_limit-Given = record { entry = data_request_hit_limit; found = refl; has = refl }

-- An alpha of 300 is sent as 44.
send_data_lem_example : Ends (send_data env (tokens data_request)) (world data_request_text) (
    returned (
      data_sent env
        (world data_request_text)
        receiver
        (codes "hi")
        (pos 300)
        (pos 1)
        (pos 2)
        (negsuc 0)))
send_data_lem_example =
    send_data_lem env lawful data_request (world data_request_text) receiver (codes "hi")
      data_request_stand data_request_receiver-Given data_request_payload-Given (ground arith) refl
      (pos 300) (pos 1) (pos 2) (negsuc 0) data_request_alpha-Given data_request_beta-Given
      data_request_invoke_limit-Given data_request_hit_limit-Given (omega arith) (omega arith)
      (omega arith) (omega arith)
