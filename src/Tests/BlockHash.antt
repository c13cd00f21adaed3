-- ===== src/Tests/BlockHash.antt =====
-- A request for a block by its hash, of src/handler/tau_handler.cpp.
use tau_shell.Prelude.{refl, [], ◌∷◌, ◌++◌, Bytes, codes, take, drop, zeros, arith}
use tau_shell.Fault.{length_error}
use tau_shell.Json.{string}
use tau_shell.Json.Flat.{Entry, AllStand}
use tau_shell.Rpc.Args.Entries.{Request, Given, Ends, faulted, tokens}
use tau_shell.Rpc.Queries.{get_block_by_hash}
use tau_shell.Rpc.Transactions.Laws.{get_block_by_hash-throws}
use tau_shell.Tests.Platform.{lawful, hex}
use tau_shell.Tests.Rpc.{env, world}
use tau_shell.Tests.Entries.{chain, Stands-take}

-- twenty bytes
abbrev block_hash : Bytes
block_hash = zeros 20

abbrev block_request_text : Bytes
block_request_text =
    codes "{\"chain_id\":\""
    ++ (hex (take 8 chain)
        ++ drop 8 chain
        ++ (codes "\",\"block_hash\":\"" ++ (hex block_hash ++ (codes "\"}"))))

abbrev block_request_chain_id : Entry
block_request_chain_id = record {
  key_start = 2;
  key_end = 10;
  key = codes "chain_id";
  type = string;
  value_start = 13;
  value_end = 32;
  value = hex (take 8 chain) ++ drop 8 chain;
}

abbrev block_request_block_hash : Entry
block_request_block_hash = record {
  key_start = 35;
  key_end = 45;
  key = codes "block_hash";
  type = string;
  value_start = 48;
  value_end = 88;
  value = hex block_hash;
}

abbrev block_request : Request
block_request = record {
  first = 0;
  last = 90;
  entries = block_request_chain_id ∷ block_request_block_hash ∷ [];
  rest = [];
  bottom = 0;
  above = ground arith;
}

block_request_stand : AllStand (world block_request_text).buffer block_request.entries
block_request_stand = (
  Stands-take (world block_request_text).buffer 2 10 (codes "chain_id") b'"' refl refl refl
      (ground arith) refl,
  Stands-take (world block_request_text).buffer 13 32 (hex (take 8 chain) ++ drop 8 chain) b'"' refl
      refl refl (ground arith) refl,
  (
    Stands-take (world block_request_text).buffer 35 45 (codes "block_hash") b'"' refl refl refl
        (ground arith) refl,
    Stands-take (world block_request_text).buffer 48 88 (hex block_hash) b'"' refl refl refl
        (ground arith) refl,
    tt,
  ),
)

block_request-chain_id-Given :
    Given block_request "chain_id" string (hex (take 8 chain) ++ drop 8 chain)
block_request-chain_id-Given = record { entry = block_request_chain_id; found = refl; has = refl }

block_request_block_hash-Given : Given block_request "block_hash" string (hex block_hash)
block_request_block_hash-Given = record {
  entry = block_request_block_hash;
  found = refl;
  has = refl;
}

get_block_by_hash-throws_example :
    Ends
      (get_block_by_hash env (tokens block_request))
      (world block_request_text)
      (faulted length_error)
get_block_by_hash-throws_example =
    get_block_by_hash-throws env lawful block_request (world block_request_text) chain
      (hex block_hash) block_request_stand block_request-chain_id-Given
      block_request_block_hash-Given (ground arith) (omega arith) (omega arith)
