-- ===== src/Tests/Json.antt =====
-- The lookups of src/util/json_util.cpp in `{"tag":"x","method":"m"}`.
use tau_shell.Prelude.{◌≡◌, ◌⊎◌, ◌≤◌, length, refl, some, [], ◌∷◌, ◌++◌, Bytes, codes, arith}
use tau_shell.Prelude.Int.{pos}
use tau_shell.Fault.{ok, fault, out_of_bounds}
use tau_shell.Memory.Laws.{HasText}
use tau_shell.Json.{Tokens, string, object, primitive, skip_item, find_key}
use tau_shell.Json.Skip.{Node, node, nil, flatten, skip_item-returns, skip_item-flatten}
use tau_shell.Json.Fields.{Field, members, lookup_field, cut_keys, find_key-lookup_field}

abbrev text : Bytes
text = codes "{\"tag\":\"x\",\"method\":\"m\"}"

abbrev tag_field : Field
tag_field = record {
  key_start = 2;
  key_end = 5;
  key = codes "tag";
  value = node string (pos 8) (pos 9) nil;
}

abbrev method_field : Field
method_field = record {
  key_start = 12;
  key_end = 18;
  key = codes "method";
  value = node string (pos 21) (pos 22) nil;
}

tag_stands : HasText text 2 5 (codes "tag")
tag_stands = record {
  before = codes "{\"";
  last = b'"';
  after = codes ":\"x\",\"method\":\"m\"}";
  split = refl;
  starts = refl;
  stops = refl;
  clean = ground arith;
}

method_stands : HasText text 12 18 (codes "method")
method_stands = record {
  before = codes "{\"tag\":\"x\",\"";
  last = b'"';
  after = codes ":\"m\"}";
  split = refl;
  starts = refl;
  stops = refl;
  clean = ground arith;
}

abbrev request : Node
request = node object (pos 0) (pos 24) (members (tag_field ∷ method_field ∷ []))

find_key-lookup_field_example :
    find_key (some (flatten request ++ [])) text (codes "method") string
    ≡ ok (
      lookup_field (codes "method") string (tag_field ∷ method_field ∷ []) [],
      cut_keys (codes "method") string (tag_field ∷ method_field ∷ []) text,
    )
find_key-lookup_field_example =
    find_key-lookup_field (pos 0) (pos 24) (tag_field ∷ method_field ∷ []) [] text (codes "method")
      string (tag_stands, (omega arith, tt), (method_stands, tt, tt))

skip_item-returns_example :
    ((rest : Tokens) × (skip_item (flatten request) ≡ ok rest)
      × (length rest ≤ length (flatten request)))
    ⊎ (skip_item (flatten request) ≡ fault out_of_bounds)
skip_item-returns_example = skip_item-returns (flatten request)

abbrev after_request : Tokens
after_request = record { type = primitive; start = pos 30; end = pos 31; size = 0 } ∷ []

skip_item-flatten_example : skip_item (flatten request ++ after_request) ≡ ok after_request
skip_item-flatten_example = skip_item-flatten request after_request
