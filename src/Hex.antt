-- ===== src/Hex.antt =====
-- src/util/hex_util.cpp and include/util/tau_constants.hpp: chain ids and keys between bytes and text.
pub mod RoundTrip
use tau_shell.Prelude.{
  ℕ, zero, suc, ◌+◌, ◌-◌, ◌*◌, ◌/◌, ◌≤◌, ◌<◌, ◌≡◌, Bool, true, false, Option, none, some, List, [],
  ◌∷◌, ◌++◌, Bytes, length, take, drop, ltb, leb, ◌&&◌, ◌||◌, if◌then◌else◌,
}
use tau_shell.Prelude.Int.{ℤ, pos, negsuc, ◌+ℤ◌, ◌-ℤ◌}
use tau_shell.Fault.{Res, ok, fault, out_of_bounds, length_error, ◌>>=◌}
use tau_shell.Memory.{slice, until_nul, or_out_of_bounds}

abbrev pub key_hex_len : ℕ
key_hex_len = 64

abbrev pub key_len : ℕ
key_len = 32

abbrev pub cid_key_char_len : ℕ
cid_key_char_len = 8

abbrev pub cid_key_hex_len : ℕ
cid_key_hex_len = 16

-- libTAU's hex functions and the heap, which the program calls and does not define.
-- `from_hex span out` decodes into `out` up to the first character that is no digit, and returns its answer with `out`; `fresh n` is what
-- `new char[n]` holds before it is written, `sha1_hash` the constructor from a vector.
pub record Platform : Type 0 where
  pub to_hex : Bytes → Bytes
  pub from_hex : Bytes → Bytes → Res (Bool × Bytes)
  pub fresh : ℕ → Bytes
  pub sha1_hash : Bytes → Res Bytes

abbrev pub AllBytes : Bytes → Type 0
AllBytes [] = Unit
AllBytes (b ∷ bs) = (b < 256) × AllBytes bs

abbrev pub AllVisible : Bytes → Type 0
AllVisible [] = Unit
AllVisible (c ∷ cs) = (48 ≤ c) × AllVisible cs

-- What libTAU documents of them.
pub record IsLawful (p : Platform) : Type 0 where
  pub length-to_hex : (b : Bytes) → length (p.to_hex b) ≡ 2 * length b
  -- its characters are '0' to '9' and 'a' to 'f', none below '0'
  pub to_hex-AllVisible : (b : Bytes) → AllVisible (p.to_hex b)
  pub from_hex-to_hex :
      (b out : Bytes)
      → AllBytes b
      → length b ≤ length out
      → p.from_hex (p.to_hex b) out ≡ ok (true, b ++ drop (length b) out)
  -- each byte is written as its two characters are read, so `out` has to hold them
  pub from_hex-small :
      (b more out : Bytes)
      → AllBytes b
      → length out < length b
      → p.from_hex (p.to_hex b ++ more) out ≡ fault out_of_bounds
  -- it writes into `out` and leaves its length
  pub length-from_hex :
      (text out : Bytes) {done : Bool} {out' : Bytes}
      → p.from_hex text out ≡ ok (done, out')
      → length out' ≡ length out
  -- it copies twenty bytes
  pub sha1_hash-exact : (b : Bytes) → length b ≡ 20 → p.sha1_hash b ≡ ok b
  pub length-fresh : (n : ℕ) → length (p.fresh n) ≡ n

abbrev pub is_hex_digit : ℕ → Bool
is_hex_digit c =
    (leb b'0' c && leb c b'9') || ((leb b'a' c && leb c b'f') || (leb b'A' c && leb c b'F'))

-- A character at which from_hex stops, so that it reads nothing behind it.
unfoldable pub has_other : Bytes → Bool
has_other [] = false
has_other (c ∷ cs) = let rest = has_other cs in if is_hex_digit c then rest else true

-- On a size below the prefix this is negative, and `new char[]` of it throws.
unfoldable pub chain_id_size : ℤ → ℤ
chain_id_size size = size -ℤ pos cid_key_char_len

-- new char[n]
unfoldable pub new_chars : Platform → ℤ → Res Bytes
new_chars p (pos n) = ok (p.fresh n)
new_chars p (negsuc n) = fault length_error

module _ (p : Platform) where
  -- A span at `buf + at`, of which nothing is read yet. A negative length is taken for a huge one.
  unfoldable pub hex_char_to_bytes_char : Bytes → ℤ → ℤ → Bytes → Res (Bool × Bytes)
  hex_char_to_bytes_char buf (negsuc i) len out = fault out_of_bounds
  hex_char_to_bytes_char buf (pos i) (negsuc n) out =
      if has_other (drop i buf) then p.from_hex (drop i buf) out else fault out_of_bounds
  hex_char_to_bytes_char buf (pos i) (pos len) out =
      let chars = take len (drop i buf) in
      if leb (i + len) (length buf) || has_other chars
      then p.from_hex chars out
      else fault out_of_bounds

  -- chain_bytes[CID_KEY_CHAR_LEN + i] = hex_char[CID_KEY_HEX_LEN + i] for the bytes behind the prefix
  abbrev pub copy_rest : Bytes → ℤ → ℕ → Bytes → Res Bytes
  copy_rest buf at n chain_bytes =
      if ltb cid_key_hex_len n
      then (do
        tail ← slice buf (at +ℤ pos cid_key_hex_len) (n - cid_key_hex_len)
        ok (take cid_key_char_len chain_bytes ++ tail))
      else ok chain_bytes

  unfoldable pub string_chain_id_to_bytes : Bytes → ℤ → ℤ → Res Bytes
  string_chain_id_to_bytes buf at (negsuc n) = fault length_error
  string_chain_id_to_bytes buf at (pos len) = do
    chain_bytes ← new_chars p (chain_id_size (pos len))
    (done, prefixed) ← hex_char_to_bytes_char buf at (pos cid_key_hex_len) chain_bytes
    copy_rest buf at len prefixed

  -- `std::string(chain_str)` ends at the first NUL.
  unfoldable pub bytes_chain_id_to_string : Bytes → Res Bytes
  bytes_chain_id_to_string chain_bytes = do
    prefix ← slice chain_bytes (pos 0) cid_key_char_len
    or_out_of_bounds (until_nul (p.to_hex prefix ++ (drop cid_key_char_len chain_bytes ++ 0 ∷ [])))

  -- `len / 2` rounds towards zero: at -1 nothing is kept of what is decoded, at -2 and -3 the NUL goes
  -- in front of the array, and below that the size is negative.
  unfoldable pub hex_chain_id_to_bytes : Bytes → ℤ → ℤ → Res Bytes
  hex_chain_id_to_bytes buf at (negsuc zero) = do
    (done, chain_bytes) ← hex_char_to_bytes_char buf at (negsuc zero) (0 ∷ [])
    ok []
  hex_chain_id_to_bytes buf at (negsuc (suc n)) =
      if ltb n 2 then fault out_of_bounds else fault length_error
  hex_chain_id_to_bytes buf at (pos len) = do
    (done, chain_bytes) ←
        hex_char_to_bytes_char buf at (pos len) (take (len / 2) (p.fresh (len / 2 + 1)) ++ 0 ∷ [])
    ok (take (len / 2) chain_bytes)
