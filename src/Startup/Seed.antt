-- ===== src/Startup/Seed.antt =====
-- The seed of the account in src/main.cpp: a new one for "null", or the one in the config file.
use tau_shell.Prelude.{
  ℕ, zero, suc, ◌+◌, ◌*◌, ◌≡◌, refl, ap, ◌∙◌, true, false, [], ◌∷◌, ◌++◌, Bytes, zeros, codes,
  length, take, drop, bytes_eq, if◌then◌else◌, arith, append-nil, Bool-cases, inl, inr,
  bytes_eq_iff,
}
use tau_shell.Prelude.Int.{pos}
use tau_shell.Fault.{Res, ok, ◌>>=◌}
use tau_shell.Hex.{Platform, IsLawful, AllBytes, key_len, key_hex_len, hex_char_to_bytes_char}
use tau_shell.Hex.RoundTrip.{decode}

-- char account_seed[KEY_HEX_LEN + 1], which starts as zeros
abbrev pub seed_array : Bytes → Bytes
seed_array word = take (key_hex_len + 1) (word ++ zeros (key_hex_len + 1))

-- The bytes of the seed, and the text that the session is given.
unfoldable pub account_seed : Platform → Bytes → Bytes → Res (Bytes × Bytes)
account_seed p created word =
    if bytes_eq word (codes "null") then ok (created, p.to_hex created) else (do
      (done, array_seed) ←
          hex_char_to_bytes_char p (seed_array word) (pos 0) (pos key_hex_len) (p.fresh key_len)
      ok (array_seed, word))

take_past : (w z : Bytes) → take (length w + 1) (w ++ 0 ∷ z) ≡ w ++ 0 ∷ []
take_past [] z = refl
take_past (c ∷ w) z =
    let e : suc (length w) + 1 ≡ suc (length w + 1) = omega arith in
    rw e (ap (λ t. c ∷ t) (take_past w z))

seed_array-word : (w : Bytes) → length w ≡ 64 → seed_array w ≡ w ++ 0 ∷ []
seed_array-word w size = let e : length w + 1 ≡ 65 = omega arith in rw e at (take_past w (zeros 64))

not_null : (w : Bytes) → length w ≡ 64 → bytes_eq w (codes "null") ≡ false
not_null w size = elim (Bool-cases (bytes_eq w (codes "null"))) [
  | inl same ↦ absurd (omega (arith, ap {B = ℕ} length ((bytes_eq_iff w (codes "null")).0 same)))
  | inr other ↦ other
]

drop_all : (n : ℕ) (out : Bytes) → length out ≡ n → drop n out ≡ []
drop_all zero [] h = refl
drop_all (suc n) [] h = refl
drop_all zero (c ∷ out) h = absurd (omega arith)
drop_all (suc n) (c ∷ out) h = drop_all n out (omega arith)

module _ (p : Platform) (lawful : IsLawful p) where
  seed_read :
      (seed : Bytes)
      → AllBytes seed
      → length seed ≡ 32
      → hex_char_to_bytes_char p (seed_array (p.to_hex seed)) (pos 0) (pos 64) (p.fresh 32)
        ≡ ok (true, seed)
  seed_read seed bytes size =
      let long : length (p.to_hex seed) ≡ 64 = omega (arith, lawful.length-to_hex seed) in
      let e : 2 * length seed ≡ 64 = omega arith in
      let room : length (p.fresh 32) ≡ 32 = lawful.length-fresh 32 in
      let read = rw e at (decode p lawful [] seed (0 ∷ []) (p.fresh 32) bytes (omega arith)) in
      rw (seed_array-word (p.to_hex seed) long) (
        read
        ∙ ap (λ out. ok (true, out)) (rw (size, drop_all 32 (p.fresh 32) room) (append-nil seed)))

  -- For "null" the seed that is created is used, and the session is given its text in hexadecimal. With
  -- this text in the config file, the next start has the same seed and gives the session the same text,
  -- whatever seed it could have created.
  pub account_seed-account_seed :
      (seed other : Bytes)
      → AllBytes seed
      → length seed ≡ 32
      → (account_seed p seed (codes "null") ≡ ok (seed, p.to_hex seed))
        × (account_seed p other (p.to_hex seed) ≡ ok (seed, p.to_hex seed))
  unfolding account_seed
  account_seed-account_seed seed other bytes size =
      let long : length (p.to_hex seed) ≡ 64 = omega (arith, lawful.length-to_hex seed) in
      (refl, rw (not_null (p.to_hex seed) long) (rw (seed_read seed bytes size)))
