-- ===== src/Hex/RoundTrip.antt =====
-- src/util/hex_util.cpp: chain ids survive the way to text and back, and short texts are faults.
use tau_shell.Prelude.{
  ℕ, zero, suc, ◌+◌, ◌-◌, ◌*◌, ◌/◌, ◌≤◌, ◌<◌, ◌≡◌, refl, ◌∙◌, ap, subst, true, [], ◌∷◌, ◌++◌, Bytes,
  length, take, drop, append_assoc, length-append, length-take, length-drop, take-append-drop,
  arith, ltb, leb, if◌then◌else◌, Bool-cases, inl, inr,
}
use tau_shell.Prelude.Int.{pos, ◌+ℤ◌, ◌-ℤ◌, pos-+ℤ}
use tau_shell.Fault.{ok, fault, out_of_bounds, length_error}
use tau_shell.Memory.{slice}
use tau_shell.Memory.Laws.{
  NoNul, NoNul-append, slice-append, until_nul-append, take-append, drop-append,
}
use tau_shell.Hex.{
  Platform, IsLawful, AllBytes, AllVisible, string_chain_id_to_bytes, bytes_chain_id_to_string,
  hex_chain_id_to_bytes, chain_id_size, new_chars, copy_rest, hex_char_to_bytes_char, has_other,
}

AllBytes-take : (n : ℕ) (b : Bytes) → AllBytes b → AllBytes (take n b)
AllBytes-take zero b h = tt
AllBytes-take (suc n) [] h = tt
AllBytes-take (suc n) (x ∷ b) (lt, h) = (lt, AllBytes-take n b h)

pub AllVisible-NoNul : (s : Bytes) → AllVisible s → NoNul s
AllVisible-NoNul [] h = tt
AllVisible-NoNul (c ∷ s) (v, h) = (omega arith, AllVisible-NoNul s h)

pub has_other-nul : (xs ys : Bytes) → has_other (xs ++ 0 ∷ ys) ≡ true
unfolding has_other
has_other-nul [] ys = refl
has_other-nul (c ∷ xs) ys = ground (arith, has_other-nul xs ys)

take-length_plus : (xs ys : Bytes) (k : ℕ) → take (length xs + k) (xs ++ ys) ≡ xs ++ take k ys
take-length_plus [] ys k = let e : 0 + k ≡ k = omega arith in rw e
take-length_plus (x ∷ xs) ys k =
    let e : suc (length xs) + k ≡ suc (length xs + k) = omega arith in
    rw e (ap (λ t. x ∷ t) (take-length_plus xs ys k))

module _ (p : Platform) (lawful : IsLawful p) where
  -- The text of a chain id.
  abbrev chain_text : Bytes → Bytes
  chain_text b = p.to_hex (take 8 b) ++ drop 8 b

  pub length-take_8 : (b : Bytes) → 8 ≤ length b → length (take 8 b) ≡ 8
  length-take_8 b h = omega (arith, length-take {0} 8 b)

  slice_prefix : (b : Bytes) → 8 ≤ length b → slice b (pos 0) 8 ≡ ok (take 8 b)
  unfolding slice
  slice_prefix b h = ground arith

  bytes_chain_id_to_string-eq :
      (b : Bytes)
      → 8 ≤ length b
      → NoNul (drop 8 b)
      → bytes_chain_id_to_string p b ≡ ok (chain_text b)
  unfolding bytes_chain_id_to_string
  bytes_chain_id_to_string-eq b h clean =
      rw (slice_prefix b h, ← append_assoc)
        (rw (
          until_nul-append (chain_text b) []
            (NoNul-append _ _ (AllVisible-NoNul _ (lawful.to_hex-AllVisible _)) clean)))

  -- Decoding a text that stands in a buffer, into an array that has room for it, or has not.
  pub decode :
      (before b after out : Bytes)
      → AllBytes b
      → length b ≤ length out
      → hex_char_to_bytes_char p
          (before ++ (p.to_hex b ++ after))
          (pos (length before))
          (pos (2 * length b))
          out
        ≡ ok (true, b ++ drop (length b) out)
  unfolding hex_char_to_bytes_char
  decode before b after out bytes fits =
      let inside : leb (length before + length (p.to_hex b))
            (length (before ++ (p.to_hex b ++ after)))
          ≡ true =
        ground (
          arith,
          length-append {0} before (p.to_hex b ++ after),
          length-append {0} (p.to_hex b) after,
        ) in
      rw (← lawful.length-to_hex b) (
        rw (inside, drop-append before (p.to_hex b ++ after), take-append (p.to_hex b) after)
          (lawful.from_hex-to_hex b out bytes fits))

  take-to_hex :
      (b rest : Bytes) (k : ℕ)
      → take (2 * length b + k) (p.to_hex b ++ rest) ≡ p.to_hex b ++ take k rest
  take-to_hex b rest k = rw (← lawful.length-to_hex b) (take-length_plus (p.to_hex b) rest k)

  -- A text that a NUL ends before the span does, and that has more bytes than there is room for.
  decode_small :
      (before b after out : Bytes) (k : ℕ)
      → AllBytes b
      → length out < length b
      → hex_char_to_bytes_char p
          (before ++ (p.to_hex b ++ 0 ∷ after))
          (pos (length before))
          (pos (2 * length b + suc k))
          out
        ≡ fault out_of_bounds
  unfolding hex_char_to_bytes_char
  decode_small before b after out k bytes small =
      rw (drop-append before (p.to_hex b ++ 0 ∷ after), take-to_hex b (0 ∷ after) (suc k))
        (rw (has_other-nul (p.to_hex b) (take k after))
          (ground (arith, lawful.from_hex-small b (0 ∷ take k after) out bytes small)))

  new_chain_id : (n : ℕ) → new_chars p (chain_id_size (pos (n + 8))) ≡ ok (p.fresh n)
  unfolding chain_id_size ◌-ℤ◌ new_chars
  new_chain_id n = let e : n + 8 - 8 ≡ n = omega arith in ground arith

  new_chain_id_short : (n : ℕ) → n < 8 → new_chars p (chain_id_size (pos n)) ≡ fault length_error
  unfolding chain_id_size ◌-ℤ◌ new_chars
  new_chain_id_short n h = ground arith

  copy_none :
      (x y junk : Bytes) → length junk ≡ length y → length y ≡ 0 → ok (x ++ junk) ≡ ok (x ++ y)
  copy_none x [] [] h k = refl
  copy_none x [] (c ∷ junk) h k = absurd (omega arith)
  copy_none x (c ∷ y) junk h k = absurd (omega arith)

  copy_rest-eq :
      (before x y after junk : Bytes) (n : ℕ)
      → length x ≡ 8
      → length (p.to_hex x) ≡ 16
      → length junk ≡ length y
      → n ≡ 16 + length y
      → copy_rest p (before ++ (p.to_hex x ++ (y ++ after))) (pos (length before)) n (x ++ junk)
        ≡ ok (x ++ y)
  copy_rest-eq before x y after junk n hx ht hj hn = elim (Bool-cases (ltb 16 n)) [
    | inl more ↦
        let at : pos (length before) +ℤ pos 16 ≡ pos (length (before ++ p.to_hex x)) =
          pos-+ℤ _ 16 ∙ ap pos (omega (arith, length-append {0} before (p.to_hex x))) in
        let size : n - 16 ≡ length y = omega arith in
        rw (more, at, size, ← append_assoc)
          (rw (slice-append (before ++ p.to_hex x) y after, ← hx) (rw take-append))
    | inr none_left ↦ rw none_left (copy_none x y junk hj (ground arith))
  ]

  pub string_chain_id_to_bytes-eq :
      (before b after : Bytes)
      → AllBytes b
      → 8 ≤ length b
      → string_chain_id_to_bytes p
          (before ++ (chain_text b ++ after))
          (pos (length before))
          (pos (length b + 8))
        ≡ ok b
  unfolding string_chain_id_to_bytes
  string_chain_id_to_bytes-eq before b after bytes h =
      rw (new_chain_id (length b), append_assoc)
        (let small = length-take_8 b h in
          let e : 2 * length (take 8 b) ≡ 16 = omega arith in
          rw
            (rw e at (
              decode before (take 8 b) (drop 8 b ++ after) (p.fresh (length b))
                (AllBytes-take 8 b bytes) (omega (arith, lawful.length-fresh (length b)))))
            (copy_rest-eq before (take 8 b) (drop 8 b) after
                (drop (length (take 8 b)) (p.fresh (length b))) (length b + 8) small
                (omega (arith, lawful.length-to_hex (take 8 b)))
                (omega (
                  arith,
                  length-drop {0} 8 b,
                  length-drop {0} (length (take 8 b)) (p.fresh (length b)),
                  lawful.length-fresh (length b),
                ))
                (omega (arith, length-drop {0} 8 b))
              ∙ ap ok (take-append-drop 8 b)))

  -- A chain id of at least eight bytes, with no NUL behind the eighth, has a text, and the text,
  -- anywhere in a buffer, is read back as the chain id.
  pub string_chain_id_to_bytes-bytes_chain_id_to_string :
      (b before after : Bytes)
      → AllBytes b
      → 8 ≤ length b
      → NoNul (drop 8 b)
      → (text : Bytes) × (bytes_chain_id_to_string p b ≡ ok text)
        × (string_chain_id_to_bytes p
              (before ++ (text ++ after))
              (pos (length before))
              (pos (length text))
            ≡ ok b)
  string_chain_id_to_bytes-bytes_chain_id_to_string b before after bytes h clean =
      let size : length (chain_text b) ≡ length b + 8 = omega (
        arith,
        length-append {0} (p.to_hex (take 8 b)) (drop 8 b),
        lawful.length-to_hex (take 8 b),
        length-take_8 b h,
        length-drop {0} 8 b,
      ) in
      (
        chain_text b,
        bytes_chain_id_to_string-eq b h clean,
        rw size (string_chain_id_to_bytes-eq before b after bytes h),
      )

  -- The text of fewer than eight bytes in hexadecimal, with a NUL behind it, is too short for a chain
  -- id: below four bytes the allocation throws, and from four to seven the decoded bytes are written
  -- past the end of the array.
  pub string_chain_id_to_bytes-short :
      (before b after : Bytes)
      → AllBytes b
      → length b < 8
      → string_chain_id_to_bytes p
          (before ++ (p.to_hex b ++ 0 ∷ after))
          (pos (length before))
          (pos (2 * length b))
        ≡ fault (if ltb (length b) 4 then length_error else out_of_bounds)
  unfolding string_chain_id_to_bytes
  string_chain_id_to_bytes-short before b after bytes h = elim (Bool-cases (ltb (length b) 4)) [
    | inl short ↦ rw (short, new_chain_id_short (2 * length b) (ground arith)) refl
    | inr long ↦
        let split : 2 * length b - 8 + 8 ≡ 2 * length b = ground arith in
        let span : 2 * length b + suc (15 - 2 * length b) ≡ 16 = ground arith in
        let room : length (p.fresh (2 * length b - 8)) < length b =
          ground (arith, lawful.length-fresh (2 * length b - 8)) in
        rw
          (
            long,
            subst (λ n. new_chars p (chain_id_size (pos n)) ≡ ok (p.fresh (2 * length b - 8))) split
                (new_chain_id (2 * length b - 8)),
          )
          (rw
            (rw span at (
              decode_small before b after (p.fresh (2 * length b - 8)) (15 - 2 * length b) bytes
                room))
            refl)
  ]

  -- A chain id in hexadecimal, anywhere in a buffer, is decoded to its bytes.
  pub hex_chain_id_to_bytes-to_hex :
      (before b after : Bytes)
      → AllBytes b
      → hex_chain_id_to_bytes p
          (before ++ (p.to_hex b ++ after))
          (pos (length before))
          (pos (2 * length b))
        ≡ ok b
  unfolding hex_chain_id_to_bytes
  hex_chain_id_to_bytes-to_hex before b after bytes =
      let half : 2 * length b / 2 ≡ length b = omega arith in
      let out = take (length b) (p.fresh (length b + 1)) ++ 0 ∷ [] in
      rw half (
        rw
          (decode before b after out bytes (
            omega (
              arith,
              length-append {0} (take (length b) (p.fresh (length b + 1))) (0 ∷ []),
              length-take {0} (length b) (p.fresh (length b + 1)),
              lawful.length-fresh (length b + 1),
            )))
          (rw take-append))
