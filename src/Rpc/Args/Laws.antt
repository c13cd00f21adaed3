-- ===== src/Rpc/Args/Laws.antt =====
-- Arguments that stand in the request's text are read as they stand there.
use tau_shell.Prelude.{
  ◌≤◌, ◌+◌, take, length-append, length-drop, ◌<◌, ◌++◌, some, ◌^◌, false, ℕ, zero, suc, append-nil,
  ◌*◌, ◌≡◌, refl, ap, ◌∙◌, true, [], ◌∷◌, Bytes, length, set, drop, lt→ltb, arith,
}
use tau_shell.Prelude.Int.{ℤ, pos, negsuc, ◌-ℤ◌}
use tau_shell.Fault.{ok}
use tau_shell.Memory.{store, slice}
use tau_shell.Memory.Laws.{
  drop-append, slice-append, HasText, HasText-lt, set_end-split, c_string-set_end,
}
use tau_shell.Json.{Token}
use tau_shell.Hex.{IsLawful, AllBytes, hex_char_to_bytes_char, string_chain_id_to_bytes}
use tau_shell.Program.{resume-ok}
use tau_shell.Hex.RoundTrip.{decode, string_chain_id_to_bytes-eq, length-take_8}
use tau_shell.Rpc.Session.{Env, World}
use tau_shell.Text.{is_digit, parse_number, clamp_int64, to_int32, show_ℤ}
use tau_shell.Text.Decimal.{parse_number-show_ℤ}
use tau_shell.Rpc.Args.{
  int_at, keep_world, terminate, text_at, pubkey_at, string_chain_id_at, size_of, span_at,
}

-- The value of a token stands in a text.
pub record Value (buf : Bytes) (t : Token) (text : Bytes) : Type 0 where
  pub first : ℕ
  pub last : ℕ
  pub starts : t.start ≡ pos first
  pub stops : t.end ≡ pos last
  pub stands : HasText buf first last text

-- the text with its NUL
abbrev pub ended : World → ℕ → World
ended w last = record w { buffer = set w.buffer last 0 }

pub terminate-Value :
    (t : Token) (w : World) (text : Bytes) (v : Value w.buffer t text)
    → terminate t w ≡ ok (tt, ended w v.last)
unfolding terminate store
terminate-Value t w text v = rw (v.stops, lt→ltb _ _ (HasText-lt w.buffer _ _ text v.stands))

pub text_at-Value :
    (t : Token) (w : World) (text : Bytes) (v : Value w.buffer t text)
    → text_at t (ended w v.last) ≡ ok (text, ended w v.last)
unfolding text_at
text_at-Value t w text v = rw (v.starts, c_string-set_end w.buffer _ _ text v.stands)

drop_exact : (n : ℕ) (out : Bytes) → length out ≡ n → drop n out ≡ []
drop_exact zero [] h = refl
drop_exact (suc n) [] h = refl
drop_exact zero (c ∷ out) h = absurd (omega arith)
drop_exact (suc n) (c ∷ out) h = drop_exact n out (omega arith)

module _ (env : Env) (lawful : IsLawful env.platform) where
  decode_key :
      (t : Token) (w : World) (pubkey : Bytes) (v : Value w.buffer t (env.platform.to_hex pubkey))
      → AllBytes pubkey
      → length pubkey ≡ 32
      → hex_char_to_bytes_char env.platform
          (set w.buffer v.last 0)
          t.start
          (pos 64)
          (env.platform.fresh 32)
        ≡ ok (true, pubkey)
  decode_key t w pubkey v bytes size =
      let h = v.stands in
      let room : length (env.platform.fresh 32) ≡ 32 = lawful.length-fresh 32 in
      let e : 2 * length pubkey ≡ 64 = omega arith in
      rw (v.starts, set_end-split w.buffer _ _ 0 _ h, ← h.starts)
        (rw e at (
            decode env.platform lawful h.before pubkey (0 ∷ h.after) (env.platform.fresh 32) bytes
              (omega arith))
          ∙ ap (λ out. ok (true, out))
              (rw (size, drop_exact 32 (env.platform.fresh 32) room) (append-nil pubkey)))

  -- A key of 32 bytes that stands in hexadecimal is read, and a NUL is written behind it.
  pub pubkey_at-Value :
      (t : Token) (w : World) (pubkey : Bytes) (v : Value w.buffer t (env.platform.to_hex pubkey))
      → AllBytes pubkey
      → length pubkey ≡ 32
      → pubkey_at env t w ≡ ok (pubkey, ended w v.last)
  unfolding pubkey_at
  pubkey_at-Value t w pubkey v bytes size =
      resume-ok _ (terminate-Value t w _ v)
      ∙ resume-ok _ (ap (keep_world (ended w v.last)) (decode_key t w pubkey v bytes size))

sub_length : (a b n : ℕ) → a + n ≡ b → pos b -ℤ pos a ≡ pos n
unfolding ◌-ℤ◌
sub_length a b n h = ground arith

pub size_of-Value :
    (buf : Bytes) (t : Token) (text : Bytes) (v : Value buf t text) → size_of t ≡ pos (length text)
size_of-Value buf t text v =
    rw (v.starts, v.stops)
      (sub_length v.first v.last (length text) (omega (arith, v.stands.starts, v.stands.stops)))

pub span_at-Value :
    (t : Token) (w : World) (text : Bytes) (v : Value w.buffer t text) → span_at t w ≡ ok (text, w)
unfolding span_at
span_at-Value t w text v =
    let copied : slice w.buffer (pos v.first) (length text) ≡ ok text =
      ap (λ b. slice b (pos v.first) (length text)) v.stands.split
      ∙ rw (← v.stands.starts)
          (slice-append v.stands.before text (v.stands.last ∷ v.stands.after)) in
    rw (size_of-Value w.buffer t text v, v.starts) (ap (keep_world w) copied)

module _ (env : Env) (lawful : IsLawful env.platform) where
  pub length-chain_text :
      (b : Bytes)
      → 8 ≤ length b
      → length (env.platform.to_hex (take 8 b) ++ drop 8 b) ≡ length b + 8
  length-chain_text b h = omega (
    arith,
    length-append {0} (env.platform.to_hex (take 8 b)) (drop 8 b),
    lawful.length-to_hex (take 8 b),
    length-take_8 env.platform lawful b h,
    length-drop {0} 8 b,
  )

  decode_chain_id :
      (t : Token) (w : World) (b : Bytes)
      (v : Value w.buffer t (env.platform.to_hex (take 8 b) ++ drop 8 b))
      → AllBytes b
      → 8 ≤ length b
      → string_chain_id_to_bytes env.platform (set w.buffer v.last 0) t.start (size_of t) ≡ ok b
  decode_chain_id t w b v bytes size =
      let h = v.stands in
      let span : v.first + (length b + 8) ≡ v.last =
        omega (arith, h.starts, h.stops, length-chain_text b size) in
      rw
        (
          v.starts,
          v.stops,
          sub_length v.first v.last (length b + 8) span,
          set_end-split w.buffer _ _ 0 _ h,
          ← h.starts,
        )
        (string_chain_id_to_bytes-eq env.platform lawful h.before b (0 ∷ h.after) bytes size)

  pub string_chain_id_at-Value :
      (t : Token) (w : World) (b : Bytes)
      (v : Value w.buffer t (env.platform.to_hex (take 8 b) ++ drop 8 b))
      → AllBytes b
      → 8 ≤ length b
      → string_chain_id_at env t w ≡ ok (b, ended w v.last)
  unfolding string_chain_id_at
  string_chain_id_at-Value t w b v bytes size =
      resume-ok _ (terminate-Value t w _ v)
      ∙ ap (keep_world (ended w v.last)) (decode_chain_id t w b v bytes size)

-- A printed number that stands in the text is parsed from there.
pub parse_number-HasText :
    (buf : Bytes) (i j : ℕ) (n : ℤ) (h : HasText buf i j (show_ℤ n))
    → is_digit h.last ≡ false
    → parse_number (drop i buf) ≡ some n
parse_number-HasText buf i j n h stop =
    ap (λ b. parse_number (drop i b)) h.split
    ∙ rw (← h.starts, drop-append h.before (show_ℤ n ++ h.last ∷ h.after))
        (parse_number-show_ℤ n h.last h.after stop)

-- what atoi makes of a number
abbrev pub as_int : ℤ → ℤ
as_int i = to_int32 (clamp_int64 i)

pub int_at-show_ℤ :
    (t : Token) (w : World) (i : ℤ) (v : Value w.buffer t (show_ℤ i))
    → is_digit v.stands.last ≡ false
    → int_at t w ≡ ok (as_int i, w)
unfolding int_at
int_at-show_ℤ t w i v stop = rw (v.starts, parse_number-HasText w.buffer _ _ i v.stands stop) refl

abbrev pub IsInt32 : ℤ → Type 0
IsInt32 (pos n) = n < 2 ^ 31
IsInt32 (negsuc n) = n < 2 ^ 31

to_int32-IsInt32 : (i : ℤ) → IsInt32 i → to_int32 (clamp_int64 i) ≡ i
unfolding to_int32 clamp_int64
to_int32-IsInt32 (pos n) h = rw (lt→ltb n (2 ^ 63) (omega arith)) (ground arith)
to_int32-IsInt32 (negsuc n) h = rw (lt→ltb n (2 ^ 63) (omega arith)) (ground arith)

-- A printed number of 32 bits that no digit follows is read as itself.
pub int_at-IsInt32 :
    (t : Token) (w : World) (i : ℤ) (v : Value w.buffer t (show_ℤ i))
    → is_digit v.stands.last ≡ false
    → IsInt32 i
    → int_at t w ≡ ok (i, w)
int_at-IsInt32 t w i v stop fits =
    int_at-show_ℤ t w i v stop ∙ ap (λ j. ok (j, w)) (to_int32-IsInt32 i fits)
