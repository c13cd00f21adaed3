-- ===== src/Memory.antt =====
-- Byte buffers as the C++ code uses them: bounds, pointers into them and NUL-terminated strings.
-- A position is an `int`, as in `jsmntok_t`, and may be negative.
pub mod Laws
use tau_shell.Prelude.{
  ℕ, zero, suc, ◌+◌, ◌≡◌, Option, none, some, List, [], ◌∷◌, Bytes, length, take, drop, set, ltb,
  leb, ◌==◌, if◌then◌else◌,
}
use tau_shell.Prelude.Int.{ℤ, pos, negsuc}
use tau_shell.Fault.{Res, ok, fault, out_of_bounds}

-- buf[i] = v
unfoldable pub store : Bytes → ℤ → ℕ → Res Bytes
store buf (negsuc n) v = fault out_of_bounds
store buf (pos n) v = if ltb n (length buf) then ok (set buf n v) else fault out_of_bounds

-- The bytes before the first NUL; `none` if there is no NUL.
unfoldable pub until_nul : Bytes → Option Bytes
until_nul [] = none
until_nul (c ∷ cs) =
    let rest = until_nul cs in
    if c == 0 then some [] else elim rest [ none ↦ none | some s ↦ some (c ∷ s) ]

abbrev pub or_out_of_bounds {ℓ} : {A : Type ℓ} → Option A → Res A
or_out_of_bounds none = fault out_of_bounds
or_out_of_bounds (some a) = ok a

-- The C string at buf + i, as `strcmp`, `%s` and `std::string(char const*)` read it.
unfoldable pub c_string : Bytes → ℤ → Res Bytes
unfolding until_nul
c_string buf (negsuc n) = fault out_of_bounds
c_string buf (pos n) = or_out_of_bounds (until_nul (drop n buf))

-- The n bytes at buf + i.
unfoldable pub slice : Bytes → ℤ → ℕ → Res Bytes
slice buf (negsuc i) n = fault out_of_bounds
slice buf (pos i) n =
    if leb (i + n) (length buf) then ok (take n (drop i buf)) else fault out_of_bounds
