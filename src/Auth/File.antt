-- ===== src/Auth/File.antt =====
-- save_accounts and load_accounts of src/rpc/auth.cpp, with the parts of fprintf and fscanf that
-- they use. A file is its bytes, and a file that cannot be opened is `none`.
pub mod Reload
use tau_shell.Prelude.{
  zeros, ℕ, zero, suc, ◌+◌, ◌*◌, ◌-◌, Bool, true, false, Option, none, some, List, [], ◌∷◌, ◌++◌,
  Bytes, length, take, ltb, ◌==◌, if◌then◌else◌,
}
use tau_shell.Prelude.Int.{ℤ, pos, negsuc}
use tau_shell.Fault.{Res, ok, fault}
use tau_shell.Text.{is_space, is_digit, skip_spaces, clamp_int64, to_int32, negate, show_ℤ}
use tau_shell.Hex.{Platform}
use tau_shell.Table.{insert}
use tau_shell.Auth.{Account, Auth}

abbrev pub tab : ℕ
tab = 9

abbrev pub newline : ℕ
newline = 10

-- `%s` of a std::string's c_str(), and the std::string that is made of a char array: up to a NUL
unfoldable pub c_str : Bytes → Bytes
c_str [] = []
c_str (c ∷ cs) = let rest = c_str cs in if c == 0 then [] else c ∷ rest

module _ (p : Platform) where
  -- "%s\t%s\t%s\t%d\n", in front of the lines after it
  unfoldable pub account_line : Bytes → Account → Bytes → Bytes
  account_line user a rest =
      c_str user
      ++ (tab
          ∷ (p.to_hex a.hash
              ++ (tab ∷ (p.to_hex a.salt ++ (tab ∷ (show_ℤ a.group ++ (newline ∷ rest)))))))

  unfoldable pub account_lines : List (Bytes × Account) → Bytes
  account_lines [] = []
  account_lines ((user, a) ∷ more) = account_line user a (account_lines more)

  -- The file that a run leaves; `none` if it could not be opened, which `ec` then says.
  unfoldable pub save_accounts : Bool → Auth → Option Bytes
  save_accounts false a = none
  save_accounts true a = some (account_lines a.accounts)

-- At most `width` bytes up to white space, and the rest.
unfoldable pub scan_chars : ℕ → Bytes → Bytes × Bytes
scan_chars zero s = ([], s)
scan_chars (suc width) [] = ([], [])
scan_chars (suc width) (c ∷ cs) =
    let (word, rest) = scan_chars width cs in if is_space c then ([], c ∷ cs) else (c ∷ word, rest)

abbrev pub not_empty : Bytes × Bytes → Option (Bytes × Bytes)
not_empty ([], rest) = none
not_empty (c ∷ word, rest) = some (c ∷ word, rest)

-- `%511s`: white space is passed by, and an empty word ends the scan.
unfoldable pub scan_word : ℕ → Bytes → Option (Bytes × Bytes)
scan_word width s = not_empty (scan_chars width (skip_spaces s))

unfoldable pub scan_digits : ℕ → Bytes → ℕ × Bytes
scan_digits acc [] = (acc, [])
scan_digits acc (c ∷ cs) =
    let more = scan_digits (acc * 10 + (c - 48)) cs in if is_digit c then more else (acc, c ∷ cs)

abbrev pub starts_number : Bytes → Bool
starts_number [] = false
starts_number (c ∷ cs) = is_digit c

-- the digits behind a sign; with none there the scan ends
abbrev pub scan_unsigned : (ℕ → ℤ) → Bytes → Option (ℤ × Bytes)
scan_unsigned sign s =
    if starts_number s
    then (let (n, rest) = scan_digits 0 s in some (to_int32 (clamp_int64 (sign n)), rest))
    else none

abbrev pub scan_signed : Bytes → Option (ℤ × Bytes)
scan_signed [] = none
scan_signed (c ∷ cs) =
    if c == b'-'
    then scan_unsigned negate cs
    else if c == b'+'
    then scan_unsigned pos cs
    else scan_unsigned pos (c ∷ cs)

-- `%d`
unfoldable pub scan_int : Bytes → Option (ℤ × Bytes)
scan_int s = scan_signed (skip_spaces s)

-- What a line gives: the user, the two hexadecimal words, the group.
pub record Line : Type 0 where
  pub username : Bytes
  pub pwdhash : Bytes
  pub salt : Bytes
  pub group : ℤ

infixl 5 ◌>>=◌
abbrev ◌>>=◌ {ℓ κ} : {A : Type ℓ} {B : Type κ} → Option A → (A → Option B) → Option B
none >>= f = none
some a >>= f = f a

-- fscanf(f, "%511s\t%40s\t%20s\t%d\n") == 4, and the rest of the file
unfoldable pub scan_line : Bytes → Option (Line × Bytes)
scan_line s = do
  (username, s₁) ← scan_word 511 s
  (pwdhash, s₂) ← scan_word 40 (skip_spaces s₁)
  (salt, s₃) ← scan_word 20 (skip_spaces s₂)
  (group, s₄) ← scan_int (skip_spaces s₃)
  some (
    record { username = username; pwdhash = pwdhash; salt = salt; group = group },
    skip_spaces s₄,
  )

module _ (p : Platform) where
  -- The `n` characters that from_hex is given of an array in which `word` was read; behind its NUL
  -- stands what was there before.
  abbrev pub hex_span : ℕ → Bytes → Bytes
  hex_span n word = take n (word ++ (0 ∷ p.fresh n))

  -- One round of the loop: the account is kept if both words are hexadecimal and the group is not
  -- negative.
  unfoldable pub load_line : Line → List (Bytes × Account) → Res (List (Bytes × Account))
  load_line l accounts = elim (p.from_hex (hex_span 40 l.pwdhash) (zeros 20)) [
    | fault e ↦ fault e
    | ok (false, hash) ↦ ok accounts
    | ok (true, hash) ↦ (elim (p.from_hex (hex_span 20 l.salt) (p.fresh 10)) [
      | fault e ↦ fault e
      | ok (false, salt) ↦ ok accounts
      | ok (true, salt) ↦ (elim l.group [
        | negsuc n ↦ ok accounts
        | pos g ↦ ok (
            insert (c_str l.username) (record { hash = hash; salt = salt; group = l.group })
              accounts)
      ])
    ])
  ]

  -- Each round reads a line, so the length of the file bounds the rounds.
  unfoldable pub load_lines : ℕ → Bytes → List (Bytes × Account) → Res (List (Bytes × Account))
  load_lines zero s accounts = ok accounts
  load_lines (suc fuel) s accounts = elim (scan_line s) [
    | none ↦ ok accounts
    | some (l, rest) ↦ (elim (load_line l accounts) [
      | fault e ↦ fault e
      | ok accounts' ↦ load_lines fuel rest accounts'
    ])
  ]

  -- The answer says whether the file was opened; if not, the accounts stay.
  unfoldable pub load_accounts : Option Bytes → Auth → Res (Bool × Auth)
  load_accounts none a = ok (false, a)
  load_accounts (some s) a = elim (load_lines (suc (length s)) s []) [
    | fault e ↦ fault e
    | ok accounts ↦ ok (true, record a { accounts = accounts })
  ]
