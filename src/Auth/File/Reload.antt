-- ===== src/Auth/File/Reload.antt =====
-- A saved account file, read back: src/rpc/auth.cpp, save_accounts and load_accounts.
pub mod Scan
use Scan.{
  NoSpace, AllVisible-NoSpace, skip_spaces_space, skip_spaces_word, scan_word_word, scan_int-show_ℤ,
  skip_spaces-show_ℤ,
}
use tau_shell.Prelude.{
  zeros, ℕ, zero, suc, ◌+◌, ◌*◌, ◌^◌, ◌≤◌, ◌<◌, ◌≡◌, ◌≢◌, refl, ◌∙◌, ap, Bool, true, false, Option,
  none, some, List, [], ◌∷◌, ◌++◌, append-nil, Bytes, length, take, drop, bytes_eq, bytes_eq_iff,
  arith, if◌then◌else◌, length-append,
}
use tau_shell.Prelude.Int.{ℤ, pos}
use tau_shell.Fault.{ok}
use tau_shell.Memory.Laws.{NoNul, take-append}
use tau_shell.Text.{is_space, skip_spaces, show_ℤ}
use tau_shell.Hex.{Platform, IsLawful, AllBytes}
use tau_shell.Table.{lookup, insert, lookup-insert}
use tau_shell.Auth.{Account, Auth, find_user}
use tau_shell.Auth.File.{
  c_str, account_line, account_lines, save_accounts, Line, scan_line, scan_word, scan_chars,
  hex_span, load_line, load_lines, load_accounts, tab, newline,
}

-- An account that the file format can hold: its user is a word of at most 511 bytes, and its group
-- fits in an int and is not negative.
pub record IsStorable (user : Bytes) (a : Account) : Type 0 where
  pub filled : user ≢ []
  pub no_space : NoSpace user
  pub no_nul : NoNul user
  pub short : length user ≤ 511
  pub hash_size : length a.hash ≡ 20
  pub hash_bytes : AllBytes a.hash
  pub salt_size : length a.salt ≡ 10
  pub salt_bytes : AllBytes a.salt
  pub number : ℕ
  pub in_range : number < 2 ^ 31
  pub group : a.group ≡ pos number

abbrev pub AllStorable : List (Bytes × Account) → Type 0
AllStorable [] = Unit
AllStorable ((user, a) ∷ m) = IsStorable user a × AllStorable m

-- A map holds a key once.
abbrev pub NodupKeys : List (Bytes × Account) → Type 0
NodupKeys [] = Unit
NodupKeys ((user, a) ∷ m) = (lookup user m ≡ none) × NodupKeys m

pub lookup-nil : (k : Bytes) → lookup {V = Account} k [] ≡ none
unfolding lookup
lookup-nil k = refl

scan_line-nil : scan_line [] ≡ none
unfolding scan_line scan_word scan_chars skip_spaces
scan_line-nil = refl

c_str_clean : (w : Bytes) → NoNul w → c_str w ≡ w
unfolding c_str
c_str_clean [] h = refl
c_str_clean (c ∷ w) (n, h) = ground (arith, c_str_clean w h)

abbrev insert_all : List (Bytes × Account) → List (Bytes × Account) → List (Bytes × Account)
insert_all [] acc = acc
insert_all ((user, a) ∷ m) acc = insert_all m (insert user a acc)

abbrev or_else : Option Account → Option Account → Option Account
or_else none old = old
or_else (some a) old = some a

lookup-insert_all :
    (m acc : List (Bytes × Account)) (k : Bytes)
    → NodupKeys m
    → lookup k (insert_all m acc) ≡ or_else (lookup k m) (lookup k acc)
unfolding lookup
lookup-insert_all [] acc k h = refl
lookup-insert_all ((user, a) ∷ m) acc k (fresh, h) =
    lookup-insert_all m (insert user a acc) k h
    ∙ ground (arith, lookup-insert user k a acc, bytes_eq_iff user k)

drop_all : (n : ℕ) (xs : Bytes) → length xs ≤ n → drop n xs ≡ []
drop_all zero [] h = refl
drop_all (suc n) [] h = refl
drop_all zero (x ∷ xs) h = elim h [ ]
drop_all (suc n) (x ∷ xs) h = drop_all n xs (omega arith)

ne_nil : (w : Bytes) (n : ℕ) → length w ≡ n + 1 → w ≢ []
ne_nil w n h e = absurd (omega (arith, ap (length {A = ℕ}) e))

module _ (p : Platform) (lawful : IsLawful p) where
  scan_line-account_line :
      (user : Bytes) (a : Account) (rest : Bytes)
      → IsStorable user a
      → scan_line (account_line p user a rest)
        ≡ some (
          record {
            username = user;
            pwdhash = p.to_hex a.hash;
            salt = p.to_hex a.salt;
            group = a.group;
          },
          skip_spaces rest,
        )
  unfolding scan_line account_line
  scan_line-account_line user a rest s =
      let hash = p.to_hex a.hash in
      let salt = p.to_hex a.salt in
      let hash_len : length hash ≡ 40 = omega (arith, lawful.length-to_hex a.hash, s.hash_size) in
      let salt_len : length salt ≡ 20 = omega (arith, lawful.length-to_hex a.salt, s.salt_size) in
      let hash_word = AllVisible-NoSpace hash (lawful.to_hex-AllVisible a.hash) in
      let salt_word = AllVisible-NoSpace salt (lawful.to_hex-AllVisible a.salt) in
      let hash_ne = ne_nil hash 39 hash_len in
      let salt_ne = ne_nil salt 19 salt_len in
      rw (c_str_clean user s.no_nul, scan_word_word 511 user 9 _ s.short s.filled s.no_space refl)
        (rw (skip_spaces_space 9 (hash ++ _) refl, skip_spaces_word hash _ hash_ne hash_word)
          (rw (scan_word_word 40 hash 9 _ (omega arith) hash_ne hash_word refl) (
            rw (skip_spaces_space 9 (salt ++ _) refl, skip_spaces_word salt _ salt_ne salt_word)
              (rw (scan_word_word 20 salt 9 _ (omega arith) salt_ne salt_word refl) (
                rw
                  (
                    s.group,
                    skip_spaces_space 9 (show_ℤ (pos s.number) ++ _) refl,
                    skip_spaces-show_ℤ,
                  )
                  (rw (scan_int-show_ℤ s.number 10 rest s.in_range refl)
                    (rw (skip_spaces_space 10 rest refl))))))))

  -- A word of the expected length is decoded whole, into an array of the expected size.
  from_hex-hex_span :
      (b out : Bytes) (n : ℕ)
      → AllBytes b
      → length b ≡ n
      → length out ≡ n
      → p.from_hex (hex_span p (2 * n) (p.to_hex b)) out ≡ ok (true, b)
  from_hex-hex_span b out n bytes size room =
      let len : 2 * n ≡ length (p.to_hex b) = omega (arith, lawful.length-to_hex b) in
      rw len (
        rw (take-append (p.to_hex b) (0 ∷ p.fresh (length (p.to_hex b)))) (
          lawful.from_hex-to_hex b out bytes (omega arith)
          ∙ rw (drop_all (length b) out (omega arith), append-nil)))

  load_line-insert :
      (user : Bytes) (a : Account) (accounts : List (Bytes × Account))
      → IsStorable user a
      → load_line p
          (record {
            username = user;
            pwdhash = p.to_hex a.hash;
            salt = p.to_hex a.salt;
            group = a.group;
          })
          accounts
        ≡ ok (insert user a accounts)
  unfolding load_line
  load_line-insert user a accounts s = ground (
    arith,
    c_str_clean user s.no_nul,
    from_hex-hex_span a.hash (zeros 20) 20 s.hash_bytes s.hash_size refl,
    from_hex-hex_span a.salt (p.fresh 10) 10 s.salt_bytes s.salt_size (lawful.length-fresh 10),
  )

  skip_spaces-account_lines :
      (m : List (Bytes × Account))
      → AllStorable m
      → skip_spaces (account_lines p m) ≡ account_lines p m
  unfolding account_lines account_line
  skip_spaces-account_lines [] h = unfold skip_spaces in refl
  skip_spaces-account_lines ((user, a) ∷ m) (s, h) =
      rw (c_str_clean user s.no_nul) (skip_spaces_word user _ s.filled s.no_space)

  length-account_lines : (m : List (Bytes × Account)) → length m ≤ length (account_lines p m)
  unfolding account_lines account_line
  length-account_lines [] = omega arith
  length-account_lines ((user, a) ∷ m) = omega (arith, length-append {0}, length-account_lines m)

  load_lines-account_lines :
      (m acc : List (Bytes × Account)) (fuel : ℕ)
      → AllStorable m
      → length m < fuel
      → load_lines p fuel (account_lines p m) acc ≡ ok (insert_all m acc)
  unfolding load_lines account_lines
  load_lines-account_lines m acc zero h lt = elim lt [ ]
  load_lines-account_lines [] acc (suc fuel) h lt = rw (scan_line-nil, load_lines)
  load_lines-account_lines ((user, a) ∷ m) acc (suc fuel) (s, h) lt =
      rw (scan_line-account_line user a (account_lines p m) s, load_lines)
        (rw (load_line-insert user a acc s, skip_spaces-account_lines m h)
          (load_lines-account_lines m (insert user a acc) fuel h (omega arith)))

  -- Saving accounts that the format can hold and loading the file succeeds, and afterwards every user
  -- is found, or not, as before the save; the groups are those of the object that loads.
  pub load_accounts-save_accounts :
      (sha1 : Bytes → Bytes) (a b : Auth) (username password : Bytes)
      → AllStorable a.accounts
      → NodupKeys a.accounts
      → (b' : Auth) × (load_accounts p (save_accounts p true a) b ≡ ok (true, b'))
        × (find_user sha1 b' username password
            ≡ find_user sha1 (record a { groups = b.groups }) username password)
  unfolding load_accounts save_accounts find_user
  load_accounts-save_accounts sha1 a b username password h nodup = (
    record b { accounts = insert_all a.accounts [] },
    ground (
      arith,
      load_lines-account_lines a.accounts [] (suc (length (account_lines p a.accounts))) h
          (omega (arith, length-account_lines a.accounts)),
    ),
    ground (arith, lookup-insert_all a.accounts [] username nodup, lookup-nil username),
  )
