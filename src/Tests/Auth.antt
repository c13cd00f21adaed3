-- ===== src/Tests/Auth.antt =====
-- Accounts of src/rpc/auth.cpp, the header of a request, and the account file.
use tau_shell.Prelude.{
  ℕ, ◌*◌, ◌≤◌, ◌≡◌, refl, true, false, Bool-cases, ◌==◌, ◌||◌, inl, inr, none, some, [], ◌∷◌, ◌++◌,
  Bytes, codes, length, zeros, bytes_eq, bytes_eq_iff, arith, if◌then◌else◌,
}
use tau_shell.Prelude.Int.{pos}
use tau_shell.Fault.{ok}
use tau_shell.Table.{lookup}
use tau_shell.Auth.{Auth, init, group_permissions, salt_for, password_hash, add_account, find_user}
use tau_shell.Auth.Accounts.{find_user-add_account}
use tau_shell.Auth.Header.{skip_blanks, parse_http_auth, parse_http_auth-find_user}
use tau_shell.Auth.File.{load_accounts, save_accounts}
use tau_shell.Auth.File.Reload.{lookup-nil, IsStorable, load_accounts-save_accounts}
use tau_shell.Tests.Platform.{platform, lawful}

-- twenty bytes that tell the texts of these tests apart
abbrev pub sha1 : Bytes → Bytes
sha1 text = length text ∷ zeros 19

abbrev pub accounts : Auth
accounts = record init {
  accounts =
      (codes "tau-shell", record { hash = sha1 (zeros 16); salt = zeros 10; group = pos 0 }) ∷ [];
}

abbrev rand : ℕ → ℕ
rand i = i

find_user-add_account_example :
    let salt = salt_for sha1 (lookup (codes "guest") accounts.accounts) rand in
    find_user sha1
      (add_account sha1 rand (codes "guest") (codes "secret") (pos 1) accounts)
      (codes "guest")
      (codes "secret")
    ≡ (if bytes_eq (codes "guest") (codes "guest")
        then (if bytes_eq
              (password_hash sha1 salt (codes "secret"))
              (password_hash sha1 salt (codes "secret"))
            then group_permissions accounts.groups (pos 1)
            else none)
        else find_user sha1 accounts (codes "guest") (codes "secret"))
find_user-add_account_example =
    find_user-add_account sha1 rand (codes "guest") (codes "secret") (pos 1) accounts
      (codes "guest") (codes "secret")

-- "dDp0" is "t:t" in base64, and "dHR0" is "ttt".
abbrev pub decode_block : Bytes → Bytes
decode_block s =
    if bytes_eq s (codes "dDp0")
    then codes "t:t"
    else if bytes_eq s (codes "dHR0")
    then codes "ttt"
    else []

pub decode_bound : (s : Bytes) → 4 * length (decode_block s) ≤ 3 * length s
decode_bound s = elim (Bool-cases (bytes_eq s (codes "dDp0"))) [
  | inl e ↦ rw ((bytes_eq_iff s (codes "dDp0")).0 e) (ground arith)
  | inr other ↦ elim (Bool-cases (bytes_eq s (codes "dHR0"))) [
    | inl e ↦ rw ((bytes_eq_iff s (codes "dHR0")).0 e) (ground arith)
    | inr neither ↦ rw (other, neither) (omega arith)
  ]
]

no_blanks :
    {c : ℕ} {cs text : Bytes}
    → text ≡ c ∷ cs
    → (c == 32 || c == 9) ≡ false
    → skip_blanks text ≡ text
unfolding skip_blanks
no_blanks e h = rw e (rw h)

pub header_example :
    (auth : Auth)
    → parse_http_auth decode_block sha1 (some (codes "Basic " ++ codes "dDp0")) auth
      ≡ ok (find_user sha1 auth (codes "t") (codes "t"))
header_example auth =
    parse_http_auth-find_user decode_block decode_bound sha1 (codes "dDp0") (codes "t") (codes "t")
      auth (omega arith) (no_blanks refl refl) refl (ground arith)

parse_http_auth-find_user_example :
    parse_http_auth decode_block sha1 (some (codes "Basic " ++ codes "dDp0")) accounts
    ≡ ok (find_user sha1 accounts (codes "t") (codes "t"))
parse_http_auth-find_user_example =
    parse_http_auth-find_user decode_block decode_bound sha1 (codes "dDp0") (codes "t") (codes "t")
      accounts (omega arith) (no_blanks refl refl) refl (ground arith)

stored :
    IsStorable
      (codes "tau-shell")
      (record { hash = sha1 (zeros 16); salt = zeros 10; group = pos 0 })
stored = record {
  filled = ground arith;
  no_space = ground arith;
  no_nul = ground arith;
  short = omega arith;
  hash_size = refl;
  hash_bytes = ground arith;
  salt_size = refl;
  salt_bytes = ground arith;
  number = 0;
  in_range = omega arith;
  group = refl;
}

load_accounts-save_accounts_example :
    (b' : Auth) × (load_accounts platform (save_accounts platform true accounts) init
      ≡ ok (true, b'))
    × (find_user sha1 b' (codes "tau-shell") (codes "tester")
        ≡ find_user sha1
            (record accounts { groups = init.groups })
            (codes "tau-shell")
            (codes "tester"))
load_accounts-save_accounts_example =
    load_accounts-save_accounts platform lawful sha1 accounts init (codes "tau-shell")
      (codes "tester") (stored, tt) (lookup-nil (codes "tau-shell"), tt)
