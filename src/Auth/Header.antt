-- ===== src/Auth/Header.antt =====
-- parse_http_auth of src/rpc/auth.cpp: the user of a request, from its authorization header.
use tau_shell.Prelude.{
  ℕ, suc, ◌+◌, ◌*◌, ◌≤◌, ◌≡◌, ◌≢◌, refl, ◌||◌, Option, none, some, [], ◌∷◌, ◌++◌, Bytes, codes,
  length, length-append, drop, ltb, ◌==◌, arith, if◌then◌else◌,
}
use tau_shell.Fault.{Res, ok, fault, out_of_range, ◌>>=◌}
use tau_shell.Text.{strcasestr}
use tau_shell.Base64.{base64decode, base64decode_fits}
use tau_shell.Auth.{Auth, Permissions, find_user}

-- while (*authorization == ' ' || *authorization == '\t') ++authorization
unfoldable pub skip_blanks : Bytes → Bytes
skip_blanks [] = []
skip_blanks (c ∷ cs) = let rest = skip_blanks cs in if c == 32 || c == 9 then rest else c ∷ cs

-- cred.substr(0, cred.find_first_of(':')), which is all of it if there is no colon
unfoldable pub before_colon : Bytes → Bytes
before_colon [] = []
before_colon (c ∷ cs) = let rest = before_colon cs in if c == b':' then [] else c ∷ rest

-- cred.substr(at), which throws behind the end
unfoldable pub substr : Bytes → ℕ → Res Bytes
substr s at = if ltb (length s) at then fault out_of_range else ok (drop at s)

module _ (decode_block : Bytes → Bytes) where
  -- `user` and `pwd`, which are empty if no "basic " stands in the header
  unfoldable pub credentials : Option Bytes → Res (Bytes × Bytes)
  credentials none = ok ([], [])
  credentials (some authorization) = elim (strcasestr authorization (codes "basic ")) [
    | none ↦ ok ([], [])
    | some scheme ↦ (do
      cred ← base64decode decode_block (skip_blanks (drop 6 scheme))
      pwd ← substr cred (length (before_colon cred) + 1)
      ok (before_colon cred, pwd))
  ]

module _ (decode_block : Bytes → Bytes) (sha1 : Bytes → Bytes) where
  -- `authorization` is what mg_get_header finds, `none` for NULL.
  unfoldable pub parse_http_auth : Option Bytes → Auth → Res (Option Permissions)
  parse_http_auth authorization auth = do
    (user, pwd) ← credentials decode_block authorization
    ok (find_user sha1 auth user pwd)

abbrev pub NoColon : Bytes → Type 0
NoColon [] = Unit
NoColon (c ∷ cs) = (c ≢ b':') × NoColon cs

before_colon-append : (user pwd : Bytes) → NoColon user → before_colon (user ++ b':' ∷ pwd) ≡ user
unfolding before_colon
before_colon-append [] pwd h = refl
before_colon-append (c ∷ user) pwd (n, h) = ground (arith, before_colon-append user pwd h)

drop_past : (user pwd : Bytes) → drop (length user + 1) (user ++ b':' ∷ pwd) ≡ pwd
drop_past [] pwd = refl
drop_past (c ∷ user) pwd =
    let e : suc (length user) + 1 ≡ suc (length user + 1) = omega arith in rw e (drop_past user pwd)

before_colon-NoColon : (cred : Bytes) → NoColon cred → before_colon cred ≡ cred
unfolding before_colon
before_colon-NoColon [] h = refl
before_colon-NoColon (c ∷ cs) (n, h) = ground (arith, before_colon-NoColon cs h)

-- user and password of the decoded text
abbrev split_cred : Bytes → Res (Bytes × Bytes)
split_cred cred =
    ◌>>=◌ {B = Bytes × Bytes} (substr cred (length (before_colon cred) + 1))
      (λ pwd. ok (before_colon cred, pwd))

split_cred-colon :
    (user pwd : Bytes) → NoColon user → split_cred (user ++ b':' ∷ pwd) ≡ ok (user, pwd)
unfolding substr
split_cred-colon user pwd plain =
    rw (before_colon-append user pwd plain)
      (ground (arith, drop_past user pwd, length-append user (b':' ∷ pwd)))

split_cred-NoColon : (cred : Bytes) → NoColon cred → split_cred cred ≡ fault out_of_range
unfolding substr
split_cred-NoColon cred plain = rw (before_colon-NoColon cred plain) (ground arith)

module _ (decode_block : Bytes → Bytes)
    (bound : (s : Bytes) → 4 * length (decode_block s) ≤ 3 * length s) where
  credentials-basic :
      (text : Bytes)
      → 4 ≤ length text
      → skip_blanks text ≡ text
      → credentials decode_block (some (codes "Basic " ++ text)) ≡ split_cred (decode_block text)
  unfolding credentials strcasestr
  credentials-basic text size tight =
      rw (tight, base64decode_fits decode_block text (bound text)) (ground arith)

  module _ (sha1 : Bytes → Bytes) where
    -- A header "Basic " with the encoded text of `user:password` behind it asks for the permissions
    -- of that user with that password, where the password may hold colons and the user may not.
    pub parse_http_auth-find_user :
        (text user pwd : Bytes) (auth : Auth)
        → 4 ≤ length text
        → skip_blanks text ≡ text
        → decode_block text ≡ user ++ b':' ∷ pwd
        → NoColon user
        → parse_http_auth decode_block sha1 (some (codes "Basic " ++ text)) auth
          ≡ ok (find_user sha1 auth user pwd)
    unfolding parse_http_auth
    parse_http_auth-find_user text user pwd auth size tight decoded plain =
        rw (credentials-basic text size tight) (rw decoded (rw (split_cred-colon user pwd plain)))

    -- If no colon stands in the decoded text, taking the password behind it throws.
    pub parse_http_auth-NoColon :
        (text : Bytes) (auth : Auth)
        → 4 ≤ length text
        → skip_blanks text ≡ text
        → NoColon (decode_block text)
        → parse_http_auth decode_block sha1 (some (codes "Basic " ++ text)) auth
          ≡ fault out_of_range
    unfolding parse_http_auth
    parse_http_auth-NoColon text auth size tight plain =
        rw (credentials-basic text size tight) (rw (split_cred-NoColon (decode_block text) plain))
