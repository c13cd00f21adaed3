-- ===== src/Auth/Accounts.antt =====
-- Adding, removing and finding accounts of src/rpc/auth.cpp.
use tau_shell.Prelude.{
  ℕ, zero, suc, ◌+◌, ◌≡◌, refl, Bool, false, Option, none, some, List, [], ◌∷◌, ◌++◌, Bytes, length,
  bytes_eq, bytes_eq_iff, get_elem?, set, get_elem?-set_self, get_elem?-set_ne, length-append,
  length-replicate, replicate, ◌-◌, ◌<◌, ==_iff, Bool-cases, inl, inr, arith, if◌then◌else◌, ◌==◌,
}
use tau_shell.Prelude.Int.{ℤ, pos, negsuc, ltb_ℤ}
use tau_shell.Table.{lookup, lookup-insert, lookup-erase}
use tau_shell.Auth.{
  Permissions, Account, Auth, password_hash, add_account, find_user, remove_account,
  group_permissions, set_group, grow, salt_for,
}

module _ (sha1 : Bytes → Bytes) where
  -- After `add_account`, the user is let in with a password exactly if it hashes as the one that was
  -- set, with the salt that the account had or was given, and then has the permissions of the group;
  -- every other user is found as before.
  pub find_user-add_account :
      (rand : ℕ → ℕ) (user pwd : Bytes) (group : ℤ) (a : Auth) (username password : Bytes)
      → let salt = salt_for sha1 (lookup user a.accounts) rand in
        find_user sha1 (add_account sha1 rand user pwd group a) username password ≡ (
          if bytes_eq user username
          then (if bytes_eq (password_hash sha1 salt password) (password_hash sha1 salt pwd)
              then group_permissions a.groups group
              else none)
          else find_user sha1 a username password)
  unfolding find_user add_account
  find_user-add_account rand user pwd group a username password =
      let salt = salt_for sha1 (lookup user a.accounts) rand in
      let account : Account = record {
        hash = password_hash sha1 salt pwd;
        salt = salt;
        group = group;
      } in
      ground (arith, lookup-insert user username account a.accounts)

  -- After `remove_account` the user is not found with any password, and every other user as before.
  pub find_user-remove_account :
      (user : Bytes) (a : Auth) (username password : Bytes)
      → find_user sha1 (remove_account user a) username password
        ≡ (if bytes_eq user username then none else find_user sha1 a username password)
  unfolding find_user remove_account
  find_user-remove_account user a username password =
      ground (arith, lookup-erase user username a.accounts, bytes_eq_iff user username)

get_elem?-set :
    (xs : List (Option Permissions)) (n m : ℕ) (v : Option Permissions)
    → n < length xs
    → get_elem? (set xs n v) m ≡ (if n == m then some v else get_elem? xs m)
get_elem?-set xs n m v h = elim (Bool-cases (n == m)) [
  | inl same ↦ rw (same, ← ((==_iff n m).0 same)) (get_elem?-set_self xs n v h)
  | inr other ↦ rw other (get_elem?-set_ne xs v (ground arith))
]

-- A NULL that `resize` adds answers like a group that is not there.
group_permissions-replicate :
    (xs : List (Option Permissions)) (k m : ℕ)
    → group_permissions (xs ++ replicate k none) (pos m) ≡ group_permissions xs (pos m)
unfolding group_permissions
group_permissions-replicate [] zero m = refl
group_permissions-replicate [] (suc k) zero = refl
group_permissions-replicate [] (suc k) (suc m) = group_permissions-replicate [] k m
group_permissions-replicate (x ∷ xs) k zero = refl
group_permissions-replicate (x ∷ xs) k (suc m) = group_permissions-replicate xs k m

group_permissions-grow :
    (n m : ℕ) (xs : List (Option Permissions))
    → group_permissions (grow n none xs) (pos m) ≡ group_permissions xs (pos m)
group_permissions-grow n m xs = ground (arith, group_permissions-replicate xs (n + 1 - length xs) m)

length-grow : (n : ℕ) (xs : List (Option Permissions)) → n < length (grow n none xs)
length-grow n xs = ground (
  arith,
  length-append xs (replicate (n + 1 - length xs) none),
  length-replicate {0} {A = Option Permissions} (n + 1 - length xs) none,
)

group_permissions-set :
    (xs : List (Option Permissions)) (n m : ℕ) (perms : Option Permissions)
    → n < length xs
    → group_permissions (set xs n perms) (pos m)
      ≡ (if n == m then perms else group_permissions xs (pos m))
unfolding group_permissions
group_permissions-set xs n m perms h = ground (arith, get_elem?-set xs n m perms h)

abbrev pub same_group : ℤ → ℤ → Bool
same_group (pos n) (pos m) = n == m
same_group (negsuc n) (negsuc m) = n == m
same_group _ _ = false

-- `set_group` sets the permissions of its group and of no other; a negative group changes nothing.
pub group_permissions-set_group :
    (g h : ℤ) (perms : Option Permissions) (a : Auth)
    → group_permissions (set_group g perms a).groups h ≡ (
        if ltb_ℤ g (pos 0)
        then group_permissions a.groups h
        else if same_group g h
        then perms
        else group_permissions a.groups h)
unfolding set_group
group_permissions-set_group (negsuc n) h perms a = ground arith
group_permissions-set_group (pos n) (negsuc m) perms a = unfold group_permissions in ground arith
group_permissions-set_group (pos n) (pos m) perms a = ground (
  arith,
  group_permissions-set (grow n none a.groups) n m perms (length-grow n a.groups),
  group_permissions-grow n m a.groups,
)
