-- ===== src/Auth.antt =====
-- src/rpc/auth.cpp and include/rpc/auth.hpp: the accounts of the RPC interface, their groups and
-- the permissions of a group (include/rpc/auth_interface.hpp). The mutex makes each operation one step.
pub mod Accounts
pub mod Directory
pub mod Order
pub mod File
pub mod Header
use tau_shell.Prelude.{
  ℕ, zero, suc, ◌+◌, ◌%◌, Bool, true, false, Option, none, some, List, [], ◌∷◌, ◌++◌, Bytes, length,
  bytes_eq, get_elem?, set, replicate, ltb, leb, if◌then◌else◌, map, ◌-◌,
}
use tau_shell.Prelude.Int.{ℤ, pos, negsuc}
use tau_shell.Table.{lookup, insert, erase, keys}

-- permissions_interface: what each of its methods answers, whatever the setting that it is asked for
pub record Permissions : Type 0 where
  pub allow_start : Bool
  pub allow_stop : Bool
  pub allow_recheck : Bool
  pub allow_set_file_prio : Bool
  pub allow_list : Bool
  pub allow_add : Bool
  pub allow_remove : Bool
  pub allow_remove_data : Bool
  pub allow_queue_change : Bool
  pub allow_get_settings : Bool
  pub allow_set_settings : Bool
  pub allow_get_data : Bool
  pub allow_session_status : Bool

abbrev pub no_permissions : Permissions
no_permissions = record {
  allow_start = false;
  allow_stop = false;
  allow_recheck = false;
  allow_set_file_prio = false;
  allow_list = false;
  allow_add = false;
  allow_remove = false;
  allow_remove_data = false;
  allow_queue_change = false;
  allow_get_settings = false;
  allow_set_settings = false;
  allow_get_data = false;
  allow_session_status = false;
}

abbrev pub read_only_permissions : Permissions
read_only_permissions = record no_permissions {
  allow_list = true;
  allow_get_settings = true;
  allow_get_data = true;
  allow_session_status = true;
}

abbrev pub full_permissions : Permissions
full_permissions = record {
  allow_start = true;
  allow_stop = true;
  allow_recheck = true;
  allow_set_file_prio = true;
  allow_list = true;
  allow_add = true;
  allow_remove = true;
  allow_remove_data = true;
  allow_queue_change = true;
  allow_get_settings = true;
  allow_set_settings = true;
  allow_get_data = true;
  allow_session_status = true;
}

-- account_t
pub record Account : Type 0 where
  pub hash : Bytes
  pub salt : Bytes
  pub group : ℤ

-- auth: `none` in `groups` is a NULL pointer
pub record Auth : Type 0 where
  pub accounts : List (Bytes × Account)
  pub groups : List (Option Permissions)

-- auth::auth, before it seeds the random numbers
abbrev pub init : Auth
init = record { accounts = []; groups = some full_permissions ∷ some read_only_permissions ∷ [] }

-- m_groups[g], where the code has tested that g is in range
unfoldable pub group_permissions : List (Option Permissions) → ℤ → Option Permissions
group_permissions groups (negsuc n) = none
group_permissions groups (pos n) = elim (get_elem? groups n) [ none ↦ none | some perms ↦ perms ]

-- vector::resize to a larger size
abbrev pub grow {ℓ} : {A : Type ℓ} → ℕ → A → List A → List A
grow n a xs = if ltb n (length xs) then xs else xs ++ replicate (n + 1 - length xs) a

-- A negative group is ignored; one past the end first grows the vector by NULLs.
unfoldable pub set_group : ℤ → Option Permissions → Auth → Auth
set_group (negsuc n) perms a = a
set_group (pos n) perms a = record a { groups = set (grow n none a.groups) n perms }

-- the draws of rand() for a salt, each cut to a char
unfoldable pub draw_salt : ℕ → (ℕ → ℕ) → Bytes
draw_salt zero rand = []
draw_salt (suc n) rand = (rand 0 % 256) ∷ draw_salt n (λ i. rand (suc i))

-- `sha1` is libTAU's hasher, over all that it was updated with.
module _ (sha1 : Bytes → Bytes) where
  unfoldable pub password_hash : Bytes → Bytes → Bytes
  password_hash salt [] = sha1 salt
  password_hash salt (c ∷ pwd) = sha1 (salt ++ (c ∷ pwd))

  -- An account that is there keeps its salt.
  abbrev pub salt_for : Option Account → (ℕ → ℕ) → Bytes
  salt_for none rand = draw_salt 10 rand
  salt_for (some old) rand = old.salt

  unfoldable pub add_account : (ℕ → ℕ) → Bytes → Bytes → ℤ → Auth → Auth
  add_account rand user pwd group a =
      let salt = salt_for (lookup user a.accounts) rand in
      record a {
        accounts =
            insert user (record { hash = password_hash salt pwd; salt = salt; group = group })
              a.accounts;
      }

  abbrev pub check_password : List (Option Permissions) → Bytes → Account → Option Permissions
  check_password groups password i =
      if bytes_eq (password_hash i.salt password) i.hash
      then group_permissions groups i.group
      else none

  unfoldable pub find_user : Auth → Bytes → Bytes → Option Permissions
  find_user a username password = elim (lookup username a.accounts) [
    | none ↦ none
    | some i ↦ check_password a.groups password i
  ]

unfoldable pub remove_account : Bytes → Auth → Auth
remove_account user a = elim (lookup user a.accounts) [
  | none ↦ a
  | some i ↦ record a { accounts = erase user a.accounts }
]

unfoldable pub users : Auth → List Bytes
users a = keys a.accounts
