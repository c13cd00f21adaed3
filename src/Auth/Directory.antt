-- ===== src/Auth/Directory.antt =====
-- What src/rpc/auth.cpp promises of any sequence of its operations: a directory of users as a function,
-- which forgets hashes, the order of the map and the vector of groups.
use tau_shell.Prelude.{
  ℕ, zero, suc, Bool-cases, ◌≡◌, refl, ap, ◌∙◌, Bool, true, false, Option, none, some, List, [],
  ◌∷◌, Bytes, bytes_eq, bytes_eq_iff, arith, if◌then◌else◌, Option-cases, inl, inr,
}
use tau_shell.Prelude.Int.{ℤ, pos, negsuc, ltb_ℤ}
use tau_shell.Table.{lookup, lookup-insert, lookup-erase}
use tau_shell.Auth.{
  Permissions, Account, Auth, init, draw_salt, password_hash, add_account, find_user,
  remove_account, group_permissions, set_group, salt_for, full_permissions, read_only_permissions,
}
use tau_shell.Auth.Accounts.{same_group, group_permissions-set_group}

-- A user's password, in clear, with the salt that was drawn when the user was first added.
pub record Entry : Type 0 where
  pub salt : Bytes
  pub password : Bytes
  pub group : ℤ

pub record Directory : Type 0 where
  pub entries : Bytes → Option Entry
  pub groups : ℤ → Option Permissions

pub data Op : Type 0 where
  add : (rand : ℕ → ℕ) → (user pwd : Bytes) → (group : ℤ) → Op
  remove : (user : Bytes) → Op
  set : (group : ℤ) → Option Permissions → Op

abbrev pub entry_salt : Option Entry → (ℕ → ℕ) → Bytes
entry_salt none rand = draw_salt 10 rand
entry_salt (some e) rand = e.salt

-- The same operations on a directory.
abbrev pub replay_op : Op → Directory → Directory
replay_op (add rand user pwd group) d = record d {
  entries = λ u.
      if bytes_eq user u
      then some (record { salt = entry_salt (d.entries user) rand; password = pwd; group = group })
      else d.entries u;
}
replay_op (remove user) d = record d {
  entries = λ u. if bytes_eq user u then none else d.entries u;
}
replay_op (set g perms) d = record d {
  groups =
      λ h. if ltb_ℤ g (pos 0) then d.groups h else if same_group g h then perms else d.groups h;
}

abbrev pub replay : List Op → Directory → Directory
replay [] d = d
replay (op ∷ ops) d = replay ops (replay_op op d)

abbrev pub initial : Directory
initial = record {
  entries = λ u. none;
  groups = λ g.
      if same_group (pos 0) g
      then some full_permissions
      else if same_group (pos 1) g
      then some read_only_permissions
      else none;
}

abbrev pub is_some {ℓ} : {A : Type ℓ} → Option A → Bool
is_some none = false
is_some (some a) = true

module _ (sha1 : Bytes → Bytes) where
  abbrev admit : Directory → Bytes → Entry → Option Permissions
  admit d password e =
      if bytes_eq (password_hash sha1 e.salt password) (password_hash sha1 e.salt e.password)
      then d.groups e.group
      else none

  abbrev pub admits : Directory → Bytes → Bytes → Option Permissions
  admits d username password = elim (d.entries username) [
    | none ↦ none
    | some e ↦ admit d password e
  ]

  abbrev pub run_op : Op → Auth → Auth
  run_op (add rand user pwd group) a = add_account sha1 rand user pwd group a
  run_op (remove user) a = remove_account user a
  run_op (set g perms) a = set_group g perms a

  abbrev pub run : List Op → Auth → Auth
  run [] a = a
  run (op ∷ ops) a = run ops (run_op op a)

  abbrev stored : Option Entry → Option Account
  stored none = none
  stored (some e) =
      some (record { hash = password_hash sha1 e.salt e.password; salt = e.salt; group = e.group })

  is_some-stored : (o : Option Entry) → is_some (stored o) ≡ is_some o
  is_some-stored none = refl
  is_some-stored (some e) = refl

  record Refines (a : Auth) (d : Directory) : Type 0 where
    accounts : (u : Bytes) → lookup u a.accounts ≡ stored (d.entries u)
    groups : (g : ℤ) → group_permissions a.groups g ≡ d.groups g

  salt_for-stored :
      (o : Option Entry) (rand : ℕ → ℕ) → salt_for sha1 (stored o) rand ≡ entry_salt o rand
  salt_for-stored none rand = refl
  salt_for-stored (some e) rand = refl

  add-Refines :
      (rand : ℕ → ℕ) (user pwd : Bytes) (group : ℤ) (a : Auth) (d : Directory) (u : Bytes)
      → Refines a d
      → lookup u (add_account sha1 rand user pwd group a).accounts
        ≡ stored ((replay_op (add rand user pwd group) d).entries u)
  unfolding add_account
  add-Refines rand user pwd group a d u r =
      let salt : salt_for sha1 (lookup user a.accounts) rand ≡ entry_salt (d.entries user) rand =
        ap (λ o. salt_for sha1 o rand) (r.accounts user) ∙ salt_for-stored (d.entries user) rand in
      rw salt (
        rw lookup-insert (elim (Bool-cases (bytes_eq user u)) [
          | inl same ↦ rw same
          | inr other ↦ rw other (r.accounts u)
        ]))

  remove-Refines :
      (user : Bytes) (a : Auth) (d : Directory) (u : Bytes)
      → Refines a d
      → lookup u (remove_account user a).accounts ≡ stored ((replay_op (remove user) d).entries u)
  unfolding remove_account
  remove-Refines user a d u r = elim (Bool-cases (bytes_eq user u)) [
    | inl same ↦ rw same (
        ground (
          arith,
          (bytes_eq_iff user u).0 same,
          lookup-erase user u a.accounts,
          bytes_eq_iff user u,
        ))
    | inr other ↦ rw other (ground (arith, r.accounts u, lookup-erase user u a.accounts))
  ]

  remove_account-groups : (user : Bytes) (a : Auth) → (remove_account user a).groups ≡ a.groups
  unfolding remove_account
  remove_account-groups user a = ground arith

  set_group-accounts :
      (g : ℤ) (perms : Option Permissions) (a : Auth) → (set_group g perms a).accounts ≡ a.accounts
  unfolding set_group
  set_group-accounts (negsuc n) perms a = refl
  set_group-accounts (pos n) perms a = refl

  run_op-Refines :
      (op : Op) (a : Auth) (d : Directory) → Refines a d → Refines (run_op op a) (replay_op op d)
  unfolding add_account
  run_op-Refines (add rand user pwd group) a d r = record {
    accounts = λ u. add-Refines rand user pwd group a d u r;
    groups = r.groups;
  }
  run_op-Refines (remove user) a d r = record {
    accounts = λ u. remove-Refines user a d u r;
    groups = λ g. rw (remove_account-groups user a) (r.groups g);
  }
  run_op-Refines (set g perms) a d r = record {
    accounts = λ u. rw (set_group-accounts g perms a) (r.accounts u);
    groups = λ h. group_permissions-set_group g h perms a ∙ rw (r.groups h) refl;
  }

  run-Refines :
      (ops : List Op) (a : Auth) (d : Directory) → Refines a d → Refines (run ops a) (replay ops d)
  run-Refines [] a d r = r
  run-Refines (op ∷ ops) a d r =
      run-Refines ops (run_op op a) (replay_op op d) (run_op-Refines op a d r)

  init-groups : (g : ℤ) → group_permissions init.groups g ≡ initial.groups g
  unfolding group_permissions
  init-groups (negsuc n) = refl
  init-groups (pos zero) = refl
  init-groups (pos (suc zero)) = refl
  init-groups (pos (suc (suc n))) = ground arith

  init-Refines : Refines init initial
  unfolding lookup
  init-Refines = record { accounts = λ u. refl; groups = init-groups }

  find_user-Refines :
      (a : Auth) (d : Directory) (username password : Bytes)
      → Refines a d
      → find_user sha1 a username password ≡ admits d username password
  unfolding find_user
  find_user-Refines a d username password r = elim (Option-cases (d.entries username)) [
    | inl missing ↦ ground (arith, missing, r.accounts username)
    | inr (e, there) ↦ ground (arith, there, r.accounts username, r.groups e.group)
  ]

  pub lookup-run :
      (ops : List Op) (u : Bytes)
      → is_some (lookup u (run ops init).accounts) ≡ is_some ((replay ops initial).entries u)
  lookup-run ops u =
      ap is_some ((run-Refines ops init initial init-Refines).accounts u)
      ∙ is_some-stored ((replay ops initial).entries u)

  -- From a new auth, any sequence of `add_account`, `remove_account` and `set_group` leaves accounts and
  -- groups in which `find_user` answers, for every user and password, as the directory does to which
  -- the same was done.
  pub find_user-run :
      (ops : List Op) (username password : Bytes)
      → find_user sha1 (run ops init) username password
        ≡ admits (replay ops initial) username password
  find_user-run ops username password =
      find_user-Refines (run ops init) (replay ops initial) username password
        (run-Refines ops init initial init-Refines)
