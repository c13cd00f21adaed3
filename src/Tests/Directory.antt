-- ===== src/Tests/Directory.antt =====
-- Sequences of operations on the accounts of src/rpc/auth.cpp.
use tau_shell.Prelude.{ℕ, ◌≡◌, refl, some, none, List, [], ◌∷◌, Bytes, codes}
use tau_shell.Prelude.Int.{pos}
use tau_shell.Auth.{
  init, find_user, users, password_hash, draw_salt, full_permissions, read_only_permissions,
}
use tau_shell.Auth.Directory.{
  Op, add, remove, set, run, replay, initial, admits, is_some, find_user-run,
}
use tau_shell.Auth.Order.{IsSorted, listed, users-run}
use tau_shell.Tests.Auth.{sha1}

abbrev rand : ℕ → ℕ
rand n = 0

abbrev ops : List Op
ops =
    add rand (codes "guest") (codes "secret") (pos 1)
    ∷ add rand (codes "admin") (codes "longer") (pos 0)
    ∷ remove (codes "guest")
    ∷ set (pos 0) (some read_only_permissions)
    ∷ add rand (codes "admin") (codes "other") (pos 2)
    ∷ set (pos 2) (some full_permissions)
    ∷ []

find_user-run_example :
    find_user sha1 (run sha1 ops init) (codes "admin") (codes "other")
    ≡ admits sha1 (replay ops initial) (codes "admin") (codes "other")
find_user-run_example = find_user-run sha1 ops (codes "admin") (codes "other")

admin_admitted :
    admits sha1 (replay ops initial) (codes "admin") (codes "other") ≡ some full_permissions
unfolding password_hash draw_salt
admin_admitted = refl

guest_refused : admits sha1 (replay ops initial) (codes "guest") (codes "secret") ≡ none
guest_refused = refl

users-run_example :
    IsSorted (users (run sha1 ops init))
    × ((u : Bytes)
        → listed u (users (run sha1 ops init)) ≡ is_some ((replay ops initial).entries u))
users-run_example = users-run sha1 ops
