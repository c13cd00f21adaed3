-- ===== src/Db/Chains/Laws.antt =====
-- What following and leaving a chain, and a chain's blocks, run: src/util/db_util.cpp.
use tau_shell.Prelude.{◌≡◌, Bool-cases, [], ◌∷◌, Bytes, ◌++◌, append_assoc, inl, inr, if◌then◌else◌}
use tau_shell.Fault.{ok}
use tau_shell.Hex.{Platform}
use tau_shell.Db.Model.{Engine, Sql}
use tau_shell.Db.Chains.{delete_community_sql, delete_members_sql, db_unfollow_chain}

module _ (p : Platform) (e : Engine) where
  -- Leaving a chain deletes the community, and where that is accepted its members too.
  pub db_unfollow_chain_lem :
      (chain_id : Bytes) (s : Sql)
      → let community = delete_community_sql p e chain_id in
        let deleted = e.exec_ok s.statements community in
        db_unfollow_chain p e chain_id s
        ≡ ok (
          deleted,
          record s {
            statements =
                s.statements
                ++ (community ∷ (if deleted then delete_members_sql p e chain_id ∷ [] else []));
          },
        )
  unfolding db_unfollow_chain
  db_unfollow_chain_lem chain_id s =
      elim (Bool-cases (e.exec_ok s.statements (delete_community_sql p e chain_id))) [
        | inl deleted ↦ rw deleted (rw (append_assoc s.statements))
        | inr refused ↦ rw refused
      ]
