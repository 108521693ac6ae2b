-- ===== src/Tree/Invariant/Trashing.antt =====
-- `DeleteNodes` into the trash keeps the tree invariant.
use nagisa.Prelude.{ℕ, ◌≡◌, refl, sym, ap, subst, not, List, [], ◌∷◌, is_empty}
use nagisa.Errors.{Error, ok}
use nagisa.Perm.{perm_delete, has}
use nagisa.Access.{Uuid, Caller, is_authenticated}
use nagisa.Store.{Platform, IsStandard, Db, with_tx, with_tx_keeps, find_node_by_id}
use nagisa.Store.Rows.{guard_keeps, bind_ok, guard_ok, pure_ok, find_node_by_id_ok}
use nagisa.Tree.Config.{NodeUsecase}
use nagisa.Tree.Chain.{evaluate}
use nagisa.Tree.Trash.{trash_one, trash_loop, trash_nodes}
use nagisa.Tree.Shapes.{IsTree}
use nagisa.Tree.Shapes.Status.{trashed-IsTree}
use nagisa.Tree.Invariant.{shapes, segments, IsWellFormed}
use nagisa.Tree.Invariant.Writes.{shapes-set_subtree_status}
use nagisa.Tree.Invariant.Reads.{continue-IsRead}

module _ (platform : Platform) (std : IsStandard platform) (uc : NodeUsecase) (c : Caller) where
  abbrev IsKept : Db → Type 0
  IsKept = IsWellFormed platform std

  trash_one_keeps :
      {out : ℕ} {after : Db} (now : ℕ) (id : Uuid) (db : Db)
      → IsKept db
      → trash_one platform uc c now id db ≡ (ok out, after)
      → IsKept after
  unfolding trash_one
  trash_one_keeps now id db wf e = bind_ok (find_node_by_id id) db e λ node db₁ found e₁.
      find_node_by_id_ok id db found λ at_id same.
        let access = evaluate platform uc c node db₁ in
        guard_ok (not access.locked) Error.node_locked _ db₁ e₁ λ unlocked e₂.
          guard_ok (has access.perms perm_delete) Error.permission_denied _ db₁ e₂ λ may e₃.
            subst IsKept (ap (λ r. r.1) e₃) (
              subst (IsTree (segments platform std))
                (sym (shapes-set_subtree_status node now db₁).0)
                (trashed-IsTree _ (shapes db₁) (subst IsKept same wf) node.path))

  trash_loop_keeps :
      {out : ℕ} {after : Db} (now : ℕ) (ids : List Uuid) (db : Db)
      → IsKept db
      → trash_loop platform uc c now ids db ≡ (ok out, after)
      → IsKept after
  unfolding trash_loop
  trash_loop_keeps now [] db wf e = pure_ok e λ p q. subst IsKept q wf
  trash_loop_keeps now (id ∷ ids) db wf e =
      bind_ok (trash_one platform uc c now id) db e λ out db₁ one e₁.
        bind_ok (trash_loop platform uc c now ids) db₁ e₁ λ rest db₂ loop e₂. pure_ok e₂ λ p q.
          subst IsKept q (trash_loop_keeps now ids db₁ (trash_one_keeps now id db wf one) loop)

  -- Whether it succeeds or fails, `DeleteNodes` into the trash leaves a well-formed tree well formed: in
  -- particular, what lies in a trashed folder is trashed.
  pub trash_nodes_keeps :
      (now : ℕ) (ids : List Uuid) (db : Db)
      → IsKept db
      → IsKept (trash_nodes platform uc c now ids db).1
  unfolding trash_nodes
  trash_nodes_keeps now ids db wf =
      guard_keeps IsKept (is_authenticated c) Error.unauthenticated _ db wf (
        guard_keeps IsKept (not (is_empty ids)) Error.invalid_argument _ db wf (
          subst IsKept
            (sym (
              continue-IsRead (λ affected db'. (ok (ids, affected), db')) (λ a d. refl)
                (with_tx (trash_loop platform uc c now ids) db)))
            (with_tx_keeps IsKept (trash_loop platform uc c now ids) db wf
              λ out after e. trash_loop_keeps now ids db wf e)))
