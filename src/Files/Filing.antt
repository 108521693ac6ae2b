-- ===== src/Files/Filing.antt =====
-- `commitNode` of internal/biz/file.go and the tree: what it makes of a well-formed tree.
use nagisa.Prelude.{
  ◌≡◌, refl, sym, ◌∙◌, ap, subst, true, not, some, List, [], ◌∷◌, Text, Every, Every-keep,
  Every-take, Every-map, arith,
}
use nagisa.Prelude.Int.{pos, ◌+ℤ◌, ◌-ℤ◌, leb_ℤ}
use nagisa.Errors.{Error, ok}
use nagisa.Perm.{has, perm_edit}
use nagisa.Access.{Uuid, Caller, Node, is_file}
use nagisa.Store.{
  Platform, IsStandard, Db, Upload, find_node, create_node, update_node, add_usage,
  next_available_name, list_nodes, node_predicates, resolve_list_options, any_node, ListOption,
}
use nagisa.Store.Rows.{bind_ok, guard_ok, if_ok, pure_ok}
use nagisa.Tree.{evaluate, load_writable_parent}
use nagisa.Tree.Invariant.{shape_of, shapes, IsWellFormed, IsRow}
use nagisa.Tree.Invariant.Writes.{update_node_ok, shapes-update_node}
use nagisa.Tree.Invariant.Reads.{IsParent, load_writable_parent_ok, next_available_name-IsRead}
use nagisa.Tree.Invariant.Moves.{find-IsRow}
use nagisa.Tree.Invariant.Aside.{IsAside, shapes_of_nodes, add_usage_rest}
use nagisa.Tree.Invariant.Creating.{IsMinted, IsFree, insert_keeps, reshaped_keeps, aside_keeps}
use nagisa.Files.Limits.{FileUsecase}
use nagisa.Files.Quota.{check_quota_for, check_quota}
use nagisa.Files.Commit.{
  Content, keep_version, replaced, commit_replace, new_file, commit_new, commit_at, commit_node,
  is_overwrite, is_fail,
}
use nagisa.Files.Committing.{check_quota-IsRead, check_quota_for-IsRead, keep_version-IsOutcome}

-- The identifier is the primary key of the table.
abbrev pub IsKeyed : Db → Type 0
IsKeyed db = Every (λ n. find_node n.id db ≡ some n) db.nodes

module _ (platform : Platform) (std : IsStandard platform) (uc : FileUsecase) (c : Caller) where
  abbrev IsKept : Db → Type 0
  IsKept db = IsWellFormed platform std db × IsMinted platform db

  replaced-shape :
      (u : Upload) (content : Content) (n : Node)
      → shape_of (replaced platform uc c u content n) ≡ shape_of n
  unfolding replaced
  replaced-shape u content n = refl

  -- A row is written whose shape is that of the row.
  rewritten_keeps :
      (n saved row : Node) (db after : Db)
      → IsKept db
      → IsRow db row
      → shape_of n ≡ shape_of row
      → update_node n db ≡ (ok saved, after)
      → IsKept after
  rewritten_keeps n saved row db after kept at_row same saves =
      let at_n : IsRow db n = ap (λ q. shapes db q.id) same ∙ at_row ∙ ap some (sym same) in
      let (old, found, wrote) = update_node_ok n saved db after saves in
      let next : db.next ≡ after.next = ap (λ d. d.next) wrote in
      reshaped_keeps platform std uc.nodes c db after
        (shapes-update_node n saved db after at_n saves) (omega arith) kept

  commit_replace_keeps :
      {out : Node} {after : Db} (u : Upload) (content : Content) (existing : Node) (db : Db)
      → IsKept db
      → IsRow db existing
      → commit_replace platform uc c u content existing db ≡ (ok out, after)
      → IsKept after
  unfolding commit_replace
  commit_replace_keeps {after = after} u content existing db kept at_row e =
      let extra = pos content.size -ℤ pos existing.size in
      guard_ok (is_file existing) Error.name_conflict _ db e λ file e₁.
        guard_ok (has (evaluate platform uc.nodes c existing db).perms perm_edit)
          Error.permission_denied _ db e₁
          λ may e₂. bind_ok (check_quota_for existing.owner_id extra) db e₂ λ v db₁ fits e₃.
            bind_ok (keep_version platform uc c existing content.comment) db₁ e₃
              λ retained db₂ keeps e₄.
                let updated = replaced platform uc c u content retained in
                bind_ok (update_node updated) db₂ e₄ λ saved db₃ saves e₅.
                  bind_ok
                    (add_usage updated.owner_id (pos content.size -ℤ pos updated.size) (pos 0)
                      (pos 0))
                    db₃ e₅
                    λ w db₄ counts e₆. pure_ok e₆ λ p q.
                      let same₁ : db ≡ db₁ =
                        sym (check_quota_for-IsRead existing.owner_id extra db)
                        ∙ ap (λ r. r.1) fits in
                      let (rest, shaped) =
                        keep_version-IsOutcome platform uc c existing content.comment db₁ db₁
                          ((refl, omega arith), refl) in
                      let aside = subst (IsAside db₁) (ap (λ r. r.1) keeps) rest.0 in
                      let same_shape =
                        replaced-shape u content retained ∙ shaped retained db₂ keeps in
                      let at_two : IsRow db₂ existing =
                        ap (λ s. s existing.id) (shapes_of_nodes db₁ db₂ aside.0)
                        ∙ subst (λ d. IsRow d existing) same₁ at_row in
                      let kept₂ =
                        aside_keeps platform std uc.nodes c db₁ db₂ aside
                          (subst IsKept same₁ kept) in
                      subst IsKept q (
                        aside_keeps platform std uc.nodes c db₃ db₄
                          (add_usage_rest platform _ _ _ _ db₃ counts)
                          (rewritten_keeps updated saved existing db₂ db₃ kept₂ at_two same_shape
                            saves))

  commit_new_keeps :
      {out : Node} {after : Db} (u : Upload) (id : Uuid) (content : Content) (name : Text)
      (parent : Node) (db : Db)
      → IsKept db
      → IsFree platform db id
      → IsParent u.parent_id db parent
      → commit_new platform uc c u id content name parent db ≡ (ok out, after)
      → IsKept after
  unfolding commit_new new_file
  commit_new_keeps u id content name parent db kept (fresh, some_id, known) at_parent e =
      let file = new_file platform uc c u id content name parent in
      bind_ok (check_quota c (pos content.size)) db e λ v db₁ fits e₁.
        let same : db ≡ db₁ =
          sym (check_quota-IsRead c (pos content.size) db) ∙ ap (λ r. r.1) fits in
        bind_ok (create_node file) db₁ e₁ λ saved db₂ creates e₂.
          bind_ok (add_usage c.user_id (pos content.size) (pos 1) (pos 0)) db₂ e₂ λ w db₃ counts e₃.
            pure_ok e₃ λ p q.
              let made : IsKept (create_node file db).1 =
                insert_keeps platform std uc.nodes c file parent db db kept (refl, omega arith)
                  at_parent fresh some_id known refl refl in
              let kept₂ : IsKept db₂ =
                subst IsKept (ap (λ d. (create_node file d).1) same ∙ ap (λ r. r.1) creates) made in
              subst IsKept q (
                aside_keeps platform std uc.nodes c db₂ db₃
                  (add_usage_rest platform _ _ _ _ db₂ counts) kept₂)

  list_one_keyed :
      {found : List Node} {after : Db} (parent_id : Uuid) (name : Text) (db : Db)
      → IsKeyed db
      → list_nodes platform
          (record any_node { parent_id = some parent_id; names = name ∷ [] })
          (ListOption.list_limit (pos 1) ∷ [])
          db
        ≡ (ok found, after)
      → (db ≡ after) × Every (IsRow db) found
  unfolding list_nodes resolve_list_options
  list_one_keyed parent_id name db keyed e = pure_ok e λ same here.
      let query = record any_node { parent_id = some parent_id; names = name ∷ [] } in
      (
        here,
        subst (Every (IsRow db)) same (
            Every-map (λ n. find_node n.id db ≡ some n) (IsRow db)
              (λ n at_n. find-IsRow n.id db n at_n) _
              (Every-take _ 1 _ (
                Every-keep _ (λ _. true) _
                  (Every-keep _ (node_predicates platform query) db.nodes keyed)))),
      )

  commit_at_keeps :
      {out : Node} {after : Db} (u : Upload) (id : Uuid) (content : Content) (parent : Node)
      (found : List Node) (db : Db)
      → IsKept db
      → IsFree platform db id
      → IsParent u.parent_id db parent
      → Every (IsRow db) found
      → commit_at platform uc c u id content parent found db ≡ (ok out, after)
      → IsKept after
  unfolding commit_at
  commit_at_keeps u id content parent [] db kept free at_parent rows e =
      commit_new_keeps u id content u.name parent db kept free at_parent e
  commit_at_keeps u id content parent (existing ∷ rest) db kept free at_parent rows e =
      if_ok (is_overwrite u.policy) _ _ db e
        (λ over h. commit_replace_keeps u content existing db kept rows.0 h)
        (λ keeps h.
          if_ok (is_fail u.policy) _ _ db h (λ fails h₁. cc)
            (λ renames h₁.
              bind_ok (next_available_name platform u.parent_id u.name) db h₁ λ name db₁ named h₂.
                let same : db ≡ db₁ =
                  sym (next_available_name-IsRead platform u.parent_id u.name db)
                  ∙ ap (λ r. r.1) named in
                commit_new_keeps u id content name parent db₁ (subst IsKept same kept)
                  (subst (λ d. IsFree platform d id) same free)
                  (subst (λ d. IsParent u.parent_id d parent) same at_parent) h₂))

  pub commit_node_keeps :
      {out : Node} {after : Db} (u : Upload) (id : Uuid) (content : Content) (db : Db)
      → IsKept db
      → IsKeyed db
      → IsFree platform db id
      → commit_node platform uc c u id content db ≡ (ok out, after)
      → IsKept after
  unfolding commit_node
  commit_node_keeps u id content db kept keyed free e =
      bind_ok (load_writable_parent platform uc.nodes c u.parent_id) db e λ parent db₁ loads e₁.
        let (at_parent, same) = load_writable_parent_ok platform uc.nodes c u.parent_id db loads in
        guard_ok (not (leb_ℤ uc.nodes.max_depth (parent.depth +ℤ pos 1))) Error.invalid_argument _
          db₁ e₁
          λ shallow e₂.
            bind_ok
              (list_nodes platform
                (record any_node { parent_id = some u.parent_id; names = u.name ∷ [] })
                (ListOption.list_limit (pos 1) ∷ []))
              db₁ e₂
              λ found db₂ lists e₃.
                let (same₁, rows) =
                  list_one_keyed u.parent_id u.name db₁ (subst IsKeyed same keyed) lists in
                let here = same ∙ same₁ in
                commit_at_keeps u id content parent found db₂ (subst IsKept here kept)
                  (subst (λ d. IsFree platform d id) here free)
                  (subst (λ d. IsParent u.parent_id d parent) here at_parent)
                  (subst (λ d. Every (IsRow d) found) same₁ rows) e₃
