-- ===== src/Tree/Invariant/Creating.antt =====
-- `CreateFolder` keeps the tree invariant.
use native.Mathlib.Decide.{ℕ_discrete}
use nagisa.Prelude.{
  codes, trim_space, byte_len, ◌||◌, any, is_empty, text_eq, ℕ, ◌+◌, ◌<◌, ◌≤◌, ◌≡◌, refl, sym, ◌∙◌,
  ap, subst, inl, inr, not, Option, none, some, [], ◌∷◌, ◌++◌, Text, slash, arith, Option-cases,
  ends_with_slash,
}
use nagisa.Prelude.Int.{pos, ◌+ℤ◌, leb_ℤ, ltb_ℤ}
use nagisa.Errors.{Error, ok}
use nagisa.Perm.{perm_upload}
use nagisa.Access.{Uuid, nil_id, Caller, Node, is_authenticated, require}
use nagisa.Store.{
  or_error, Platform, IsStandard, Db, with_tx, with_tx_keeps, create_node, add_usage,
}
use nagisa.Store.Rows.{map_option, guard_keeps, bind_keeps, bind_ok, guard_ok}
use nagisa.Tree.Config.{NodeUsecase}
use nagisa.Tree.Chain.{load_writable_parent}
use nagisa.Tree.Naming.{is_forbidden, child_path, normalize_name, resolve_name}
use nagisa.Tree.Folders.{
  CreateFolderInput, new_id, new_folder, set_entries, create_folder_tx, create_folder,
}
use nagisa.Tree.Shapes.{Shape, IsTree}
use nagisa.Tree.Shapes.Restoring.{IsLive}
use nagisa.Tree.Shapes.Growth.{grown, grown-IsTree}
use nagisa.Tree.Invariant.{shape_of, shapes, segments, IsWellFormed}
use nagisa.Tree.Invariant.Reads.{
  IsParent, load_writable_parent_ok, resolve_name-IsRead, normalize_name_ok,
}
use nagisa.Tree.Invariant.Places.{child_path-append, path_ends, root_depth, root_ends}
use nagisa.Tree.Invariant.Aside.{
  shapes_of_nodes, shapes-create_node, row_of, IsAside, set_entries_rest, add_usage_rest,
}

module _ (platform : Platform) where
  -- Every row was given an identifier that has been minted.
  abbrev pub IsMinted : Db → Type 0
  IsMinted db = (i : Uuid) (r : Shape) → shapes db i ≡ some r → i < platform.minted db.next

  -- An identifier that was minted and that no row has.
  abbrev pub IsFree : Db → Uuid → Type 0
  IsFree db id = (shapes db id ≡ none) × (0 < id) × (id < platform.minted db.next)

  module _ (std : IsStandard platform) (uc : NodeUsecase) (c : Caller) where
    abbrev IsKept : Db → Type 0
    IsKept db = IsWellFormed platform std db × IsMinted db

    minted_le : (m n : ℕ) → m ≤ n → platform.minted m ≤ platform.minted n
    minted_le m n le = elim (ℕ_discrete m n) [
      | yes same ↦ rw same (omega arith)
      | no other ↦ let less = std.minted_grows m n (omega arith) in omega arith
    ]

    pub reshaped_keeps :
        (db after : Db) → shapes after ≡ shapes db → db.next ≤ after.next → IsKept db → IsKept after
    reshaped_keeps db after same grows (wf, minted) = (
      subst (IsTree (segments platform std)) (sym same) wf,
      λ i r e.
          let old = minted i r (ap (λ s. s i) (sym same) ∙ e) in
          let more = minted_le db.next after.next grows in omega arith,
    )

    pub aside_keeps : (db after : Db) → IsAside db after → IsKept db → IsKept after
    aside_keeps db after (same, grows) kept =
        reshaped_keeps db after (shapes_of_nodes db after same) grows kept

    parent-IsLive :
        (db : Db)
        → IsWellFormed platform std db
        → (target : Uuid) (p : Node) (id : Uuid) → IsParent target db p
        → IsLive (shapes db) target p.path p.depth
          × (child_path platform p.path id ≡ p.path ++ (platform.uuid_text id ++ slash ∷ []))
    unfolding shapes
    parent-IsLive db wf target p id (inl (top, root)) = (
      inl (top, ap (λ r. r.path) root, ap (λ r. r.depth +ℤ pos 1) root ∙ root_depth),
      child_path-append platform std uc p.path id
          (ap (λ r. ends_with_slash r.path) root ∙ root_ends),
    )
    parent-IsLive db wf target p id (inr (found, folder, live)) =
        let at_p : shapes db target ≡ some (shape_of p) = ap (map_option shape_of) found in
        (
          inr (shape_of p, (at_p, folder, live, refl, refl)),
          child_path-append platform std uc p.path id
              (path_ends platform std uc db wf target (shape_of p) at_p),
        )

    pub minted-IsFree :
        (db : Db)
        → IsMinted db
        → (shapes db (platform.minted db.next) ≡ none) × (0 < platform.minted db.next)
    minted-IsFree db minted = (
      elim (Option-cases (shapes db (platform.minted db.next))) [
        | inl free ↦ free
        | inr (r, taken) ↦
            let less = minted (platform.minted db.next) r taken in absurd (omega arith)
      ],
      std.minted_pos db.next,
    )

    -- A new row under a parent that was loaded.
    pub insert_keeps :
        (n p : Node) (db next : Db)
        → IsKept db
        → IsAside db next
        → IsParent n.parent_id db p
        → shapes db n.id ≡ none
        → 0 < n.id
        → n.id < platform.minted next.next
        → n.path ≡ child_path platform p.path n.id
        → n.depth ≡ p.depth +ℤ pos 1
        → IsKept (create_node n next).1
    unfolding create_node segments
    insert_keeps n p db next (wf, minted) (same_nodes, later) parent fresh some_id known at_path
          at_depth =
        let (live, path_eq) = parent-IsLive db wf n.parent_id p n.id parent in
        let same : shapes next ≡ shapes db = shapes_of_nodes db next same_nodes in
        let all : shapes (create_node n next).1 ≡ grown (shape_of n) (shapes db) =
          shapes-create_node n next (ap (λ s. s n.id) same ∙ fresh)
          ∙ ap (grown (shape_of n)) same in
        let more = minted_le db.next next.next later in
        (
          subst (IsTree (segments platform std)) (sym all) (
              grown-IsTree _ (shapes db) wf (shape_of n) fresh some_id p.path p.depth live
                (at_path ∙ path_eq) at_depth),
          λ j r e.
              row_of (shape_of n) (shapes db) j r (ap (λ s. s j) (sym all) ∙ e)
                (λ here. rw here known) (λ old. let less = minted j r old in omega arith),
        )

    -- A new folder, with the next identifier.
    insert_folder_keeps :
        (i : CreateFolderInput) (name : Text) (p : Node) (db : Db)
        → IsKept db
        → IsParent i.parent_id db p
        → IsKept
            (create_node
              (new_folder platform uc c i (platform.minted db.next) name p)
              (record db { next = db.next + 1 })).1
    unfolding new_folder
    insert_folder_keeps i name p db kept parent =
        let (fresh, some_id) = minted-IsFree db kept.1 in
        insert_keeps (new_folder platform uc c i (platform.minted db.next) name p) p db _ kept
          (refl, omega arith) parent fresh some_id
          (std.minted_grows db.next (db.next + 1) (omega arith)) refl refl

    create_folder_tx_keeps :
        {out : Node} {after : Db} (i : CreateFolderInput) (name : Text) (db : Db)
        → IsKept db
        → create_folder_tx platform uc c i name db ≡ (ok out, after)
        → IsKept after
    unfolding create_folder_tx new_id create_node
    create_folder_tx_keeps {after = after} i name db kept e =
        bind_ok (load_writable_parent platform uc c i.parent_id) db e λ p db₁ loads e₁.
          let (parent, same) = load_writable_parent_ok platform uc c i.parent_id db loads in
          guard_ok (not (leb_ℤ uc.max_depth (p.depth +ℤ pos 1))) Error.invalid_argument _ db₁ e₁
            λ shallow e₂.
              bind_ok (resolve_name platform i.parent_id name i.policy nil_id) db₁ e₂
                λ final_name db₂ named e₃.
                  let same₂ : db ≡ db₂ =
                    same
                    ∙ sym (resolve_name-IsRead platform i.parent_id name i.policy nil_id db₁)
                    ∙ ap (λ r. r.1) named in
                  let grown_db =
                    create_node (new_folder platform uc c i (platform.minted db₂.next) final_name p)
                      (record db₂ { next = db₂.next + 1 }) in
                  bind_ok
                    (set_entries platform uc c
                      (new_folder platform uc c i (platform.minted db₂.next) final_name p).id i.acl)
                    grown_db.1 e₃
                    λ u db₃ sets e₄.
                      bind_ok (add_usage c.user_id (pos 0) (pos 0) (pos 1)) db₃ e₄
                        λ v db₄ counts e₅. subst IsKept (ap (λ r. r.1) e₅) (
                          aside_keeps db₃ db₄
                            (add_usage_rest platform c.user_id (pos 0) (pos 0) (pos 1) db₃ counts)
                            (aside_keeps _ db₃ (set_entries_rest platform uc c _ i.acl _ sets) (
                              insert_folder_keeps i final_name p db₂ (subst IsKept same₂ kept)
                                (subst (λ d. IsParent i.parent_id d p) same₂ parent))))

    normalize_name_keeps :
        (raw : Text) (db : Db) → IsKept db → IsKept (normalize_name platform uc raw db).1
    unfolding normalize_name
    normalize_name_keeps raw db kept =
        let name = trim_space raw in
        guard_keeps IsKept
          (not (is_empty name || text_eq name (codes ".") || text_eq name (codes "..")))
          Error.invalid_argument _ db kept
          (guard_keeps IsKept (not (any is_forbidden name)) Error.invalid_argument _ db kept (
            guard_keeps IsKept (not (ltb_ℤ uc.max_name (pos (byte_len name))))
              Error.invalid_argument _ db kept kept))

    or_error_reads : (o : Option Error) (db : Db) → (or_error o db).1 ≡ db
    or_error_reads none db = refl
    or_error_reads (some e) db = refl

    -- Whether it succeeds or fails, `CreateFolder` leaves a well-formed tree, in which every row has an
    -- identifier that was minted, in that state.
    pub create_folder_keeps :
        (i : CreateFolderInput) (db : Db)
        → IsWellFormed platform std db
        → IsMinted db
        → let after = (create_folder platform uc c i db).1 in
          IsWellFormed platform std after × IsMinted after
    unfolding create_folder
    create_folder_keeps i db wf minted =
        let kept : IsKept db = (wf, minted) in
        guard_keeps IsKept (is_authenticated c) Error.unauthenticated _ db kept (
          bind_keeps IsKept (or_error (require c perm_upload)) _ db
            (subst IsKept (sym (or_error_reads _ db)) kept)
            λ u db₁ checked.
              let kept₁ = subst IsKept (sym (or_error_reads _ db) ∙ ap (λ r. r.1) checked) kept in
              bind_keeps IsKept (normalize_name platform uc i.name) _ db₁
                (normalize_name_keeps i.name db₁ kept₁)
                λ name db₂ normal.
                  let kept₂ =
                    subst IsKept (normalize_name_ok platform uc i.name db₁ normal) kept₁ in
                  let done =
                    with_tx_keeps IsKept (create_folder_tx platform uc c i name) db₂ kept₂
                      (λ out after e. create_folder_tx_keeps i name db₂ kept₂ e) in
                  bind_keeps IsKept (with_tx (create_folder_tx platform uc c i name)) _ db₂ done
                    (λ out after e. subst IsKept (ap (λ r. r.1) e) done))
