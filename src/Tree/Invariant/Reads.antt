-- ===== src/Tree/Invariant/Reads.antt =====
-- The steps of the usecase that only read, and what the load of a parent folder finds.
use nagisa.Prelude.{
  ℕ, zero, suc, ◌+◌, ◌≡◌, refl, sym, ◌∙◌, ap, Bool, true, false, not, ◌&&◌, some, List, [], ◌∷◌,
  Text, ◌⊎◌, inl, inr, Bool-cases, text_eq, ◌==◌, ==_iff, is_empty, any,
}
use nagisa.Prelude.{slash, codes, trim_space, byte_len, ◌||◌}
use nagisa.Prelude.Int.{ℤ, pos, negsuc, ltb_ℤ}
use nagisa.Errors.{Error, Result, ok, err}
use nagisa.Perm.{ConflictPolicy, is_folder_kind, is_trashed_status, has, perm_upload}
use nagisa.Access.{Uuid, Caller, Node}
use nagisa.Store.{
  Platform, Db, Tx, ◌>>=◌, continue, find_node, find_node_by_id, next_available_name, next_name,
  name_loop, candidate, name_rounds, list_nodes,
}
use nagisa.Store.Rows.{bind_ok, guard_ok, if_ok, pure_ok, find_node_by_id_ok}
use nagisa.Tree.Config.{NodeUsecase}
use nagisa.Tree.Chain.{load_writable_parent, writable_folder, root_node, evaluate}
use nagisa.Tree.Naming.{
  parent_location, is_forbidden, normalize_name, resolve_name, pick_name, is_rename,
}

pub false_of_not : {b : Bool} → not b ≡ true → b ≡ false
false_of_not {b = true} h = cc
false_of_not {b = false} h = refl

-- The tables are as before, whatever comes back.
abbrev pub IsRead {ℓ} : {A : Type ℓ} → Tx A → Type 0
IsRead m = (db : Db) → (m db).1 ≡ db

module _ {ℓ κ} {A : Type ℓ} {B : Type κ} where
  pub continue-IsRead :
      (f : A → Tx B) → ((a : A) → IsRead (f a)) → (r : Result A × Db) → (continue f r).1 ≡ r.1
  continue-IsRead f fs (ok a, db) = fs a db
  continue-IsRead f fs (err e, db) = refl

  pub bind-IsRead :
      (m : Tx A) (f : A → Tx B) → IsRead m → ((a : A) → IsRead (f a)) → IsRead (m >>= f)
  bind-IsRead m f ms fs db = continue-IsRead f fs (m db) ∙ ms db

module _ (platform : Platform) where
  name_loop-IsRead :
      (rounds i : ℕ) (base ext : Text) (taken : List Text)
      → IsRead (name_loop platform rounds i base ext taken)
  unfolding name_loop
  name_loop-IsRead zero i base ext taken db = refl
  name_loop-IsRead (suc rounds) i base ext taken db =
      elim (Bool-cases (any (text_eq (platform.to_lower (candidate platform base ext i))) taken)) [
        | inl t ↦ rw t (name_loop-IsRead rounds (i + 1) base ext taken db)
        | inr f ↦ rw f
      ]

  next_name-IsRead :
      (rounds : ℕ) (parent_id : Uuid) (name : Text)
      → IsRead (next_name platform rounds parent_id name)
  unfolding next_name
  next_name-IsRead rounds parent_id name db = name_loop-IsRead rounds 1 _ _ _ db

  pub next_available_name-IsRead :
      (parent_id : Uuid) (name : Text) → IsRead (next_available_name platform parent_id name)
  unfolding next_available_name
  next_available_name-IsRead parent_id name = next_name-IsRead (name_rounds platform) parent_id name

  pick_name-IsRead :
      (parent_id : Uuid) (name : Text) (policy : ConflictPolicy) (existing : List Node)
      → IsRead (pick_name platform parent_id name policy existing)
  unfolding pick_name
  pick_name-IsRead parent_id name policy existing db = elim (Bool-cases (is_empty existing)) [
    | inl free ↦ rw free
    | inr taken ↦ elim (Bool-cases (is_rename policy)) [
      | inl renames ↦ rw (taken, renames) (next_available_name-IsRead parent_id name db)
      | inr fails ↦ rw (taken, fails)
    ]
  ]

  pub resolve_name-IsRead :
      (parent_id : Uuid) (name : Text) (policy : ConflictPolicy) (exclude : Uuid)
      → IsRead (resolve_name platform parent_id name policy exclude)
  unfolding resolve_name list_nodes
  resolve_name-IsRead parent_id name policy exclude db = pick_name-IsRead parent_id name policy _ db

-- A parent that was loaded for writing: the virtual root, or a live folder of the tables.
abbrev pub IsParent : Uuid → Db → Node → Type 0
IsParent target db p =
    ((target ≡ 0) × (p ≡ root_node))
    ⊎ ((find_node target db ≡ some p)
        × (is_folder_kind p.kind ≡ true)
        × (is_trashed_status p.status ≡ false))

module _ (platform : Platform) (uc : NodeUsecase) (c : Caller) (target : Uuid) (db : Db) where
  writable_folder_ok :
      {p : Node} {mid : Db}
      → writable_folder platform uc c target db ≡ (ok p, mid)
      → IsParent target db p × (db ≡ mid)
  unfolding writable_folder
  writable_folder_ok e = bind_ok (find_node_by_id target) db e λ q db₁ found e₁.
      find_node_by_id_ok target db found λ at_q same.
        guard_ok (is_folder_kind q.kind) Error.invalid_argument _ db₁ e₁ λ folder e₂.
          guard_ok (not (is_trashed_status q.status)) Error.invalid_argument _ db₁ e₂ λ live e₃.
            guard_ok (not (evaluate platform uc c q db₁).locked) Error.node_locked _ db₁ e₃
              λ open_q e₄.
                guard_ok (has (evaluate platform uc c q db₁).perms perm_upload)
                  Error.permission_denied _ db₁ e₄
                  λ may e₅. pure_ok e₅ λ same_p same_mid. (
                    inr (
                      at_q ∙ ap some same_p,
                      ap (λ r. is_folder_kind r.kind) (sym same_p) ∙ folder,
                      ap (λ r. is_trashed_status r.status) (sym same_p) ∙ false_of_not live,
                    ),
                    same ∙ same_mid,
                  )

  pub load_writable_parent_ok :
      {p : Node} {mid : Db}
      → load_writable_parent platform uc c target db ≡ (ok p, mid)
      → IsParent target db p × (db ≡ mid)
  unfolding load_writable_parent
  load_writable_parent_ok e =
      if_ok (target == 0) _ _ db e
        (λ top h. pure_ok h λ p m. (inl ((==_iff target 0).0 top, sym p), m))
        (λ inner h. writable_folder_ok h)

pub normalize_name_ok :
    {name : Text} {after : Db} (platform : Platform) (uc : NodeUsecase) (raw : Text) (db : Db)
    → normalize_name platform uc raw db ≡ (ok name, after)
    → db ≡ after
unfolding normalize_name
normalize_name_ok platform uc raw db e =
    let name = trim_space raw in
    guard_ok (not (is_empty name || text_eq name (codes ".") || text_eq name (codes "..")))
      Error.invalid_argument _ db e
      λ _ e₁. guard_ok (not (any is_forbidden name)) Error.invalid_argument _ db e₁ λ _ e₂.
        guard_ok (not (ltb_ℤ uc.max_name (pos (byte_len name)))) Error.invalid_argument _ db e₂
          λ _ e₃. pure_ok e₃ λ _ same. same

-- Where `parentLocation` reads the path and depth: the root level, or a live folder.
abbrev pub IsLocation : Uuid → Db → Text × ℤ → Type 0
IsLocation target db at =
    ((target ≡ 0) × ((slash ∷ [], negsuc 0) ≡ at))
    ⊎ ((p : Node) × ((find_node target db ≡ some p)
          × (is_folder_kind p.kind ≡ true)
          × (is_trashed_status p.status ≡ false)
          × ((p.path, p.depth) ≡ at)))

pub parent_location_ok :
    {at : Text × ℤ} {after : Db} (platform : Platform) (target : Uuid) (db : Db)
    → parent_location platform target db ≡ (ok at, after)
    → IsLocation target db at × (db ≡ after)
unfolding parent_location
parent_location_ok platform target db e =
    if_ok (target == 0) _ _ db e
      (λ top h. pure_ok h λ same m. (inl ((==_iff target 0).0 top, same), m))
      (λ inner h. bind_ok (find_node_by_id target) db h λ p db₁ found h₁.
        find_node_by_id_ok target db found λ at_p same.
          guard_ok (is_folder_kind p.kind && not (is_trashed_status p.status))
            Error.invalid_argument _ db₁ h₁
            λ fine h₂. pure_ok h₂ λ here m.
              (inr (p, (at_p, (both fine).0, false_of_not (both fine).1, here)), same ∙ m))
  where
    both : {a b : Bool} → (a && b) ≡ true → (a ≡ true) × (b ≡ true)
    both {a = true} e = (refl, e)
    both {a = false} e = cc
