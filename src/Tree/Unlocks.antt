-- ===== src/Tree/Unlocks.antt =====
-- `Unlock` of internal/biz/node.go: whose password it asks for.
mod Tests
use nagisa.Prelude.{
  ◌≡◌, refl, sym, ◌∙◌, ap, subst, Bool, true, false, not, Option, none, some, List, [], ◌∷◌, ◌++◌,
  Text, any, is_empty, if◌then◌else◌, Bool-cases, Option-cases, inl, inr, ◌==◌, arith,
}
use nagisa.Errors.{Error, Result, ok, err}
use nagisa.Access.{Uuid, nil_id, Node, is_protected}
use nagisa.Store.{Platform, Db, Tx, pure, raise, find_node, find_node_by_id}
use nagisa.Store.Rows.{bind_ok, guard_ok, if_ok, pure_ok, find_node_by_id_ok}
use nagisa.Tree.Config.{NodeUsecase}
use nagisa.Tree.Chain.{chain}
use nagisa.Tree.Shapes.Below.{some_injective}
use nagisa.Tree.Invariant.Reads.{false_of_not}
use nagisa.Tree.Entries.{lock_owner, open_lock, unlock}

lock_owner-first :
    (node : Node) (before : List Node) (n : Node) (after : List Node)
    → any is_protected before ≡ false
    → is_protected n ≡ true
    → lock_owner node (before ++ n ∷ after) ≡ n
unfolding lock_owner
lock_owner-first node [] n after free locked = rw locked refl
lock_owner-first node (b ∷ before) n after free locked =
    ground (arith, lock_owner-first node before n after)

-- A password was checked, with the verifier that there is.
abbrev pub IsChecked : Option (Text → Text → Bool) → Node → Text → Type 0
IsChecked verify n password =
    (fits : Text → Text → Bool) × ((verify ≡ some fits) × (fits n.password_hash password ≡ true))

verified :
    {target : Node} {after : Db} (verify : Option (Text → Text → Bool)) (n : Node) (password : Text)
    (db : Db)
    → is_protected n ≡ true
    → open_lock verify n password db ≡ (ok target, after)
    → (target ≡ n) × IsChecked verify n password × (after ≡ db)
unfolding open_lock
verified none n password db locked e =
    if_ok (is_empty n.password_hash) _ _ db e (λ bare h. let never = sym locked ∙ ap not bare in cc)
      (λ filled h. if_ok (is_empty password) _ _ db h (λ none_given h₁. cc) (λ given h₁. cc))
verified (some fits) n password db locked e =
    if_ok (is_empty n.password_hash) _ _ db e (λ bare h. let never = sym locked ∙ ap not bare in cc)
      (λ filled h.
        if_ok (is_empty password) _ _ db h (λ none_given h₁. cc)
          (λ given h₁.
            if_ok (fits n.password_hash password) _ _ db h₁
              (λ right h₂. pure_ok h₂ λ p q. (sym p, (fits, (refl, right)), sym q))
              (λ wrong h₂. cc)))

-- `Unlock` succeeds below a folder with a password, the outermost of which is `n`: the password fits that
-- folder's hash, and that folder comes back, whatever passwords the node and the folders between have.
-- Nothing is written.
pub unlock_outermost :
    (platform : Platform) (uc : NodeUsecase) (verify : Option (Text → Text → Bool)) (id : Uuid)
    (password : Text) (db : Db) (node : Node) (before : List Node) (n : Node) (rest : List Node)
    {target : Node} {after : Db}
    → find_node id db ≡ some node
    → (chain platform uc node db).ancestors ≡ before ++ n ∷ rest
    → any is_protected before ≡ false
    → is_protected n ≡ true
    → unlock platform uc verify id password db ≡ (ok target, after)
    → (target ≡ n) × IsChecked verify n password × (after ≡ db)
unfolding unlock
unlock_outermost platform uc verify id password db node before n rest {target} {after} at_node above
      free locked e =
    guard_ok (not (id == nil_id)) Error.invalid_argument _ db e λ some_id e₁.
      bind_ok (find_node_by_id id) db e₁ λ found db₁ finds e₂.
        find_node_by_id_ok id db finds λ at_found same.
          let same_node : found ≡ node = some_injective (sym at_found ∙ at_node) in
          let owner : lock_owner found (chain platform uc found db₁).ancestors ≡ n =
            ap (λ m. lock_owner m (chain platform uc m db₁).ancestors) same_node
            ∙ ap (λ d. lock_owner node (chain platform uc node d).ancestors) (sym same)
            ∙ ap (lock_owner node) above
            ∙ lock_owner-first node before n rest free locked in
          let opened : open_lock verify n password db₁ ≡ (ok target, after) =
            subst (λ m. open_lock verify m password db₁ ≡ (ok target, after)) owner e₂ in
          let (same_target, checked, kept) = verified verify n password db₁ locked opened in
          (same_target, checked, kept ∙ sym same)
