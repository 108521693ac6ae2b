-- ===== src/Tree/Gate.antt =====
-- `RequireAccess` of internal/biz/node.go: who passes it.
use nagisa.Prelude.{
  ◌≡◌, refl, sym, ◌∙◌, ap, subst, Bool, true, false, not, ◌&&◌, ◌||◌, Option, none, some, any, ◌==◌,
}
use nagisa.Errors.{Error, ok}
use nagisa.Perm.{PermMask, has, intersect, perm_node_scope, perm_trash_manage, is_trashed_status}
use nagisa.Perm.Laws.{has_trans}
use nagisa.Access.{
  Uuid, Caller, Node, NodeAccess, caller_has, ceiling, is_super_admin, is_authenticated,
}
use nagisa.Access.Bounds.{evaluate_bounded}
use nagisa.Access.Lock.{stops, locked_iff}
use nagisa.Store.{Platform, Db, Tx, guard, continue, or_raise, find_node, find_node_by_id}
use nagisa.Store.Rows.{bind_ok, guard_ok, pure_ok, find_node_by_id_ok}
use nagisa.Tree.Config.{NodeUsecase}
use nagisa.Tree.Chain.{chain, evaluate, require_access}
use nagisa.Tree.Invariant.Reads.{false_of_not, IsRead, bind-IsRead}

-- What `RequireAccess` returns, which only reads.
pub require_access_ok :
    {C : Type 0} (platform : Platform) (uc : NodeUsecase) (c : Caller) (id : Uuid) (want : PermMask)
    (db : Db) {found : Node × NodeAccess} {after : Db}
    → require_access platform uc c id want db ≡ (ok found, after)
    → ((n : Node)
        → find_node id db ≡ some n
        → (n, evaluate platform uc c n db) ≡ found
        → has (evaluate platform uc c n db).perms want ≡ true
        → db ≡ after
        → C)
    → C
unfolding require_access
require_access_ok platform uc c id want db {found} {after} e next =
    bind_ok (find_node_by_id id) db e λ n db₁ finds e₁. find_node_by_id_ok id db finds λ at_n same.
      guard_ok (not (is_trashed_status n.status && not (caller_has c perm_trash_manage)))
        Error.not_found _ db₁ e₁
        λ visible e₂.
          guard_ok (not (evaluate platform uc c n db₁).locked) Error.node_locked _ db₁ e₂
            λ open_n e₃.
              guard_ok (has (evaluate platform uc c n db₁).perms want) Error.permission_denied _ db₁
                e₃
                λ may e₄. pure_ok e₄ λ same_out same_after.
                  next n at_n (ap (λ d. (n, evaluate platform uc c n d)) same ∙ same_out)
                    (ap (λ d. has (evaluate platform uc c n d).perms want) same ∙ may)
                    (same ∙ same_after)

guard-IsRead {ℓ} :
    {A : Type ℓ} (test : Bool) (e : Error) (f : Unit {0} → Tx A) (db : Db)
    → (f tt db).1 ≡ db
    → (continue f (guard test e db)).1 ≡ db
guard-IsRead true e f db rest = rest
guard-IsRead false e f db rest = refl

find_node_by_id-IsRead : (id : Uuid) → IsRead (find_node_by_id id)
unfolding find_node_by_id
find_node_by_id-IsRead id db = read (find_node id db)
  where
    read : (o : Option Node) → (or_raise o Error.not_found db).1 ≡ db
    read none = refl
    read (some n) = refl

pub require_access-IsRead :
    (platform : Platform) (uc : NodeUsecase) (c : Caller) (id : Uuid) (want : PermMask)
    → IsRead (require_access platform uc c id want)
unfolding require_access
require_access-IsRead platform uc c id want =
    bind-IsRead (find_node_by_id id) _ (find_node_by_id-IsRead id) λ n db.
      guard-IsRead (not (is_trashed_status n.status && not (caller_has c perm_trash_manage)))
        Error.not_found _ db
        (guard-IsRead (not (evaluate platform uc c n db).locked) Error.node_locked _ db (
          guard-IsRead (has (evaluate platform uc c n db).perms want) Error.permission_denied _ db
            refl))

module _ (platform : Platform) (uc : NodeUsecase) (c : Caller) (id : Uuid) (want : PermMask)
    (db : Db) where
  -- Whoever passes `RequireAccess` asks for permissions that its account (or the guest baseline) has and
  -- that a node entry may carry; the node is the row with that identifier, trashed only for a caller with
  -- the permission to manage the trash; and unless the caller administers or owns the node, it has
  -- supplied the password of the node and of every folder of its ancestor chain that has one.
  pub require_access_within :
      (node : Node) (access : NodeAccess) (after : Db)
      → require_access platform uc c id want db ≡ (ok (node, access), after)
      → (has (intersect perm_node_scope (ceiling c)) want ≡ true)
        × (find_node id db ≡ some node)
        × ((is_trashed_status node.status && not (caller_has c perm_trash_manage)) ≡ false)
        × (((not (is_super_admin c) && not (is_authenticated c && (node.owner_id == c.user_id)))
              && (any (stops c) (chain platform uc node db).ancestors || stops c node))
            ≡ false)
  unfolding require_access evaluate nagisa.Access.or_anonymous
  require_access_within node access after e = bind_ok (find_node_by_id id) db e λ n db₁ found e₁.
      find_node_by_id_ok id db found λ at_n same.
        guard_ok (not (is_trashed_status n.status && not (caller_has c perm_trash_manage)))
          Error.not_found _ db₁ e₁
          λ visible e₂.
            guard_ok (not (evaluate platform uc c n db₁).locked) Error.node_locked _ db₁ e₂
              λ open_n e₃.
                guard_ok (has (evaluate platform uc c n db₁).perms want) Error.permission_denied _
                  db₁ e₃
                  λ may e₄. pure_ok e₄ λ same_out same_after.
                    let same_node : n ≡ node = ap (λ r. r.0) same_out in
                    (
                      has_trans _ _ _ (evaluate_bounded platform.uuid_text _) may,
                      at_n ∙ ap some same_node,
                      ap (λ r. is_trashed_status r.status && not (caller_has c perm_trash_manage))
                            (sym same_node)
                          ∙ false_of_not visible,
                      subst
                          (λ d.
                            ((not (is_super_admin c)
                                && not (is_authenticated c && (node.owner_id == c.user_id)))
                              && (any (stops c) (chain platform uc node d).ancestors
                                  || stops c node))
                            ≡ false)
                          (sym same)
                          (subst
                            (λ m.
                              ((not (is_super_admin c)
                                  && not (is_authenticated c && (m.owner_id == c.user_id)))
                                && (any (stops c) (chain platform uc m db₁).ancestors || stops c m))
                              ≡ false)
                            same_node
                            (sym (
                                locked_iff platform.uuid_text c n
                                  (chain platform uc n db₁).ancestors (chain platform uc n db₁).acl)
                              ∙ false_of_not open_n)),
                    )
