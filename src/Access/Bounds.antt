-- ===== src/Access/Bounds.antt =====
-- No evaluation grants more than a node entry may carry and the account holds.
use nagisa.Prelude.{
  ◌≡◌, Bool, true, false, ◌&&◌, List, Text, arith, ◌==◌, inl, inr, Bool-cases, Option-cases,
  bit_and,
}
use nagisa.Perm.{PermMask, has, intersect, perm_node_scope}
use nagisa.Perm.Laws.{has-bit_and, has-bit_and_right, has_trans, has_of_both, has_self, has_zero}
use nagisa.Access.{
  Uuid, Caller, Node, AclEntry, NodeAccessInput, is_super_admin, is_authenticated,
  evaluate_node_access, evaluate_for, or_anonymous, ceiling, stranger_access, settle, Masks,
}

ceiling_of_account : (c : Caller) → is_authenticated c ≡ true → ceiling c ≡ c.perms
unfolding ceiling
ceiling_of_account c e = rw e

scope_of_account :
    (c : Caller)
    → is_authenticated c ≡ true
    → has (intersect perm_node_scope (ceiling c)) (intersect perm_node_scope c.perms) ≡ true
scope_of_account c e = rw (ceiling_of_account c e) (has_self _)

meet_bounded :
    (a most : PermMask)
    → has (intersect perm_node_scope most) (bit_and (bit_and a perm_node_scope) most) ≡ true
meet_bounded a most =
    has_of_both _ _ _ (has_trans _ _ _ (has-bit_and_right _ _) (has-bit_and _ _))
      (has-bit_and_right _ _)

settle_bounded :
    (granted : PermMask) (m : Masks) (most : PermMask) (locked : Bool)
    → has (intersect perm_node_scope most) (settle granted m most locked) ≡ true
unfolding settle
settle_bounded granted m most false = meet_bounded _ most
settle_bounded granted m most true = has_trans _ _ _ (meet_bounded _ most) (has-bit_and _ _)

super_admin_has_account : (c : Caller) → is_super_admin c ≡ true → is_authenticated c ≡ true
unfolding is_super_admin
super_admin_has_account c h = ground arith

module _ (uuid_text : Uuid → Text) where
  evaluate_for-bounded :
      (c : Caller) (node : Node) (above : List Node) (acl : Uuid → List AclEntry)
      → has (intersect perm_node_scope (ceiling c)) (evaluate_for uuid_text c node above acl).perms
        ≡ true
  unfolding stranger_access evaluate_for
  evaluate_for-bounded c node above acl = elim (Bool-cases (is_super_admin c)) [
    | inl admin ↦ rw (admin, evaluate_for) (scope_of_account c (super_admin_has_account c admin))
    | inr not_admin ↦ elim (Bool-cases (is_authenticated c && (node.owner_id == c.user_id))) [
      | inl owner ↦
          rw (not_admin, evaluate_for)
            (rw (owner, evaluate_for) (scope_of_account c (ground arith)))
      | inr stranger ↦
          rw (not_admin, evaluate_for) (rw (stranger, evaluate_for) (settle_bounded _ _ _ _))
    ]
  ]

  -- Whatever the input, the permissions granted are ones that a node entry may carry and that the
  -- caller's ceiling has: the permission set of its account, or the guest baseline.
  pub evaluate_bounded :
      (i : NodeAccessInput)
      → has
          (intersect perm_node_scope (ceiling (or_anonymous i.caller)))
          (evaluate_node_access uuid_text i).perms
        ≡ true
  unfolding evaluate_node_access
  evaluate_bounded i = elim (Option-cases i.node) [
    | inl absent ↦ rw absent (has_zero _)
    | inr (node, e) ↦
        rw e (evaluate_for-bounded (or_anonymous i.caller) node i.ancestors i.acl_by_node)
  ]
