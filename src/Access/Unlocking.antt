-- ===== src/Access/Unlocking.antt =====
-- Supplying passwords never takes a permission away.
use nagisa.Prelude.{
  ℕ, [], ◌∷◌, ◌≡◌, refl, ◌∙◌, sym, ap, Bool, true, false, not, ◌&&◌, ◌||◌, List, Text, any, arith,
  ◌==◌, inl, inr, Bool-cases, is_some, contains,
}
use nagisa.Prelude.Bits.{test_bit}
use nagisa.Perm.{Visibility, has, perm_node_scope, intersect}
use nagisa.Perm.Laws.{has_iff, has_self}
use nagisa.Access.{
  Uuid, Caller, Node, AclEntry, is_super_admin, is_authenticated, is_unlocked, acl_matches, ceiling,
  visibility_grant, effective_visibility, evaluate_node_access, evaluate_for, find_lock,
}
use nagisa.Access.Digits.{view_of, evaluate_digit, is_allowed, is_denied}
use nagisa.Access.Lock.{stops, find_lock-any}

-- The caller after it has supplied passwords.
abbrev pub with_unlocked : Caller → List Uuid → Caller
with_unlocked c ids = record c { unlocked = ids }

owner_perms :
    (uuid_text : Uuid → Text) (c : Caller) (node : Node) (above : List Node)
    (acl : Uuid → List AclEntry)
    → is_super_admin c ≡ false
    → (is_authenticated c && (node.owner_id == c.user_id)) ≡ true
    → (view_of uuid_text c node above acl).perms ≡ intersect perm_node_scope c.perms
unfolding evaluate_node_access
owner_perms uuid_text c node above acl not_admin owner =
    rw (not_admin, evaluate_for) (rw (owner, evaluate_for) refl)

lock_mono :
    (x l l' z : Bool)
    → (l' ≡ true → l ≡ true)
    → (x && (not l || z)) ≡ true
    → (x && (not l' || z)) ≡ true
lock_mono x l l' z less h = ground arith

module _ (uuid_text : Uuid → Text) (c : Caller) (ids : List Uuid)
    (more : (id : Uuid) → contains id c.unlocked ≡ true → contains id ids ≡ true) (node : Node)
    (above : List Node) (acl : Uuid → List AclEntry) where
  stops_less : (n : Node) → stops (with_unlocked c ids) n ≡ true → stops c n ≡ true
  unfolding is_unlocked
  stops_less n h = ground (arith, more n.id)

  any-stops_less :
      (ns : List Node) → any (stops (with_unlocked c ids)) ns ≡ true → any (stops c) ns ≡ true
  any-stops_less [] h = h
  any-stops_less (n ∷ ns) h = ground (arith, stops_less n, any-stops_less ns)

  lock_less :
      is_some (find_lock (with_unlocked c ids) node above) ≡ true
      → is_some (find_lock c node above) ≡ true
  lock_less h = ground (
    arith,
    find_lock-any c node above,
    find_lock-any (with_unlocked c ids) node above,
    any-stops_less above,
    stops_less node,
  )

  same_allowed :
      (i : ℕ)
      → is_allowed uuid_text (with_unlocked c ids) i acl node above
        ≡ is_allowed uuid_text c i acl node above
  unfolding acl_matches
  same_allowed i = refl

  same_denied :
      (i : ℕ)
      → is_denied uuid_text (with_unlocked c ids) i acl node above
        ≡ is_denied uuid_text c i acl node above
  unfolding acl_matches
  same_denied i = refl

  same_identity :
      (is_authenticated (with_unlocked c ids) ≡ is_authenticated c)
      × (is_super_admin (with_unlocked c ids) ≡ is_super_admin c)
      × (ceiling (with_unlocked c ids) ≡ ceiling c)
  unfolding is_super_admin ceiling
  same_identity = (refl, refl, refl)

  same_grant :
      visibility_grant (with_unlocked c ids) (effective_visibility node above)
      ≡ visibility_grant c (effective_visibility node above)
  unfolding visibility_grant
  same_grant = grant_of (effective_visibility node above)
    where
      grant_of : (v : Visibility) → visibility_grant (with_unlocked c ids) v ≡ visibility_grant c v
      grant_of Visibility.public = refl
      grant_of v = refl

  abbrev digit : ℕ → Bool
  digit i =
      (((test_bit (visibility_grant c (effective_visibility node above)) i
            || is_allowed uuid_text c i acl node above)
          && not (is_denied uuid_text c i acl node above))
        && test_bit perm_node_scope i)
      && test_bit (ceiling c) i

  stranger_mono :
      is_super_admin c ≡ false
      → (is_authenticated c && (node.owner_id == c.user_id)) ≡ false
      → has
          (view_of uuid_text (with_unlocked c ids) node above acl).perms
          (view_of uuid_text c node above acl).perms
        ≡ true
  stranger_mono not_admin not_owner = (has_iff _ _).1 λ i h.
      evaluate_digit uuid_text (with_unlocked c ids) node above acl i (same_identity.1 ∙ not_admin)
        (ap (λ b. b && (node.owner_id == c.user_id)) same_identity.0 ∙ not_owner)
      ∙ rw (same_grant, same_allowed i, same_denied i, same_identity.2)
          (lock_mono (digit i) (is_some (find_lock c node above))
            (is_some (find_lock (with_unlocked c ids) node above)) (0 == i) lock_less
            (sym (evaluate_digit uuid_text c node above acl i not_admin not_owner) ∙ h))

  admin_keeps :
      is_super_admin c ≡ true
      → has
          (view_of uuid_text (with_unlocked c ids) node above acl).perms
          (view_of uuid_text c node above acl).perms
        ≡ true
  unfolding evaluate_node_access
  admin_keeps admin = rw (same_identity.1, admin, evaluate_for) (has_self _)

  -- A caller who supplies more passwords keeps every permission on the node.
  pub unlock_keeps_perms :
      has
        (view_of uuid_text (with_unlocked c ids) node above acl).perms
        (view_of uuid_text c node above acl).perms
      ≡ true
  unlock_keeps_perms = elim (Bool-cases (is_super_admin c)) [
    | inl admin ↦ admin_keeps admin
    | inr not_admin ↦ elim (Bool-cases (is_authenticated c && (node.owner_id == c.user_id))) [
      | inl owner ↦
          rw
            (
              owner_perms uuid_text c node above acl not_admin owner,
              owner_perms uuid_text (with_unlocked c ids) node above acl
                  (same_identity.1 ∙ not_admin)
                  (ap (λ b. b && (node.owner_id == c.user_id)) same_identity.0 ∙ owner),
            )
            (has_self _)
      | inr stranger ↦ stranger_mono not_admin stranger
    ]
  ]
