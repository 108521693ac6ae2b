-- ===== src/Access/Digits.antt =====
-- Permission by permission: what the loops of `EvaluateNodeAccess` collect, and the rule that the
-- whole evaluation comes to for a caller who neither administers nor owns.
use nagisa.Prelude.{
  ℕ, ◌≡◌, refl, ◌∙◌, ap, ap₂, Bool, true, false, not, ◌&&◌, ◌||◌, List, [], ◌∷◌, Text, any, arith,
  ◌==◌, bit_and, bit_or, some, or_assoc, is_some,
}
use nagisa.Prelude.Bits.{
  test_bit, and_not, test_bit-bit_and, test_bit-bit_or, test_bit-and_not, test_bit-pow,
  test_bit-zero,
}
use nagisa.Perm.{PermMask, perm_node_scope}
use nagisa.Access.{
  Uuid, Caller, Node, AclEntry, Masks, is_deny, is_super_admin, is_authenticated, acl_matches,
  own_step, own_loop, inherited_step, inherited_loop, ancestor_loop, collect_masks, settle,
  visibility_grant, effective_visibility, ceiling, find_lock, stranger_access, evaluate_for,
  evaluate_node_access, NodeAccess,
}

module _ (uuid_text : Uuid → Text) (c : Caller) (i : ℕ) where
  -- An entry that applies to the caller and names permission `i`, by its effect.
  abbrev pub allows : AclEntry → Bool
  allows e = acl_matches uuid_text e c && (not (is_deny e.effect) && test_bit e.permissions i)

  abbrev pub denies : AclEntry → Bool
  denies e = acl_matches uuid_text e c && (is_deny e.effect && test_bit e.permissions i)

  abbrev pub hands_down : AclEntry → Bool
  hands_down e = e.inherit && allows e

  allowed-own_step :
      (e : AclEntry) (m : Masks)
      → test_bit (own_step uuid_text c e m).allowed i ≡ (test_bit m.allowed i || allows e)
  unfolding own_step
  allowed-own_step e m = ground (arith, test_bit-bit_or i m.allowed e.permissions)

  denied-own_step :
      (e : AclEntry) (m : Masks)
      → test_bit (own_step uuid_text c e m).denied i ≡ (test_bit m.denied i || denies e)
  unfolding own_step
  denied-own_step e m = ground (arith, test_bit-bit_or i m.denied e.permissions)

  allowed-inherited_step :
      (e : AclEntry) (m : Masks)
      → test_bit (inherited_step uuid_text c e m).allowed i ≡ (test_bit m.allowed i || hands_down e)
  unfolding inherited_step
  allowed-inherited_step e m = ground (arith, test_bit-bit_or i m.allowed e.permissions)

  denied-inherited_step :
      (e : AclEntry) (m : Masks)
      → test_bit (inherited_step uuid_text c e m).denied i ≡ (test_bit m.denied i || denies e)
  unfolding inherited_step
  denied-inherited_step e m = ground (arith, test_bit-bit_or i m.denied e.permissions)

  allowed-own_loop :
      (es : List AclEntry) (m : Masks)
      → test_bit (own_loop uuid_text c es m).allowed i ≡ (test_bit m.allowed i || any allows es)
  unfolding own_loop
  allowed-own_loop [] m = ground arith
  allowed-own_loop (e ∷ es) m =
      allowed-own_loop es (own_step uuid_text c e m)
      ∙ ap (λ b. b || any allows es) (allowed-own_step e m)
      ∙ or_assoc (test_bit m.allowed i) (allows e) (any allows es)

  denied-own_loop :
      (es : List AclEntry) (m : Masks)
      → test_bit (own_loop uuid_text c es m).denied i ≡ (test_bit m.denied i || any denies es)
  unfolding own_loop
  denied-own_loop [] m = ground arith
  denied-own_loop (e ∷ es) m =
      denied-own_loop es (own_step uuid_text c e m)
      ∙ ap (λ b. b || any denies es) (denied-own_step e m)
      ∙ or_assoc (test_bit m.denied i) (denies e) (any denies es)

  allowed-inherited_loop :
      (es : List AclEntry) (m : Masks)
      → test_bit (inherited_loop uuid_text c es m).allowed i
        ≡ (test_bit m.allowed i || any hands_down es)
  unfolding inherited_loop
  allowed-inherited_loop [] m = ground arith
  allowed-inherited_loop (e ∷ es) m =
      allowed-inherited_loop es (inherited_step uuid_text c e m)
      ∙ ap (λ b. b || any hands_down es) (allowed-inherited_step e m)
      ∙ or_assoc (test_bit m.allowed i) (hands_down e) (any hands_down es)

  denied-inherited_loop :
      (es : List AclEntry) (m : Masks)
      → test_bit (inherited_loop uuid_text c es m).denied i ≡ (test_bit m.denied i || any denies es)
  unfolding inherited_loop
  denied-inherited_loop [] m = ground arith
  denied-inherited_loop (e ∷ es) m =
      denied-inherited_loop es (inherited_step uuid_text c e m)
      ∙ ap (λ b. b || any denies es) (denied-inherited_step e m)
      ∙ or_assoc (test_bit m.denied i) (denies e) (any denies es)

  module _ (acl : Uuid → List AclEntry) where
    allowed-ancestor_loop :
        (above : List Node) (m : Masks)
        → test_bit (ancestor_loop uuid_text c acl above m).allowed i
          ≡ (test_bit m.allowed i || any (λ a. any hands_down (acl a.id)) above)
    unfolding ancestor_loop
    allowed-ancestor_loop [] m = ground arith
    allowed-ancestor_loop (a ∷ above) m =
        allowed-ancestor_loop above (inherited_loop uuid_text c (acl a.id) m)
        ∙ ap (λ b. b || any (λ a. any hands_down (acl a.id)) above)
            (allowed-inherited_loop (acl a.id) m)
        ∙ or_assoc (test_bit m.allowed i) (any hands_down (acl a.id))
            (any (λ a. any hands_down (acl a.id)) above)

    denied-ancestor_loop :
        (above : List Node) (m : Masks)
        → test_bit (ancestor_loop uuid_text c acl above m).denied i
          ≡ (test_bit m.denied i || any (λ a. any denies (acl a.id)) above)
    unfolding ancestor_loop
    denied-ancestor_loop [] m = ground arith
    denied-ancestor_loop (a ∷ above) m =
        denied-ancestor_loop above (inherited_loop uuid_text c (acl a.id) m)
        ∙ ap (λ b. b || any (λ a. any denies (acl a.id)) above) (denied-inherited_loop (acl a.id) m)
        ∙ or_assoc (test_bit m.denied i) (any denies (acl a.id))
            (any (λ a. any denies (acl a.id)) above)

    module _ (node : Node) (above : List Node) where
      -- Some entry of the node, or some entry that an ancestor hands down, allows permission `i`.
      abbrev pub is_allowed : Bool
      is_allowed = any allows (acl node.id) || any (λ a. any hands_down (acl a.id)) above

      -- Some entry of the node or of any ancestor denies permission `i`.
      abbrev pub is_denied : Bool
      is_denied = any denies (acl node.id) || any (λ a. any denies (acl a.id)) above

      allowed-collect_masks :
          test_bit (collect_masks uuid_text c node above acl).allowed i ≡ is_allowed
      unfolding collect_masks
      allowed-collect_masks =
          allowed-ancestor_loop above _
          ∙ ap (λ b. b || any (λ a. any hands_down (acl a.id)) above)
              (allowed-own_loop (acl node.id) _
                ∙ ap (λ b. b || any allows (acl node.id)) (test_bit-zero i))

      denied-collect_masks :
          test_bit (collect_masks uuid_text c node above acl).denied i ≡ is_denied
      unfolding collect_masks
      denied-collect_masks =
          denied-ancestor_loop above _
          ∙ ap (λ b. b || any (λ a. any denies (acl a.id)) above)
              (denied-own_loop (acl node.id) _
                ∙ ap (λ b. b || any denies (acl node.id)) (test_bit-zero i))

module _ (i : ℕ) (granted : PermMask) (m : Masks) (most : PermMask) where
  unlocked_perms : PermMask
  unlocked_perms =
      bit_and (bit_and (and_not (bit_or granted m.allowed) m.denied) perm_node_scope) most

  test_bit-unlocked_perms : test_bit unlocked_perms i ≡ (
      (((test_bit granted i || test_bit m.allowed i) && not (test_bit m.denied i))
        && test_bit perm_node_scope i)
      && test_bit most i)
  unfolding unlocked_perms
  test_bit-unlocked_perms =
      rw (test_bit-bit_and, test_bit-bit_and, test_bit-and_not, test_bit-bit_or)

  and_true : (a : Bool) → a ≡ (a && true)
  and_true true = refl
  and_true false = refl

  test_bit-settle :
      (locked : Bool)
      → test_bit (settle granted m most locked) i ≡ (
          ((((test_bit granted i || test_bit m.allowed i) && not (test_bit m.denied i))
              && test_bit perm_node_scope i)
            && test_bit most i)
          && (not locked || (0 == i)))
  unfolding settle unlocked_perms
  test_bit-settle true =
      test_bit-bit_and i unlocked_perms 1
      ∙ ap₂ (λ a b. a && b) test_bit-unlocked_perms (test_bit-pow 0 i)
  test_bit-settle false = test_bit-unlocked_perms ∙ and_true _

module _ (uuid_text : Uuid → Text) (c : Caller) (node : Node) (above : List Node)
    (acl : Uuid → List AclEntry) where
  abbrev pub view_of : NodeAccess
  view_of =
      evaluate_node_access uuid_text
        (record { caller = some c; node = some node; ancestors = above; acl_by_node = acl })

  -- The branch of a caller who neither administers nor owns.
  pub evaluate_stranger :
      is_super_admin c ≡ false
      → (is_authenticated c && (node.owner_id == c.user_id)) ≡ false
      → view_of ≡ stranger_access uuid_text c node above acl
  unfolding evaluate_node_access
  evaluate_stranger not_admin not_owner =
      rw (not_admin, evaluate_for) (rw (not_owner, evaluate_for))

  -- For a caller who neither administers the instance nor owns the node, permission `i` is granted
  -- exactly if the visibility or an allow entry gives it, no deny entry on the node or above takes it
  -- away, a node entry may carry it, the account (or the guest baseline) holds it, and, while the node
  -- is locked, it is the permission to view.
  pub evaluate_digit :
      (i : ℕ)
      → is_super_admin c ≡ false
      → (is_authenticated c && (node.owner_id == c.user_id)) ≡ false
      → test_bit view_of.perms i ≡ (
          ((((test_bit (visibility_grant c (effective_visibility node above)) i
                  || is_allowed uuid_text c i acl node above)
                && not (is_denied uuid_text c i acl node above))
              && test_bit perm_node_scope i)
            && test_bit (ceiling c) i)
          && (not (is_some (find_lock c node above)) || (0 == i)))
  unfolding stranger_access
  evaluate_digit i not_admin not_owner =
      rw (evaluate_stranger not_admin not_owner)
        (rw (test_bit-settle, allowed-collect_masks, denied-collect_masks) refl)
