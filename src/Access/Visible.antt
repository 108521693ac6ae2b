-- ===== src/Access/Visible.antt =====
-- The effective visibility is the most restrictive one of the chain, and what follows for a caller
-- whom no entry allows.
use nagisa.Prelude.{
  ℕ, ◌≡◌, refl, ◌∙◌, ap, Bool, false, ◌&&◌, List, [], ◌∷◌, Text, arith, all, and_assoc, ◌==◌, ltb,
  leb, inl, inr, Bool-cases, if◌then◌else◌,
}
use nagisa.Prelude.Bits.{test_bit, test_bit-zero}
use nagisa.Perm.{Visibility, visibility_value, perm_none}
use nagisa.Access.{
  Uuid, Caller, Node, AclEntry, is_super_admin, is_authenticated, or_private, visibility_loop,
  effective_visibility, visibility_grant,
}
use nagisa.Access.Digits.{is_allowed, view_of, evaluate_digit}

-- At least level `k`: the levels are private, internal and public, in this order.
abbrev pub is_open : ℕ → Node → Bool
is_open k n = leb k (visibility_value (or_private n.visibility))

narrow :
    (k : ℕ) (v w : Visibility)
    → leb k (visibility_value (if ltb (visibility_value w) (visibility_value v) then w else v))
      ≡ (leb k (visibility_value v) && leb k (visibility_value w))
narrow k v w = elim (Bool-cases (ltb (visibility_value w) (visibility_value v))) [
  | inl less ↦ rw less (ground arith)
  | inr not_less ↦ rw not_less (ground arith)
]

open-visibility_loop :
    (k : ℕ) (above : List Node) (v : Visibility)
    → leb k (visibility_value (visibility_loop v above))
      ≡ (leb k (visibility_value v) && all (is_open k) above)
unfolding visibility_loop
open-visibility_loop k [] v = ground arith
open-visibility_loop k (a ∷ above) v =
    open-visibility_loop k above (
      if ltb (visibility_value (or_private a.visibility)) (visibility_value v)
      then or_private a.visibility
      else v)
    ∙ ap (λ b. b && all (is_open k) above) (narrow k v (or_private a.visibility))
    ∙ and_assoc (leb k (visibility_value v)) (is_open k a) (all (is_open k) above)

-- A node is open to a level exactly if the node and every folder above it are: the most restrictive
-- visibility of the chain wins.
pub effective_visibility_least :
    (k : ℕ) (node : Node) (above : List Node)
    → leb k (visibility_value (effective_visibility node above)) ≡ all (is_open k) (node ∷ above)
unfolding effective_visibility
effective_visibility_least k node above = open-visibility_loop k above (or_private node.visibility)

private_grants_nothing :
    (c : Caller) (v : Visibility)
    → leb 2 (visibility_value v) ≡ false
    → visibility_grant c v ≡ perm_none
unfolding visibility_grant
private_grants_nothing c Visibility.unspecified h = refl
private_grants_nothing c Visibility.private h = refl
private_grants_nothing c Visibility.internal h = cc
private_grants_nothing c Visibility.public h = cc

-- Where the node or some folder above it is private, a caller who neither administers nor owns has
-- only the permissions that an allow entry gives it.
pub private_needs_entry :
    (uuid_text : Uuid → Text) (c : Caller) (node : Node) (above : List Node)
    (acl : Uuid → List AclEntry) (i : ℕ)
    → is_super_admin c ≡ false
    → (is_authenticated c && (node.owner_id == c.user_id)) ≡ false
    → all (is_open 2) (node ∷ above) ≡ false
    → is_allowed uuid_text c i acl node above ≡ false
    → test_bit (view_of uuid_text c node above acl).perms i ≡ false
private_needs_entry uuid_text c node above acl i not_admin not_owner hidden none_allows =
    rw (evaluate_digit uuid_text c node above acl i not_admin not_owner) (
      rw
        (
          private_grants_nothing c _ (effective_visibility_least 2 node above ∙ hidden),
          none_allows,
          test_bit-zero i,
        )
        refl)
