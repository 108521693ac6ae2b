-- ===== src/Access/Lock.antt =====
-- The password lock: whom it stops, which node it names.
use nagisa.Prelude.{
  ◌≡◌, refl, ◌∙◌, ap, Bool, true, false, not, ◌&&◌, ◌||◌, Option, none, some, List, [], ◌∷◌, ◌++◌,
  Text, any, arith, ◌==◌, ◌⊎◌, inl, inr, Bool-cases, is_some,
}
use nagisa.Access.{
  Uuid, Caller, Node, AclEntry, is_super_admin, is_authenticated, is_unlocked, is_protected,
  evaluate_node_access, evaluate_for, stranger_access, find_lock, lock_loop,
}
use nagisa.Access.Digits.{view_of}

-- The node has a password that the caller has not supplied.
abbrev pub stops : Caller → Node → Bool
stops c n = is_protected n && not (is_unlocked c n.id)

lock_loop-any : (c : Caller) (above : List Node) → is_some (lock_loop c above) ≡ any (stops c) above
unfolding lock_loop
lock_loop-any c [] = refl
lock_loop-any c (n ∷ above) = ground (arith, lock_loop-any c above)

pub find_lock-any :
    (c : Caller) (node : Node) (above : List Node)
    → is_some (find_lock c node above) ≡ (any (stops c) above || stops c node)
unfolding find_lock
find_lock-any c node above = ground (arith, lock_loop-any c above)

-- An evaluation is locked exactly if the caller neither administers nor owns the node, and the node
-- or a folder above it has a password that the caller has not supplied.
pub locked_iff :
    (uuid_text : Uuid → Text) (c : Caller) (node : Node) (above : List Node)
    (acl : Uuid → List AclEntry)
    → (view_of uuid_text c node above acl).locked ≡ (
        (not (is_super_admin c) && not (is_authenticated c && (node.owner_id == c.user_id)))
        && (any (stops c) above || stops c node))
unfolding evaluate_node_access stranger_access
locked_iff uuid_text c node above acl = elim (Bool-cases (is_super_admin c)) [
  | inl admin ↦ rw (admin, evaluate_for)
  | inr not_admin ↦ elim (Bool-cases (is_authenticated c && (node.owner_id == c.user_id))) [
    | inl owner ↦ rw (not_admin, evaluate_for) (rw (owner, evaluate_for))
    | inr stranger ↦
        rw (not_admin, evaluate_for) (rw (stranger, evaluate_for) (find_lock-any c node above))
  ]
]

lock_loop-first :
    (c : Caller) (before : List Node) (n : Node) (after : List Node)
    → any (stops c) before ≡ false
    → stops c n ≡ true
    → lock_loop c (before ++ n ∷ after) ≡ some n.id
unfolding lock_loop
lock_loop-first c [] n after free stopped = rw stopped
lock_loop-first c (b ∷ before) n after free stopped =
    ground (arith, lock_loop-first c before n after)

-- The first of the nodes that has a password the caller has not supplied, or the nil id where none has.
abbrev pub IsFirstStop : Caller → List Node → Uuid → Type 0
IsFirstStop c nodes id =
    ((any (stops c) nodes ≡ false) × (id ≡ 0))
    ⊎ ((before : List Node) × ((n : Node) × ((after : List Node) × ((nodes ≡ before ++ n ∷ after)
              × (any (stops c) before ≡ false)
              × (stops c n ≡ true)
              × (id ≡ n.id)))))

abbrev named : Option Uuid → Uuid
named found = elim found [ some id ↦ id | none ↦ 0 ]

any_append :
    (c : Caller) (above : List Node) (node : Node)
    → any (stops c) above ≡ false
    → any (stops c) (above ++ node ∷ []) ≡ stops c node
any_append c [] node free = ground arith
any_append c (n ∷ above) node free = ground (arith, any_append c above node (ground arith))

lock_loop_free :
    (c : Caller) (above : List Node) → any (stops c) above ≡ false → lock_loop c above ≡ none
unfolding lock_loop
lock_loop_free c [] free = refl
lock_loop_free c (n ∷ above) free = ground (arith, lock_loop_free c above (ground arith))

-- The first node that stops the caller splits the list.
first_stop :
    (c : Caller) (nodes : List Node)
    → any (stops c) nodes ≡ true
    → (before : List Node) × ((n : Node) × ((after : List Node) × ((nodes ≡ before ++ n ∷ after)
            × (any (stops c) before ≡ false)
            × (stops c n ≡ true))))
first_stop c [] some_stop = cc
first_stop c (m ∷ nodes) some_stop = elim (Bool-cases (stops c m)) [
  | inl here ↦ ([], (m, (nodes, (refl, refl, here))))
  | inr free ↦
      let (before, (n, (after, (split, clear, stopped)))) = first_stop c nodes (ground arith) in
      (m ∷ before, (n, (after, (ap (λ t. m ∷ t) split, rw (free, clear) refl, stopped))))
]

append_one :
    (before : List Node) (n : Node) (after : List Node) (node : Node)
    → (before ++ n ∷ after) ++ node ∷ [] ≡ before ++ n ∷ (after ++ node ∷ [])
append_one [] n after node = refl
append_one (b ∷ before) n after node = ap (λ t. b ∷ t) (append_one before n after node)

found_above :
    (c : Caller) (node : Node) (above : List Node) (id : Uuid)
    → lock_loop c above ≡ some id
    → find_lock c node above ≡ some id
unfolding find_lock
found_above c node above id e = rw (find_lock, e) refl

module _ (c : Caller) (node : Node) (above : List Node) (unfound : lock_loop c above ≡ none) where
  found_own : stops c node ≡ true → find_lock c node above ≡ some node.id
  unfolding find_lock
  found_own own = rw (find_lock, unfound, own) refl

  found_none : stops c node ≡ false → find_lock c node above ≡ none
  unfolding find_lock
  found_none open_node = rw (find_lock, unfound, open_node) refl

find_lock-IsFirstStop :
    (c : Caller) (node : Node) (above : List Node)
    → IsFirstStop c (above ++ node ∷ []) (named (find_lock c node above))
find_lock-IsFirstStop c node above = elim (Bool-cases (any (stops c) above)) [
  | inl some_stop ↦
      let (before, (n, (after, (split, clear, stopped)))) = first_stop c above some_stop in
      let found : lock_loop c above ≡ some n.id =
        ap (lock_loop c) split ∙ lock_loop-first c before n after clear stopped in
      inr (
        before,
        (
          n,
          (
            after ++ node ∷ [],
            (
              ap (λ t. t ++ node ∷ []) split ∙ append_one before n after node,
              clear,
              stopped,
              ap named (found_above c node above n.id found),
            ),
          ),
        ),
      )
  | inr free ↦
      let unfound : lock_loop c above ≡ none = lock_loop_free c above free in
      elim (Bool-cases (stops c node)) [
        | inl own ↦
            inr (
              above,
              (node, ([], (refl, free, own, ap named (found_own c node above unfound own)))),
            )
        | inr open_node ↦ inl (
          any_append c above node free ∙ open_node,
          ap named (found_none c node above unfound open_node),
        )
      ]
]

-- For everyone but an administrator, an evaluation reports the first node, from the root down to the
-- node itself, that has a password which the caller has not supplied, and the nil id where none has. The
-- owner, for whom nothing is locked, is told the same.
pub locked_by_outermost :
    (uuid_text : Uuid → Text) (c : Caller) (node : Node) (above : List Node)
    (acl : Uuid → List AclEntry)
    → is_super_admin c ≡ false
    → IsFirstStop c (above ++ node ∷ []) (view_of uuid_text c node above acl).locked_by
unfolding evaluate_node_access stranger_access
locked_by_outermost uuid_text c node above acl not_admin =
    elim (Bool-cases (is_authenticated c && (node.owner_id == c.user_id))) [
      | inl owner ↦
          rw (not_admin, evaluate_for)
            (rw (owner, evaluate_for) (find_lock-IsFirstStop c node above))
      | inr stranger ↦
          rw (not_admin, evaluate_for)
            (rw (stranger, evaluate_for) (find_lock-IsFirstStop c node above))
    ]
