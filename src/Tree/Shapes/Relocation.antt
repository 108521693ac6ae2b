-- ===== src/Tree/Shapes/Relocation.antt =====
-- Moving a subtree keeps the tree invariant.
use native.Mathlib.Decide.{ℕ_discrete}
use nagisa.Prelude.{
  ℕ, ◌+◌, ◌-◌, ◌*◌, ◌≤◌, ◌≡◌, ◌≢◌, refl, sym, ◌∙◌, ap, ap₂, subst, inl, inr, true, false, some,
  ◌++◌, Text, length, length-append, arith, has_prefix, drop, Bool-cases, Option-cases,
}
use nagisa.Prelude.Int.{ℤ, pos, ◌+ℤ◌}
use nagisa.Prelude.Prefixes.{
  length_of_has_prefix, has_prefix_self, has_prefix_longer, drop_all, drop-append_le, length-drop,
}
use nagisa.Access.{Uuid}
use nagisa.Tree.Shapes.{Shape, Shapes, Segments, IsUnder, IsPlaced, IsMeasured, IsTree}
use nagisa.Tree.Shapes.Below.{parent_below, rooted_below, same_row, some_injective}
use mathlib.Core.List.{append-nil, append_assoc}
use nagisa.Tree.Shapes.Moving.{moved, map_shape, map_shapes, shift_depth, shift_deeper, IsTarget}

module _ (g : Segments) (s : Shapes) (t : IsTree g s) (n : Shape) (at_n : s n.id ≡ some n)
    (target : Uuid) (path : Text) (depth delta : ℤ) (to : IsTarget g s n target path depth)
    (shift : n.depth +ℤ delta ≡ depth +ℤ pos 1) where
  abbrev new_path : Text
  new_path = path ++ g.seg n.id

  abbrev move : Shape → Shape
  move = moved n.id n.path target new_path delta

  abbrev after : Shapes
  after = map_shapes move s

  move-id : (r : Shape) → (move r).id ≡ r.id
  unfolding moved
  move-id r = ground arith

  move-flags :
      (r : Shape) → ((move r).is_folder ≡ r.is_folder) × ((move r).is_trashed ≡ r.is_trashed)
  unfolding moved
  move-flags r = ground arith

  after_of : (i : Uuid) (r : Shape) → s i ≡ some r → after i ≡ some (move r)
  after_of i r er = ap (map_shape move) er

  -- A row after the move comes from one before it.
  before :
      (i : Uuid) (r' : Shape) → after i ≡ some r' → (r : Shape) × (s i ≡ some r) × (r' ≡ move r)
  before i r' e = elim (Option-cases (s i)) [
    | inl absent ↦ cc
    | inr (r, er) ↦ (r, er, some_injective (sym e ∙ after_of i r er))
  ]

  move_root : (r : Shape) → r.id ≡ n.id → (move r).path ≡ new_path
  unfolding moved
  move_root r e = ground arith

  move_below :
      (i : Uuid) (r : Shape)
      → s i ≡ some r
      → has_prefix r.path n.path ≡ true
      → ((move r).path ≡ new_path ++ drop (length n.path) r.path)
        × ((move r).depth ≡ r.depth +ℤ delta)
  unfolding moved
  move_below i r er below = elim (ℕ_discrete r.id n.id) [
    | yes e ↦ (
      move_root r e
          ∙ sym (append-nil new_path)
          ∙ ap (λ q. new_path ++ q) (sym (drop_all n.path))
          ∙ ap (λ (q : Shape). new_path ++ drop (length n.path) q.path)
              (sym (same_row g s t i n.id r n er at_n e)),
      ground arith,
    )
    | no e ↦ ground arith
  ]

  move_outside :
      (i : Uuid) (r : Shape) → s i ≡ some r → has_prefix r.path n.path ≡ false → move r ≡ r
  unfolding moved
  move_outside i r er out = elim (ℕ_discrete r.id n.id) [
    | yes e ↦
        let same : r.path ≡ n.path =
          ap (λ (q : Shape). q.path) (same_row g s t i n.id r n er at_n e) in
        absurd (ground (arith, has_prefix_self n.path))
    | no e ↦ ground arith
  ]

  -- The path of the destination, in segments.
  target_measured : (e : ℕ) × (depth +ℤ pos 1 ≡ pos e) × (length path ≡ 1 + 37 * e)
  target_measured = elim to [
    | inl (_, root, at_root) ↦ (0, at_root, rw root (omega arith))
    | inr (p, at_p, _, _, _, same, deep) ↦
        let (d, pd, lp) = t.measured target p at_p in
        (d + 1, rw (← deep, pd) (unfold ◌+ℤ◌ in ground arith), rw (← same) (omega arith))
  ]

  move-IsMeasured : (i : Uuid) (r : Shape) → s i ≡ some r → IsMeasured g s (move r)
  move-IsMeasured i r er =
      let (d, rd, lr) = t.measured i r er in
      elim (Bool-cases (has_prefix r.path n.path)) [
        | inr out ↦ rw (move_outside i r er out) (d, rd, lr)
        | inl below ↦
            let (a, na, ln) = t.measured n.id n at_n in
            let (e, te, lt) = target_measured in
            let le : length n.path ≤ length r.path = length_of_has_prefix r.path n.path below in
            (
              e + d - a,
              (move_below i r er below).1
                  ∙ ap (λ x. x +ℤ delta) rd
                  ∙ shift_depth d a e delta (omega arith)
                      (ap (λ x. x +ℤ delta) (sym na) ∙ shift ∙ te),
              ap length (move_below i r er below).0
                  ∙ length-append new_path (drop (length n.path) r.path)
                  ∙ omega (
                    arith,
                    length-append path (g.seg n.id),
                    g.seg_length n.id,
                    length-drop (length n.path) r.path le,
                  ),
            )
      ]

  target_stays :
      (p : Shape) → s target ≡ some p → has_prefix p.path n.path ≡ false → after target ≡ some p
  target_stays p at_p out = after_of target p at_p ∙ ap some (move_outside target p at_p out)

  at_root : ((move n).parent ≡ target) × ((move n).depth ≡ n.depth +ℤ delta)
  unfolding moved
  at_root = ground arith

  move-IsPlaced_root : IsPlaced g after (move n)
  move-IsPlaced_root = elim to [
    | inl (top, root, level) ↦ inl (
      at_root.0 ∙ top,
      move_root n refl ∙ ap₂ (λ p i. p ++ g.seg i) root (sym (move-id n)),
      at_root.1 ∙ shift ∙ level,
    )
    | inr (p, at_p, folder, live, out, same, deep) ↦ inr (
      p,
      (
        ap after at_root.0 ∙ target_stays p at_p out,
        folder,
        move_root n refl ∙ ap₂ (λ p i. p ++ g.seg i) (sym same) (sym (move-id n)),
        at_root.1 ∙ shift ∙ ap (λ x. x +ℤ pos 1) (sym deep),
        λ h. cc,
      ),
    )
  ]

  move-parent : (r : Shape) → r.id ≢ n.id → (move r).parent ≡ r.parent
  unfolding moved
  move-parent r ne = ground arith

  -- A row and its folder, both below the moved one: they move together.
  move_together :
      (i : Uuid) (r p : Shape)
      → s i ≡ some r
      → IsUnder g s r p
      → has_prefix r.path n.path ≡ true
      → has_prefix p.path n.path ≡ true
      → ((move r).path ≡ (move p).path ++ g.seg r.id) × ((move r).depth ≡ (move p).depth +ℤ pos 1)
  move_together i r p er under below above =
      let mr = move_below i r er below in
      let mp = move_below r.parent p under.0 above in
      (
        mr.0
            ∙ ap (λ q. new_path ++ drop (length n.path) q) under.2
            ∙ ap (λ q. new_path ++ q)
                (drop-append_le (length n.path) p.path (g.seg r.id)
                  (length_of_has_prefix p.path n.path above))
            ∙ sym (append_assoc new_path (drop (length n.path) p.path) (g.seg r.id))
            ∙ ap (λ q. q ++ g.seg r.id) (sym mp.0),
        mr.1 ∙ shift_deeper r.depth p.depth delta under.3 ∙ ap (λ x. x +ℤ pos 1) (sym mp.1),
      )

  above_outside :
      (r p : Shape)
      → IsUnder g s r p
      → has_prefix r.path n.path ≡ false
      → has_prefix p.path n.path ≡ false
  above_outside r p under out = elim (Bool-cases (has_prefix p.path n.path)) [
    | inl above ↦
        let longer : has_prefix r.path n.path ≡ true =
          ap (λ q. has_prefix q n.path) under.2
          ∙ has_prefix_longer p.path (g.seg r.id) n.path above in
        cc
    | inr free ↦ free
  ]

  move-IsPlaced :
      (i : Uuid) (r : Shape)
      → s i ≡ some r
      → r.id ≢ n.id
      → IsPlaced g s r
      → IsPlaced g after (move r)
  move-IsPlaced i r er ne (inl rooted) = elim (Bool-cases (has_prefix r.path n.path)) [
    | inl below ↦ absurd (ne (rooted_below g s t i n.id r n er at_n rooted below))
    | inr out ↦ subst (IsPlaced g after) (sym (move_outside i r er out)) (inl rooted)
  ]
  move-IsPlaced i r er ne (inr (p, under)) =
      let found : after (move r).parent ≡ some (move p) =
        ap after (move-parent r ne) ∙ after_of r.parent p under.0 in
      let folder : (move p).is_folder ≡ true = (move-flags p).0 ∙ under.1 in
      let trash : (move p).is_trashed ≡ true → (move r).is_trashed ≡ true =
        λ h. (move-flags r).1 ∙ under.4 (sym (move-flags p).1 ∙ h) in
      elim (Bool-cases (has_prefix r.path n.path)) [
        | inl below ↦
            let together =
              move_together i r p er under below
                (parent_below g s t i n.id r p n er at_n under below ne) in
            inr (
              move p,
              (
                found,
                folder,
                together.0 ∙ ap (λ i. (move p).path ++ g.seg i) (sym (move-id r)),
                together.1,
                trash,
              ),
            )
        | inr out ↦
            let still = move_outside i r er out in
            let free = move_outside r.parent p under.0 (above_outside r p under out) in
            inr (
              move p,
              (
                found,
                folder,
                ap (λ (q : Shape). q.path) still
                    ∙ under.2
                    ∙ ap₂ (λ (q : Shape) i. q.path ++ g.seg i) (sym free) (sym (move-id r)),
                ap (λ (q : Shape). q.depth) still
                    ∙ under.3
                    ∙ ap (λ (q : Shape). q.depth +ℤ pos 1) (sym free),
                trash,
              ),
            )
      ]

  pub moved-IsTree : IsTree g after
  moved-IsTree = record {
    no_nil = ap (map_shape move) t.no_nil;
    keyed = λ i r' e.
        let (r, er, m) = before i r' e in ap (λ (q : Shape). q.id) m ∙ move-id r ∙ t.keyed i r er;
    measured = λ i r' e.
        let (r, er, m) = before i r' e in
        subst (IsMeasured g after) (sym m) (move-IsMeasured i r er);
    placed = λ i r' e.
        let (r, er, m) = before i r' e in
        subst (IsPlaced g after) (sym m) (elim (ℕ_discrete r.id n.id) [
          | yes same ↦
              subst (λ q. IsPlaced g after (move q)) (sym (same_row g s t i n.id r n er at_n same))
                move-IsPlaced_root
          | no ne ↦ move-IsPlaced i r er ne (t.placed i r er)
        ]);
  }
