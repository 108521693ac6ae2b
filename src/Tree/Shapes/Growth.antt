-- ===== src/Tree/Shapes/Growth.antt =====
-- A new row under a live folder, or at the root level, keeps the tree invariant.
use nagisa.Prelude.{
  ℕ, ◌+◌, ◌<◌, ◌≡◌, refl, sym, ◌∙◌, ap, subst, inl, inr, none, some, ◌++◌, Text, length, arith,
  Bool-cases, ◌==◌, ==_iff, if◌then◌else◌, length-append,
}
use nagisa.Prelude.Int.{ℤ, pos, ◌+ℤ◌}
use nagisa.Access.{Uuid}
use nagisa.Tree.Shapes.{Shape, Shapes, Segments, IsPlaced, IsMeasured, IsTree}
use nagisa.Tree.Shapes.Below.{some_injective}
use nagisa.Tree.Shapes.Restoring.{IsLive}

abbrev pub grown : Shape → Shapes → Shapes
grown n s i = if i == n.id then some n else s i

one_deeper : (a : ℕ) → pos a +ℤ pos 1 ≡ pos (a + 1)
unfolding ◌+ℤ◌
one_deeper a = ground arith

module _ (g : Segments) (s : Shapes) (t : IsTree g s) (n : Shape) (fresh : s n.id ≡ none)
    (not_nil : 0 < n.id) (path : Text) (depth : ℤ) (live : IsLive s n.parent path depth)
    (path_eq : n.path ≡ path ++ g.seg n.id) (depth_eq : n.depth ≡ depth +ℤ pos 1) where
  abbrev after : Shapes
  after = grown n s

  -- Where the new row is not, nothing has changed.
  old_row : (i : Uuid) (r : Shape) → s i ≡ some r → after i ≡ some r
  old_row i r er = elim (Bool-cases (i == n.id)) [
    | inl here ↦
        let same = (==_iff i n.id).0 here in let never = sym fresh ∙ ap s (sym same) ∙ er in cc
    | inr there ↦ rw there er
  ]

  new_row : after n.id ≡ some n
  new_row = rw ((==_iff n.id n.id).1 refl)

  split_row :
      {C : Type 0} (i : Uuid) (r : Shape)
      → after i ≡ some r
      → (i ≡ n.id → n ≡ r → C)
      → (s i ≡ some r → C)
      → C
  split_row i r e on_new on_old = elim (Bool-cases (i == n.id)) [
    | inl here ↦
        let same = (==_iff i n.id).0 here in
        on_new same (some_injective (sym new_row ∙ ap after (sym same) ∙ e))
    | inr there ↦ on_old (sym (rw there) ∙ e)
  ]

  kept_place : (r : Shape) → IsPlaced g s r → IsPlaced g after r
  kept_place r (inl rooted) = inl rooted
  kept_place r (inr (p, under)) =
      inr (p, (old_row r.parent p under.0, under.1, under.2, under.3, under.4))

  new_place : IsLive s n.parent path depth → IsPlaced g after n
  new_place (inl (top, at_root, level)) =
      inl (top, path_eq ∙ ap (λ q. q ++ g.seg n.id) at_root, depth_eq ∙ level)
  new_place (inr (p, (at_p, folder, alive, same_path, same_depth))) = inr (
    p,
    (
      old_row n.parent p at_p,
      folder,
      path_eq ∙ ap (λ q. q ++ g.seg n.id) (sym same_path),
      depth_eq ∙ ap (λ d. d +ℤ pos 1) (sym same_depth),
      λ gone. cc,
    ),
  )

  new_length : length n.path ≡ length path + 37
  new_length =
      ap length path_eq
      ∙ length-append path (g.seg n.id)
      ∙ ap (λ k. length path + k) (g.seg_length n.id)

  new_measure : IsLive s n.parent path depth → IsMeasured g after n
  new_measure (inl (top, at_root, level)) =
      (0, depth_eq ∙ level, new_length ∙ ap (λ q. length q + 37) at_root)
  new_measure (inr (p, (at_p, folder, alive, same_path, same_depth))) =
      let (a, deep, long) = t.measured n.parent p at_p in
      (
        a + 1,
        depth_eq ∙ ap (λ d. d +ℤ pos 1) (sym same_depth ∙ deep) ∙ one_deeper a,
        omega (arith, new_length, ap length same_path, long),
      )

  pub grown-IsTree : IsTree g after
  grown-IsTree = record {
    no_nil = elim (Bool-cases (0 == n.id)) [
      | inl nil ↦ absurd (omega (arith, (==_iff 0 n.id).0 nil))
      | inr other ↦ rw other t.no_nil
    ];
    keyed = λ i r e.
        split_row i r e (λ here same. ap (λ (q : Shape). q.id) (sym same) ∙ sym here)
          (λ old. t.keyed i r old);
    placed = λ i r e.
        split_row i r e (λ here same. subst (IsPlaced g after) same (new_place live))
          (λ old. kept_place r (t.placed i r old));
    measured = λ i r e.
        split_row i r e (λ here same. subst (IsMeasured g after) same (new_measure live))
          (λ old. t.measured i r old);
  }
