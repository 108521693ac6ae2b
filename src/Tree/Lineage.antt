-- ===== src/Tree/Lineage.antt =====
-- The ancestor chain of internal/biz/node.go is complete: in a well-formed tree it reaches the root level.
use nagisa.Prelude.{
  ℕ, zero, suc, ◌≤◌, ◌≡◌, refl, sym, ◌∙◌, ap, subst, ◌⊎◌, inl, inr, false, some, List, [], ◌∷◌,
  arith, Bool-cases, Option-cases, ◌==◌, ==_iff,
}
use nagisa.Prelude.Int.{pos, ◌+ℤ◌, pos_part}
use nagisa.Access.{Uuid, nil_id, Node}
use nagisa.Store.{Platform, IsStandard, Db, find_node}
use nagisa.Store.Rows.{map_option, find_node-id}
use nagisa.Tree.Config.{NodeUsecase}
use nagisa.Tree.Chain.{chain, chain_loop}
use nagisa.Tree.Shapes.{Shape}
use nagisa.Tree.Shapes.Below.{some_injective}
use nagisa.Tree.Invariant.{shape_of, shapes, IsWellFormed, IsRow}

-- The list leads from below `up` down to the node: each entry is a row and the parent of the next.
abbrev pub IsLineage : Db → Uuid → List Node → Node → Type 0
IsLineage db up [] node = node.parent_id ≡ up
IsLineage db up (a ∷ rest) node =
    (a.parent_id ≡ up) × (find_node a.id db ≡ some a) × IsLineage db a.id rest node

level : (d k : ℕ) → pos d ≡ pos k +ℤ pos 1 → d ≡ suc k
unfolding ◌+ℤ◌
level d k e = ground arith

not_top : {C : Type 0} (i : Uuid) → (i == nil_id) ≡ false → i ≡ 0 → C
not_top i e same = absurd (clash i e same)
  where
    clash : (i : Uuid) → (i == nil_id) ≡ false → i ≡ 0 → ⊥
    clash i e same = ground arith

module _ (platform : Platform) (std : IsStandard platform) (db : Db)
    (wf : IsWellFormed platform std db) where
  find-shape : (i : Uuid) (n : Node) → find_node i db ≡ some n → shapes db i ≡ some (shape_of n)
  unfolding shapes
  find-shape i n e = ap (map_option shape_of) e

  find_of_shape :
      (i : Uuid) (p : Shape)
      → shapes db i ≡ some p
      → (n : Node) × (find_node i db ≡ some n) × (shape_of n ≡ p)
  unfolding shapes
  find_of_shape i p e = elim (Option-cases (find_node i db)) [
    | inl absent ↦ let lost = sym (ap (map_option shape_of) absent) ∙ e in cc
    | inr (n, found) ↦ (n, found, some_injective (sym (ap (map_option shape_of) found) ∙ e))
  ]

  -- A row is at the root level, or its parent is a row one level up.
  parent_of :
      (cur : Node) (d : ℕ)
      → IsRow db cur
      → cur.depth ≡ pos d
      → (cur.parent_id ≡ 0)
        ⊎ ((k : ℕ) × ((d ≡ suc k)
              × ((p : Node) × ((find_node cur.parent_id db ≡ some p) × (p.depth ≡ pos k)))))
  parent_of cur d at_cur deep = elim (wf.placed cur.id (shape_of cur) at_cur) [
    | inl rooted ↦ inl rooted.0
    | inr (q, under) ↦
        let (k, deep_q, long) = wf.measured cur.parent_id q under.0 in
        let (p, found, same) = find_of_shape cur.parent_id q under.0 in
        inr (
          k,
          (
            level d k (sym deep ∙ under.3 ∙ ap (λ e. e +ℤ pos 1) deep_q),
            (p, (found, ap (λ (r : Shape). r.depth) same ∙ deep_q)),
          ),
        )
  ]

  chain_loop-IsLineage :
      (rounds d : ℕ) (node cur : Node) (above : List Node)
      → IsRow db cur
      → cur.depth ≡ pos d
      → d ≤ rounds
      → IsLineage db cur.parent_id above node
      → IsLineage db nil_id (chain_loop db rounds cur above) node
  unfolding chain_loop
  chain_loop-IsLineage zero d node cur above at_cur deep le line =
      elim (parent_of cur d at_cur deep) [
        | inl top ↦ subst (λ u. IsLineage db u above node) top line
        | inr (k, (more, p)) ↦ absurd (omega arith)
      ]
  chain_loop-IsLineage (suc rounds) d node cur above at_cur deep le line =
      elim (Bool-cases (cur.parent_id == nil_id)) [
        | inl top ↦
            rw top
              (subst (λ u. IsLineage db u above node) ((==_iff cur.parent_id nil_id).0 top) line)
        | inr inner ↦ elim (parent_of cur d at_cur deep) [
          | inl top ↦ not_top cur.parent_id inner top
          | inr (k, (more, (p, (found, deep_p)))) ↦
              let key : p.id ≡ cur.parent_id = find_node-id cur.parent_id db p found in
              let at_p : find_node p.id db ≡ some p = ap (λ i. find_node i db) key ∙ found in
              rw (inner, found)
                (chain_loop-IsLineage rounds k node p (p ∷ above) (find-shape p.id p at_p) deep_p
                  (omega arith) (refl, at_p, subst (λ u. IsLineage db u above node) (sym key) line))
        ]
      ]

  -- In a well-formed tree the ancestor chain of a row that is no deeper than the limit is complete: it
  -- starts at the root level, each entry is the parent folder of the next, and the last is the node's.
  pub chain_complete :
      (uc : NodeUsecase) (node : Node) (d : ℕ)
      → IsRow db node
      → node.depth ≡ pos d
      → d ≤ pos_part uc.max_depth
      → IsLineage db nil_id (chain platform uc node db).ancestors node
  unfolding chain
  chain_complete uc node d at_n deep le =
      chain_loop-IsLineage (pos_part uc.max_depth) d node node [] at_n deep le refl
