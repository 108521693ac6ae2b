-- ===== src/Shares/Visits.antt =====
-- What a visitor reaches through a link of internal/biz/share.go.
use nagisa.Prelude.{
  ℕ, ◌≡◌, refl, sym, ◌∙◌, ap, ap₂, subst, Bool, true, false, not, ◌&&◌, ◌||◌, some, Text,
  has_prefix, is_empty, trim_space, ◌==◌, ◌↔◌, arith,
}
use nagisa.Errors.{Error, Result, ok}
use nagisa.Perm.{ShareStatus, is_active_share, is_active_status, is_trashed_status, NodeStatus}
use nagisa.Access.{Uuid, Node, nil_id}
use nagisa.Store.{
  Platform, IsStandard, Db, Share, guard, pure, ◌>>◌, find_node, find_token, find_node_by_id,
  find_share_by_token,
}
use nagisa.Store.Rows.{
  bind_ok, guard_ok, pure_ok, if_ok, or_raise_ok, find_node_by_id_ok, map_option, guard_keeps,
  read_keeps, or_raise_reads,
}
use nagisa.Tree.Shapes.Below.{IsWithin, IsWithin-of_prefix}
use nagisa.Tree.Invariant.{shape_of, shapes, segments, IsWellFormed}
use nagisa.Tree.Invariant.Reads.{false_of_not}
use nagisa.Shares.Links.{ShareUsecase}
use nagisa.Shares.Visitors.{
  is_expired, is_exhausted, is_visible, is_revoked, is_marked_expired, redeemable, resolve_link,
  link_node, link_descendant, resolve_link_node,
}

-- A link whose status is one of the three named ones.
abbrev pub has_status : ShareStatus → Bool
has_status ShareStatus.unspecified = false
has_status _ = true

active_iff :
    (status : ShareStatus)
    → has_status status ≡ true
    → is_active_share status ≡ (not (is_revoked status) && not (is_marked_expired status))
active_iff ShareStatus.unspecified h = cc
active_iff ShareStatus.active h = refl
active_iff ShareStatus.expired h = refl
active_iff ShareStatus.revoked h = refl

visible_parts :
    (s : Share) (now : ℕ)
    → has_status s.status ≡ true
    → is_visible s now ≡ (
        not (is_revoked s.status)
        && not (is_expired s now || is_marked_expired s.status)
        && not (is_exhausted s))
unfolding is_visible
visible_parts s now named =
    rw (active_iff s.status named) (
      regroup (is_revoked s.status) (is_marked_expired s.status) (is_expired s now)
        (is_exhausted s))
  where
    regroup :
        (a b d e : Bool) → ((not a && not b) && not d && not e) ≡ (not a && not (d || b) && not e)
    regroup true b d e = refl
    regroup false true true e = refl
    regroup false true false e = refl
    regroup false false true e = refl
    regroup false false false e = refl

all_three : (a b d : Bool) → a ≡ true → b ≡ true → d ≡ true → (a && b && d) ≡ true
all_three a b d p q r = ground arith

redeemable_of_visible :
    (s : Share) (now : ℕ) (db : Db)
    → (not (is_revoked s.status)
        && not (is_expired s now || is_marked_expired s.status)
        && not (is_exhausted s))
      ≡ true
    → redeemable s now db ≡ (ok s, db)
unfolding redeemable
redeemable_of_visible s now db h =
    passes (is_revoked s.status) (is_expired s now || is_marked_expired s.status) (is_exhausted s) h
  where
    passes :
        (a b d : Bool)
        → (not a && not b && not d) ≡ true
        → ◌≡◌ {A = Result Share × Db}
            ((guard (not a) Error.not_found
                >> (guard (not b) Error.not_found
                    >> (guard (not d) Error.resource_exhausted >> pure s)))
              db)
            (ok s, db)
    passes false false false h = refl
    passes true b d h = cc
    passes false true d h = cc
    passes false false true h = cc

resolve_link-succeeds :
    (uc : ShareUsecase) (raw : Text) (now : ℕ) (db : Db) (s : Share)
    → has_status s.status ≡ true
    → (resolve_link uc raw now db ≡ (ok s, db)) ↔ (
        (uc.allow_public ≡ true)
        × (is_empty (trim_space raw) ≡ false)
        × (find_token (trim_space raw) db ≡ some s)
        × (is_visible s now ≡ true))
unfolding resolve_link redeemable find_share_by_token
resolve_link-succeeds uc raw now db s named = (there, back)
  where
    there :
        resolve_link uc raw now db ≡ (ok s, db)
        → (uc.allow_public ≡ true)
          × (is_empty (trim_space raw) ≡ false)
          × (find_token (trim_space raw) db ≡ some s)
          × (is_visible s now ≡ true)
    there e = guard_ok uc.allow_public Error.unsupported _ db e λ public e₁.
        guard_ok (not (is_empty (trim_space raw))) Error.invalid_argument _ db e₁ λ given e₂.
          bind_ok (find_share_by_token (trim_space raw)) db e₂ λ found db₁ finds e₃.
            or_raise_ok (find_token (trim_space raw) db) Error.not_found db finds λ at_found same.
              guard_ok (not (is_revoked found.status)) Error.not_found _ db₁ e₃ λ kept e₄.
                guard_ok (not (is_expired found now || is_marked_expired found.status))
                  Error.not_found _ db₁ e₄
                  λ fresh e₅.
                    guard_ok (not (is_exhausted found)) Error.resource_exhausted _ db₁ e₅ λ left e₆.
                      pure_ok e₆ λ same_share _. (
                        public,
                        false_of_not given,
                        at_found ∙ ap some same_share,
                        ap (λ r. is_visible r now) (sym same_share)
                            ∙ visible_parts found now
                                (ap (λ r. has_status r.status) same_share ∙ named)
                            ∙ all_three _ _ _ kept fresh left,
                      )

    back :
        (uc.allow_public ≡ true)
          × (is_empty (trim_space raw) ≡ false)
          × (find_token (trim_space raw) db ≡ some s)
          × (is_visible s now ≡ true)
        → resolve_link uc raw now db ≡ (ok s, db)
    back (public, given, found, visible) =
        let whole = sym (visible_parts s now named) ∙ visible in
        rw (public, given, found) (redeemable_of_visible s now db whole)

redeemable_reads : (s : Share) (now : ℕ) (db : Db) → (redeemable s now db).1 ≡ db
unfolding redeemable
redeemable_reads s now db =
    guard_keeps (λ d. d ≡ db) (not (is_revoked s.status)) Error.not_found _ db refl
      (guard_keeps (λ d. d ≡ db) (not (is_expired s now || is_marked_expired s.status))
        Error.not_found _ db refl
        (guard_keeps (λ d. d ≡ db) (not (is_exhausted s)) Error.resource_exhausted _ db refl refl))

resolve_link_reads :
    (uc : ShareUsecase) (raw : Text) (now : ℕ) (db : Db) → (resolve_link uc raw now db).1 ≡ db
unfolding resolve_link find_share_by_token
resolve_link_reads uc raw now db =
    guard_keeps (λ d. d ≡ db) uc.allow_public Error.unsupported _ db refl
      (guard_keeps (λ d. d ≡ db) (not (is_empty (trim_space raw))) Error.invalid_argument _ db refl
        (read_keeps (λ d. d ≡ db) (find_share_by_token (trim_space raw)) _ db
          (or_raise_reads (find_token (trim_space raw) db) Error.not_found db) refl
          (λ s. redeemable_reads s now db)))

-- Whatever its result, `Resolve` leaves the tables as they were. It hands out exactly the links that
-- `Visible` describes, among those with a status: it succeeds with `s` if and only if links are allowed,
-- the trimmed token is not empty and names `s`, and `s` is visible at that time.
pub resolve_link_iff :
    (uc : ShareUsecase) (raw : Text) (now : ℕ) (db : Db) (s : Share)
    → has_status s.status ≡ true
    → ((resolve_link uc raw now db).1 ≡ db)
      × (((resolve_link uc raw now db).0 ≡ ok s) ↔ (
          (uc.allow_public ≡ true)
          × (is_empty (trim_space raw) ≡ false)
          × (find_token (trim_space raw) db ≡ some s)
          × (is_visible s now ≡ true)))
resolve_link_iff uc raw now db s named =
    let same = resolve_link_reads uc raw now db in
    let exact = resolve_link-succeeds uc raw now db s named in
    (
      same,
      (λ e. exact.0 (ap₂ (λ r d. (r, d)) e same), λ conditions. ap (λ r. r.0) (exact.1 conditions)),
    )

active-live :
    (status : NodeStatus) → is_active_status status ≡ true → is_trashed_status status ≡ false
active-live NodeStatus.unspecified h = refl
active-live NodeStatus.active h = refl
active-live NodeStatus.trashed h = cc

module _ (platform : Platform) (std : IsStandard platform) where
  -- In a well-formed tree a node that a link resolves is active and lies in the tree that was shared: it
  -- is the shared node or its parents lead up to it, and the shared node is active too.
  pub resolve_link_node-IsWithin :
      (s : Share) (node_id : Uuid) (node : Node) (db after : Db)
      → IsWellFormed platform std db
      → resolve_link_node s node_id db ≡ (ok node, after)
      → (is_active_status node.status ≡ true)
        × ((root : Node) × ((find_node s.node_id db ≡ some root)
              × (is_active_status root.status ≡ true)
              × IsWithin (shapes db) (shape_of root) (shape_of node)))
  unfolding resolve_link_node link_node link_descendant shapes
  resolve_link_node-IsWithin s node_id node db after wf e =
      bind_ok (link_node s) db e λ root db₁ roots e₁.
        bind_ok (find_node_by_id s.node_id) db roots λ r db₂ finds e₂.
          find_node_by_id_ok s.node_id db finds λ at_r same.
            guard_ok (is_active_status r.status) Error.not_found _ db₂ e₂ λ live e₃.
              pure_ok e₃ λ same_root same₁.
                let at_root : find_node s.node_id db ≡ some root = at_r ∙ ap some same_root in
                let live_root : is_active_status root.status ≡ true =
                  ap (λ q. is_active_status q.status) (sym same_root) ∙ live in
                if_ok ((node_id == nil_id) || (node_id == root.id)) _ _ db₁ e₁
                  (λ itself h. pure_ok h λ same_node _. (
                    ap (λ q. is_active_status q.status) (sym same_node) ∙ live_root,
                    (
                      root,
                      (
                        at_root,
                        live_root,
                        subst (λ q. IsWithin (shapes db) (shape_of root) (shape_of q)) same_node
                            IsWithin.itself,
                      ),
                    ),
                  ))
                  (λ below h. bind_ok (find_node_by_id node_id) db₁ h λ n db₃ finds_n h₁.
                    find_node_by_id_ok node_id db₁ finds_n λ at_n same₂.
                      guard_ok (is_active_status n.status) Error.not_found _ db₃ h₁ λ live_n h₂.
                        guard_ok (has_prefix n.path root.path) Error.permission_denied _ db₃ h₂
                          λ under h₃. pure_ok h₃ λ same_node _.
                            let at_node : find_node node_id db ≡ some node =
                              ap (find_node node_id) (same ∙ same₁) ∙ at_n ∙ ap some same_node in
                            (
                              ap (λ q. is_active_status q.status) (sym same_node) ∙ live_n,
                              (
                                root,
                                (
                                  at_root,
                                  live_root,
                                  IsWithin-of_prefix (segments platform std) (shapes db) wf node_id
                                      s.node_id (shape_of node) (shape_of root)
                                      (ap (map_option shape_of) at_node)
                                      (ap (map_option shape_of) at_root)
                                      (ap (λ q. has_prefix q.path root.path) (sym same_node)
                                        ∙ under),
                                ),
                              ),
                            ))
