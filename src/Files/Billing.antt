-- ===== src/Files/Billing.antt =====
-- The quota checks of internal/biz/file.go and what a new file is billed.
use nagisa.Prelude.{
  ℕ, ◌+◌, ◌<◌, ◌≡◌, refl, sym, ◌∙◌, ap, subst, Bool, true, false, not, ◌||◌, some, List, [], ◌∷◌,
  Text, arith, ◌==◌, Bool-cases, inl, inr,
}
use nagisa.Prelude.Int.{pos, ◌+ℤ◌, leb_ℤ, ltb_ℤ}
use nagisa.Errors.{Error, ok}
use nagisa.Access.{Uuid, nil_id, Caller, Node, is_authenticated}
use nagisa.Store.{
  Platform, Db, User, Upload, guard, find_user, find_user_by_id, create_node, add_usage, counted,
  has_row, list_nodes, next_available_name, any_node, ListOption,
}
use nagisa.Store.Members.{find_user-write}
use nagisa.Store.Rows.{bind_ok, guard_ok, if_ok, pure_ok, or_raise_ok}
use nagisa.Tree.{load_writable_parent}
use nagisa.Tree.Invariant.Reads.{false_of_not, load_writable_parent_ok, next_available_name-IsRead}
use nagisa.Tree.Shapes.Below.{some_injective}
use nagisa.Files.Limits.{FileUsecase}
use nagisa.Files.Quota.{fits_quota, check_quota_for, check_quota}
use nagisa.Files.Commit.{
  Content, new_file, commit_new, commit_at, commit_node, is_overwrite, is_fail,
}
use nagisa.Files.Committing.{check_quota-IsRead}

bare_guard_ok :
    {u : Unit {0}} {after : Db} (test : Bool) (e : Error) (db : Db)
    → guard test e db ≡ (ok u, after)
    → test ≡ true
bare_guard_ok true e db h = refl
bare_guard_ok false e db h = cc

pos_add : (a b : ℕ) → pos a +ℤ pos b ≡ pos (a + b)
unfolding ◌+ℤ◌
pos_add a b = ground arith

named_user : (c : Caller) → is_authenticated c ≡ true → (c.user_id == nil_id) ≡ false
unfolding is_authenticated
named_user c h = ground arith

fits_quota_ok :
    {u : Unit {0}} {after : Db} (owner : User) (size : ℕ) (db : Db)
    → leb_ℤ owner.quota_bytes (pos 0) ≡ false
    → fits_quota owner (pos size) db ≡ (ok u, after)
    → ltb_ℤ owner.quota_bytes (pos (owner.used_bytes + size)) ≡ false
unfolding fits_quota
fits_quota_ok owner size db limited e =
    if_ok (leb_ℤ owner.quota_bytes (pos 0)) _ _ db e (λ free h. cc)
      (λ bound h.
        ap (ltb_ℤ owner.quota_bytes) (sym (pos_add owner.used_bytes size))
        ∙ false_of_not (
            bare_guard_ok (not (ltb_ℤ owner.quota_bytes (pos owner.used_bytes +ℤ pos size)))
              Error.quota_exceeded db h))

check_quota_ok :
    {u : Unit {0}} {after : Db} (c : Caller) (owner : User) (size : ℕ) (db : Db)
    → is_authenticated c ≡ true
    → find_user c.user_id db ≡ some owner
    → leb_ℤ owner.quota_bytes (pos 0) ≡ false
    → 0 < size
    → check_quota c (pos size) db ≡ (ok u, after)
    → ltb_ℤ owner.quota_bytes (pos (owner.used_bytes + size)) ≡ false
unfolding check_quota check_quota_for find_user_by_id
check_quota_ok {u = u} {after = after} c owner size db signed_in at_owner limited some_size e =
    let known = named_user c signed_in in
    let billed : (leb_ℤ (pos size) (pos 0) || (c.user_id == nil_id)) ≡ false = ground arith in
    if_ok (not (is_authenticated c)) _ _ db e
      (λ anonymous h. let never = sym anonymous ∙ ap not signed_in in cc)
      (λ present h.
        if_ok (leb_ℤ (pos size) (pos 0) || (c.user_id == nil_id)) _ _ db h
          (λ free h₁. let never = sym free ∙ billed in cc)
          (λ bound h₁. bind_ok (find_user_by_id c.user_id) db h₁ λ found db₁ finds h₂.
            or_raise_ok (find_user c.user_id db) Error.not_found db finds λ at_found same.
              let same_owner : found ≡ owner = some_injective (sym at_found ∙ at_owner) in
              fits_quota_ok owner size db₁ limited
                (subst (λ f. fits_quota f (pos size) db₁ ≡ (ok u, after)) same_owner h₂)))

-- The account after a new file of the given size.
abbrev pub billed_for : ℕ → User → User
billed_for size u = record u { used_bytes = u.used_bytes + size; file_count = u.file_count + 1 }

counted_add : (n k : ℕ) → counted n (pos k) ≡ n + k
unfolding ◌+ℤ◌
counted_add n k = ground arith

counted_zero : (n : ℕ) → counted n (pos 0) ≡ n
unfolding ◌+ℤ◌
counted_zero n = ground arith

abbrev bill : ℕ → User → User
bill size u = record u {
  used_bytes = counted u.used_bytes (pos size);
  file_count = counted u.file_count (pos 1);
  folder_count = counted u.folder_count (pos 0);
}

bill_lem : (size : ℕ) (u : User) → bill size u ≡ billed_for size u
bill_lem size u =
    rw (counted_add u.used_bytes size, counted_add u.file_count 1, counted_zero u.folder_count) refl

add_usage_ok :
    {u : Unit {0}} {after : Db} (id : Uuid) (size : ℕ) (owner : User) (db : Db)
    → find_user id db ≡ some owner
    → add_usage id (pos size) (pos 1) (pos 0) db ≡ (ok u, after)
    → find_user id after ≡ some (billed_for size owner)
unfolding add_usage
add_usage_ok {u = u} {after = after} id size owner db at_owner e =
    elim (Bool-cases (has_row id db)) [
      | inl here ↦
          let won = rw (here, add_usage) at e in
          subst (λ d. find_user id d ≡ some (billed_for size owner)) (ap (λ r. r.1) won)
            (find_user-write id (bill size) owner db (λ r at. refl) refl at_owner
              ∙ ap some (bill_lem size owner))
      | inr gone ↦ let lost = rw (gone, add_usage) at e in cc
    ]

find_user-create_node :
    (i : Uuid) (n : Node) (db : Db) → find_user i (create_node n db).1 ≡ find_user i db
unfolding create_node find_user
find_user-create_node i n db = refl

module _ (platform : Platform) (uc : FileUsecase) (c : Caller) (u : Upload) (id : Uuid)
    (content : Content) (owner : User) (signed_in : is_authenticated c ≡ true)
    (limited : leb_ℤ owner.quota_bytes (pos 0) ≡ false) (some_size : 0 < content.size) where
  abbrev IsBilled : Db → Type 0
  IsBilled after =
      (find_user c.user_id after ≡ some (billed_for content.size owner))
      × (ltb_ℤ owner.quota_bytes (pos (owner.used_bytes + content.size)) ≡ false)

  commit_new-IsBilled :
      {out : Node} {after : Db} (name : Text) (parent : Node) (db : Db)
      → find_user c.user_id db ≡ some owner
      → commit_new platform uc c u id content name parent db ≡ (ok out, after)
      → IsBilled after
  unfolding commit_new
  commit_new-IsBilled name parent db at_owner e =
      let file = new_file platform uc c u id content name parent in
      bind_ok (check_quota c (pos content.size)) db e λ v db₁ fits e₁.
        let same : db ≡ db₁ =
          sym (check_quota-IsRead c (pos content.size) db) ∙ ap (λ r. r.1) fits in
        let at_one = ap (find_user c.user_id) (sym same) ∙ at_owner in
        bind_ok (create_node file) db₁ e₁ λ saved db₂ creates e₂.
          let at_two : find_user c.user_id db₂ ≡ some owner =
            ap (λ r. find_user c.user_id r.1) (sym creates)
            ∙ find_user-create_node c.user_id file db₁
            ∙ at_one in
          bind_ok (add_usage c.user_id (pos content.size) (pos 1) (pos 0)) db₂ e₂ λ w db₃ counts e₃.
            pure_ok e₃ λ p q. subst IsBilled q (
              add_usage_ok c.user_id content.size owner db₂ at_two counts,
              check_quota_ok c owner content.size db signed_in at_owner limited some_size fits,
            )

  commit_at-IsBilled :
      {out : Node} {after : Db} (parent : Node) (found : List Node) (db : Db)
      → is_overwrite u.policy ≡ false
      → find_user c.user_id db ≡ some owner
      → commit_at platform uc c u id content parent found db ≡ (ok out, after)
      → IsBilled after
  unfolding commit_at
  commit_at-IsBilled parent [] db keeps at_owner e = commit_new-IsBilled u.name parent db at_owner e
  commit_at-IsBilled parent (existing ∷ rest) db keeps at_owner e =
      if_ok (is_overwrite u.policy) _ _ db e (λ over h. let never = sym over ∙ keeps in cc)
        (λ beside h.
          if_ok (is_fail u.policy) _ _ db h (λ fails h₁. cc)
            (λ renames h₁.
              bind_ok (next_available_name platform u.parent_id u.name) db h₁ λ name db₁ named h₂.
                let same : db ≡ db₁ =
                  sym (next_available_name-IsRead platform u.parent_id u.name db)
                  ∙ ap (λ r. r.1) named in
                commit_new-IsBilled name parent db₁ (ap (find_user c.user_id) (sym same) ∙ at_owner)
                  h₂))

list_one-IsRead :
    (platform : Platform) (u : Upload) (db : Db)
    → db
      ≡ (list_nodes platform
          (record any_node { parent_id = some u.parent_id; names = u.name ∷ [] })
          (ListOption.list_limit (pos 1) ∷ [])
          db).1
unfolding list_nodes
list_one-IsRead platform u db = refl

-- A caller with a quota uploads a file that is not empty and is to replace nothing: when `commitNode`
-- succeeds, the caller's account has the size and one file added to it and nothing else changed, and the
-- new usage is within the quota.
pub commit_node-IsBilled :
    (platform : Platform) (uc : FileUsecase) (c : Caller) (u : Upload) (id : Uuid)
    (content : Content) (owner : User) (db : Db) {out : Node} {after : Db}
    → is_authenticated c ≡ true
    → leb_ℤ owner.quota_bytes (pos 0) ≡ false
    → 0 < content.size
    → is_overwrite u.policy ≡ false
    → find_user c.user_id db ≡ some owner
    → commit_node platform uc c u id content db ≡ (ok out, after)
    → (find_user c.user_id after ≡ some (billed_for content.size owner))
      × (ltb_ℤ owner.quota_bytes (pos (owner.used_bytes + content.size)) ≡ false)
unfolding commit_node
commit_node-IsBilled platform uc c u id content owner db signed_in limited some_size keeps at_owner
      e =
    bind_ok (load_writable_parent platform uc.nodes c u.parent_id) db e λ parent db₁ loads e₁.
      let (at_parent, same) = load_writable_parent_ok platform uc.nodes c u.parent_id db loads in
      guard_ok (not (leb_ℤ uc.nodes.max_depth (parent.depth +ℤ pos 1))) Error.invalid_argument _ db₁
        e₁
        λ shallow e₂.
          bind_ok
            (list_nodes platform
              (record any_node { parent_id = some u.parent_id; names = u.name ∷ [] })
              (ListOption.list_limit (pos 1) ∷ []))
            db₁ e₂
            λ found db₂ lists e₃.
              let here : db ≡ db₂ = same ∙ list_one-IsRead platform u db₁ ∙ ap (λ r. r.1) lists in
              commit_at-IsBilled platform uc c u id content owner signed_in limited some_size parent
                found db₂ keeps (ap (find_user c.user_id) (sym here) ∙ at_owner) e₃
