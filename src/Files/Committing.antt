-- ===== src/Files/Committing.antt =====
-- `commitNode` of internal/biz/file.go and the tree.
use nagisa.Prelude.{
  ℕ, ◌+◌, ◌≡◌, refl, sym, ◌∙◌, ap, subst, Bool, true, false, not, keep, codes, is_empty, Bool-cases,
  ◌&&◌, ◌||◌, List, [], ◌∷◌, Text, inl, inr, drop, length, leb, ltb, arith, ◌==◌, if◌then◌else◌,
}
use nagisa.Prelude.Int.{ℤ, pos, leb_ℤ}
use nagisa.Errors.{Result, ok, err}
use nagisa.Access.{Uuid, nil_id, Caller, Node, is_authenticated}
use nagisa.Store.{
  Platform, Db, Tx, User, NodeVersion, find_user, find_user_by_id, list_versions, delete_version,
  enqueue_deletion, create_version, next_version_number, next_version_number-keeps, ListOption,
  pure, continue, ◌>>=◌,
}
use nagisa.Store.Rows.{or_raise_reads, bind_keeps, read_keeps, if_keeps, pure_ok}
use nagisa.Tree.{new_id}
use nagisa.Tree.Invariant.{shape_of}
use nagisa.Tree.Invariant.Reads.{IsRead}
use nagisa.Tree.Invariant.Aside.{IsAside}
use nagisa.Files.Limits.{FileUsecase}
use nagisa.Files.Quota.{fits_quota, check_quota_for, check_quota}
use nagisa.Files.Commit.{drop_versions, trim_versions, revision, retain, trim_counted, keep_version}

fits_quota-IsRead : (u : User) (extra : ℤ) → IsRead (fits_quota u extra)
unfolding fits_quota
fits_quota-IsRead u extra db = ground arith

pub check_quota_for-IsRead : (id : Uuid) (extra : ℤ) → IsRead (check_quota_for id extra)
unfolding check_quota_for find_user_by_id
check_quota_for-IsRead id extra db =
    if_keeps (λ d. d ≡ db) (leb_ℤ extra (pos 0) || (id == nil_id)) _ _ db refl
      (read_keeps (λ d. d ≡ db) (find_user_by_id id) _ db (or_raise_reads (find_user id db) _ db)
        refl (λ u. fits_quota-IsRead u extra db))

pub check_quota-IsRead : (c : Caller) (extra : ℤ) → IsRead (check_quota c extra)
unfolding check_quota
check_quota-IsRead c extra db =
    if_keeps (λ d. d ≡ db) (not (is_authenticated c)) _ _ db refl
      (check_quota_for-IsRead c.user_id extra db)

-- What a step leaves of the nodes, of the count of minted identifiers, and of the accounts.
abbrev pub IsBeside : Db → Db → Type 0
IsBeside db after = IsAside db after × (after.users ≡ db.users)

-- A step that leaves nodes and accounts alone.
abbrev LeavesNodes {ℓ} : {A : Type ℓ} → Tx A → Type 0
LeavesNodes m = (start db : Db) → IsBeside start db → IsBeside start (m db).1

enqueue_deletion_rest : (key reason : Text) → LeavesNodes (enqueue_deletion key reason)
unfolding enqueue_deletion
enqueue_deletion_rest key reason start db rest = elim (Bool-cases (is_empty key)) [
  | inl e ↦ rw e rest
  | inr e ↦ rw e rest
]

drop_versions_rest : (vs : List NodeVersion) → LeavesNodes (drop_versions vs)
unfolding drop_versions delete_version
drop_versions_rest [] start db rest = rest
drop_versions_rest (v ∷ vs) start db rest =
    let below = record db { versions = keep (λ w. not (w.id == v.id)) db.versions } in
    bind_keeps (IsBeside start) (enqueue_deletion v.storage_key (codes "version_trim")) _ below
      (enqueue_deletion_rest _ _ start below rest)
      (λ u mid e.
        drop_versions_rest vs start mid
          (subst (IsBeside start) (ap (λ r. r.1) e) (enqueue_deletion_rest _ _ start below rest)))

-- The result of a step, too, has the shape of the node.
abbrev IsOutcome : Db → Node → Result Node × Db → Type 0
IsOutcome start n r =
    IsBeside start r.1
    × ((out : Node) (after : Db) → r ≡ (ok out, after) → shape_of out ≡ shape_of n)

pure-IsOutcome :
    (start : Db) (n m : Node) (db : Db)
    → IsBeside start db
    → shape_of m ≡ shape_of n
    → IsOutcome start n (ok m, db)
pure-IsOutcome start n m db rest same =
    (rest, λ out after e. pure_ok e λ p q. ap shape_of (sym p) ∙ same)

bind-IsOutcome :
    {A : Type 0} (start : Db) (n : Node) (m : Tx A) (f : A → Tx Node) (db : Db)
    → IsBeside start (m db).1
    → ((a : A) (mid : Db) → IsBeside start mid → IsOutcome start n (f a mid))
    → IsOutcome start n (continue f (m db))
bind-IsOutcome {A = A} start n m f db rest next = go (m db) rest
  where
    go : (r : Result A × Db) → IsBeside start r.1 → IsOutcome start n (continue f r)
    go (ok a, mid) aside = next a mid aside
    go (err x, mid) aside = (aside, λ out after e. cc)

if-IsOutcome :
    (start : Db) (n : Node) (test : Bool) (m k : Tx Node) (db : Db)
    → IsOutcome start n (m db)
    → IsOutcome start n (k db)
    → IsOutcome start n ((if test then m else k) db)
if-IsOutcome start n true m k db on_true on_false = on_true
if-IsOutcome start n false m k db on_true on_false = on_false

trim_versions-IsOutcome :
    (n : Node) (kept : ℕ) (start db : Db)
    → IsBeside start db
    → IsOutcome start n (trim_versions n kept db)
unfolding trim_versions list_versions
trim_versions-IsOutcome n kept start db rest =
    bind-IsOutcome start n (list_versions n.id (ListOption.list_limit (pos 1000) ∷ [])) _ db rest
      λ versions mid rest₁.
        let few = pure (record n { version_count = length versions }) in
        let trimmed =
          drop_versions (drop kept versions) >>= λ _. pure (record n { version_count = kept }) in
        if-IsOutcome start n (leb (length versions) kept) few trimmed mid
          (pure-IsOutcome start n (record n { version_count = length versions }) mid rest₁ refl)
          (bind-IsOutcome start n (drop_versions (drop kept versions)) _ mid
            (drop_versions_rest (drop kept versions) start mid rest₁)
            λ u last rest₂.
              pure-IsOutcome start n (record n { version_count = kept }) last rest₂ refl)

module _ (platform : Platform) (uc : FileUsecase) (c : Caller) where
  create_version_rest : (v : NodeVersion) → LeavesNodes (create_version platform v)
  unfolding create_version
  create_version_rest v start db rest = ground (arith, rest.0.0, rest.0.1, rest.1)

  new_id_rest : LeavesNodes (new_id platform)
  unfolding new_id
  new_id_rest start db rest = ((rest.0.0, omega (arith, rest.0.1)), rest.1)

  retain_rest : (n : Node) (comment : Text) → LeavesNodes (retain platform uc c n comment)
  unfolding retain
  retain_rest n comment start db rest =
      read_keeps (IsBeside start) (next_version_number n.id) _ db
        (next_version_number-keeps n.id db) rest
        λ version.
          bind_keeps (IsBeside start) (new_id platform) _ db (new_id_rest start db rest) λ id mid e.
            let minted = subst (IsBeside start) (ap (λ r. r.1) e) (new_id_rest start db rest) in
            let made =
              create_version_rest (revision platform uc c n id version comment) start mid minted in
            bind_keeps (IsBeside start)
              (create_version platform (revision platform uc c n id version comment)) _ mid made
              (λ v last e₁. subst (IsBeside start) (ap (λ r. r.1) e₁) made)

  trim_counted-IsOutcome :
      (n m : Node) (start db : Db)
      → IsBeside start db
      → shape_of m ≡ shape_of n
      → IsOutcome start n (trim_counted platform uc m db)
  unfolding trim_counted
  trim_counted-IsOutcome n m start db rest same =
      if-IsOutcome start n
        (ltb 0 uc.limit.max_versions && ltb uc.limit.max_versions m.version_count)
        (trim_versions m uc.limit.max_versions) (pure m) db
        (let (aside, shaped) = trim_versions-IsOutcome m uc.limit.max_versions start db rest in
          (aside, λ out after e. shaped out after e ∙ same))
        (pure-IsOutcome start n m db rest same)

  pub keep_version-IsOutcome :
      (n : Node) (comment : Text) (start db : Db)
      → IsBeside start db
      → IsOutcome start n (keep_version platform uc c n comment db)
  unfolding keep_version
  keep_version-IsOutcome n comment start db rest =
      let counted = record n { version_count = n.version_count + 1 } in
      let kept = retain platform uc c n comment >>= λ _. trim_counted platform uc counted in
      if-IsOutcome start n (not uc.limit.keep_versions) (pure n) kept db
        (pure-IsOutcome start n n db rest refl)
        (bind-IsOutcome start n (retain platform uc c n comment) _ db
          (retain_rest n comment start db rest)
          λ u mid rest₁. trim_counted-IsOutcome n counted start mid rest₁ refl)
