-- ===== src/Files/Inline.antt =====
-- `UploadSmallFile` of internal/biz/file.go and the tree, and what a failed commit leaves.
use nagisa.Prelude.{
  ◌+◌, ◌≡◌, refl, sym, ◌∙◌, ap, subst, not, ◌||◌, Text, length, is_empty, any, trim_space, byte_len,
  ltb, arith,
}
use nagisa.Prelude.Int.{pos, ltb_ℤ}
use nagisa.Errors.{Error, Result, ok, err}
use nagisa.Perm.{perm_upload}
use nagisa.Access.{Uuid, Caller, Node, is_authenticated, require}
use nagisa.Store.{
  Platform, IsStandard, Db, Upload, with_tx, with_tx_keeps, with_tx_err, or_error, find_node,
}
use nagisa.Tree.{new_id}
use nagisa.Tree.Invariant.{IsWellFormed}
use nagisa.Tree.Invariant.Creating.{IsMinted, IsFree, minted-IsFree, aside_keeps}
use nagisa.Tree.Invariant.Aside.{shapes_of_nodes}
use nagisa.Files.World.{World, ObjectStore, try_io, fail, done, on_objects, in_db, handle}
use nagisa.Files.Limits.{FilePlatform, FileUsecase}
use nagisa.Files.Sessions.{is_separator}
use nagisa.Files.Commit.{Content, commit_node}
use nagisa.Files.Transfer.{UploadSmallFileInput, commit_or_remove, upload_small_file}
use nagisa.Files.Filing.{IsKeyed, commit_node_keeps}
use nagisa.Files.Effects.{check_keeps, after_keeps, handle_keeps, or_error_reads}

module _ {S : Type 0} (platform : Platform) (files : FilePlatform) (store : ObjectStore S)
    (uc : FileUsecase) where
  -- Removing the object, whether it works or not, ends in the error and leaves the tables.
  given_up :
      (key : Text) (e : Error) (w : World S)
      → try_io {B = Node} (on_objects (store.remove_object key)) (λ _. fail e) (λ _. fail e) w
        ≡ (err e, record w { objects = (store.remove_object key w.objects).1 })
  given_up key e w = go (store.remove_object key w.objects).0
    where
      go :
          (r : Result (Unit {0}))
          → handle {B = Node}
              (λ _. fail e)
              (λ _. fail e)
              (r, record w { objects = (store.remove_object key w.objects).1 })
            ≡ (err e, record w { objects = (store.remove_object key w.objects).1 })
      go (ok u) = refl
      go (err x) = refl

  undone :
      {e : Error} {after : World S} (key : Text) (w : World S) (r : Result Node × Db)
      → ((x : Error) → r.0 ≡ err x → r.1 ≡ w.db)
      → handle
          (λ x. try_io (on_objects (store.remove_object key)) (λ _. fail x) (λ _. fail x))
          done
          (r.0, record w { db = r.1 })
        ≡ (err e, after)
      → after ≡ record w { objects = (store.remove_object key w.objects).1 }
  undone key w (ok n, d) same h = cc
  undone key w (err x, d) same h =
      ap (λ r. r.1) (sym h ∙ given_up key x (record w { db = d }))
      ∙ ap (λ b. record w { db = b; objects = (store.remove_object key w.objects).1 }) (same x refl)

  -- Where the commit of `CompleteUpload` or `UploadSmallFile` fails, the tables are as they were, and the
  -- object that was written for it is removed.
  pub commit_or_remove_undone :
      {e : Error} {after : World S} (c : Caller) (u : Upload) (id : Uuid) (content : Content)
      (w : World S)
      → commit_or_remove platform files store uc c u id content w ≡ (err e, after)
      → after ≡ record w { objects = (store.remove_object content.key w.objects).1 }
  unfolding commit_or_remove
  commit_or_remove_undone c u id content w h =
      undone content.key w (with_tx (commit_node platform uc c u id content) w.db)
        (λ x e. with_tx_err (commit_node platform uc c u id content) w.db e) h

  module _ (std : IsStandard platform) (c : Caller) where
    abbrev IsKept : Db → Type 0
    IsKept db = IsWellFormed platform std db × IsMinted platform db

    commit_or_remove_keeps :
        (u : Upload) (id : Uuid) (content : Content) (w : World S)
        → IsKept w.db
        → IsKeyed w.db
        → IsFree platform w.db id
        → IsKept (commit_or_remove platform files store uc c u id content w).1.db
    unfolding commit_or_remove
    commit_or_remove_keeps u id content w kept keyed free =
        handle_keeps IsKept
          (λ e. try_io (on_objects (store.remove_object content.key)) (λ _. fail e) (λ _. fail e))
          done (in_db (with_tx (commit_node platform uc c u id content)) w)
          (λ e v. ap (λ r. r.1.db) (given_up content.key e v)) (λ n v. refl)
          (with_tx_keeps IsKept (commit_node platform uc c u id content) w.db kept
            (λ n after e. commit_node_keeps platform std uc c u id content w.db kept keyed free e))

    -- Two identifiers were drawn, the first for the node.
    drawn :
        (db next : Db)
        → next ≡ record db { next = db.next + 1 }
        → IsKept db
        → IsKeyed db
        → let last = record next { next = next.next + 1 } in
          IsKept last × IsKeyed last × IsFree platform last (platform.minted db.next)
    unfolding find_node
    drawn db next e kept keyed =
        let after = record db { next = db.next + 2 } in
        let (fresh, some_id) = minted-IsFree platform std uc.nodes c db kept.1 in
        let less = std.minted_grows db.next (db.next + 2) (omega arith) in
        let free : IsFree platform after (platform.minted db.next) = (
          ap (λ s. s (platform.minted db.next)) (shapes_of_nodes db after refl) ∙ fresh,
          some_id,
          less,
        ) in
        let bump : Db → Db = λ d. record d { next = d.next + 1 } in
        let twice : db.next + 1 + 1 ≡ db.next + 2 = omega arith in
        let last : record next { next = next.next + 1 } ≡ after =
          ap {B = Db} bump e ∙ ap {B = Db} (λ k. record db { next = k }) twice in
        subst (λ d. IsKept d × IsKeyed d × IsFree platform d (platform.minted db.next)) (sym last)
          (aside_keeps platform std uc.nodes c db after (refl, omega arith) kept, keyed, free)

    -- Whether it succeeds or fails, and whatever the object store answers, `UploadSmallFile` leaves a
    -- well-formed tree, in which every row has an identifier that was minted, in that state. A node with
    -- the name may be there or not, and be replaced or not. Identifiers are keys of the table.
    pub upload_small_file_keeps :
        (i : UploadSmallFileInput) (w : World S)
        → IsWellFormed platform std w.db
        → IsMinted platform w.db
        → IsKeyed w.db
        → let after = (upload_small_file platform files store uc c i w).1.db in
          IsWellFormed platform std after × IsMinted platform after
    unfolding upload_small_file new_id
    upload_small_file_keeps i w wf minted keyed =
        let kept : IsKept w.db = (wf, minted) in
        let name = trim_space i.name in
        check_keeps IsKept (is_authenticated c) Error.unauthenticated _ w kept (
          after_keeps IsKept (in_db (or_error (require c perm_upload))) _ w (or_error_reads _ w.db)
            kept
            λ v w₁ same.
              let kept₁ = subst IsKept (sym same) kept in
              let keyed₁ = subst IsKeyed (sym same) keyed in
              check_keeps IsKept (not (ltb uc.limit.max_inline_size (length i.content)))
                Error.too_large _ w₁ kept₁
                (check_keeps IsKept
                  (not (
                    is_empty name
                    || any is_separator name
                    || ltb_ℤ uc.nodes.max_name (pos (byte_len name))))
                  Error.invalid_argument _ w₁ kept₁
                  (after_keeps IsKept
                    (on_objects (store.put_object _ i.content (length i.content) _)) _
                    (record w₁ { db = record w₁.db { next = w₁.db.next + 1 } }) refl
                    (aside_keeps platform std uc.nodes c w₁.db _ (refl, omega arith) kept₁)
                    λ etag w₂ put.
                      let (kept₂, keyed₂, free) = drawn w₁.db w₂.db put kept₁ keyed₁ in
                      commit_or_remove_keeps _ _ _
                        (record w₂ { db = record w₂.db { next = w₂.db.next + 1 } }) kept₂ keyed₂
                        free)))
