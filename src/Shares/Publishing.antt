-- ===== src/Shares/Publishing.antt =====
-- `Create` of internal/biz/share.go: what a new link may carry.
use nagisa.Prelude.{
  ◌+◌, ◌≡◌, refl, sym, ◌∙◌, ap, subst, Bool, true, not, ◌&&◌, ◌||◌, Option, none, some, Text,
  is_empty, is_some, trim_space, ◌==◌, Bool-cases, if◌then◌else◌, inl, inr, arith,
}
use nagisa.Errors.{Error, ok}
use nagisa.Perm.{
  PermMask, has, intersect, is_zero, perm_download, perm_upload, perm_share, perm_share_scope,
}
use nagisa.Perm.Laws.{has-bit_and_right, has_of_both}
use nagisa.Access.{Caller, Node, NodeAccess, nil_id, is_folder, is_authenticated}
use nagisa.Store.{Platform, Db, Share, find_node, find_token, create_share, with_tx_ok}
use nagisa.Store.Rows.{bind_ok, guard_ok, pure_ok}
use nagisa.Tree.{NodeUsecase, require_access, evaluate, new_id}
use nagisa.Tree.Gate.{require_access_ok}
use nagisa.Shares.Links.{
  ShareUsecase, CreateShareInput, wanted_share_perms, valid_share_token, new_share, publish,
  create_granted, create_link,
}

-- A link never carries more than a share may.
pub wanted_share_perms_scope :
    (asked : PermMask) → has perm_share_scope (wanted_share_perms asked) ≡ true
unfolding wanted_share_perms has
wanted_share_perms_scope asked = elim (Bool-cases (is_zero (intersect asked perm_share_scope))) [
  | inl nothing ↦ rw nothing refl
  | inr some_asked ↦ rw some_asked (has-bit_and_right asked perm_share_scope)
]

none_of_not_some {ℓ} : {A : Type ℓ} (o : Option A) → not (is_some o) ≡ true → o ≡ none
none_of_not_some none h = refl
none_of_not_some (some a) h = cc

-- A permission of the link that passed its guard is one of the caller on the node.
held_of_guard : (asked held : Bool) → not (asked && not held) ≡ true → asked ≡ true → held ≡ true
held_of_guard asked held h e = ground arith

folder_of_guard :
    (asked folder held : Bool)
    → not (asked && (not folder || not held)) ≡ true
    → asked ≡ true
    → (folder ≡ true) × (held ≡ true)
folder_of_guard asked folder held h e = ground arith

token_of_guard :
    (i : CreateShareInput) (drawn : Text)
    → (is_empty (trim_space i.token) || valid_share_token (trim_space i.token)) ≡ true
    → valid_share_token drawn ≡ true
    → valid_share_token (if is_empty (trim_space i.token) then drawn else trim_space i.token) ≡ true
token_of_guard i drawn h good = ground arith

-- What a link carries is within the share scope and the caller's set, and what it lets visitors do to
-- the content the caller may do on the node.
abbrev pub IsWithinGrant : Caller → Node → NodeAccess → Share → Type 0
IsWithinGrant c node access s =
    (has (intersect c.perms perm_share_scope) s.permissions ≡ true)
    × (has s.permissions perm_download ≡ true → has access.perms perm_download ≡ true)
    × (has s.permissions perm_upload ≡ true
        → (is_folder node ≡ true) × (has access.perms perm_upload ≡ true))

module _ (platform : Platform) where
  publish_ok :
      {C : Type 0} (s out : Share) (db after : Db)
      → publish platform s db ≡ (ok out, after)
      → (find_token s.token db ≡ none → create_share platform s db ≡ (ok out, after) → C)
      → C
  unfolding publish
  publish_ok s out db after e next =
      guard_ok (not (is_some (find_token s.token db))) Error.already_exists _ db e
        λ fresh created. next (none_of_not_some _ fresh) created

  module _ (nodes : NodeUsecase) (uc : ShareUsecase) (c : Caller) where
    create_granted_ok :
        (i : CreateShareInput) (drawn : Text) (node : Node) (access : NodeAccess) (db after : Db)
        (s : Share)
        → valid_share_token drawn ≡ true
        → create_granted platform nodes uc c i drawn (node, access) db ≡ (ok s, after)
        → (valid_share_token s.token ≡ true)
          × (find_token s.token db ≡ none)
          × (s.node_id ≡ node.id)
          × IsWithinGrant c node access s
    unfolding create_granted new_id new_share create_share find_token
    create_granted_ok i drawn node access db after s good e =
        let perms = wanted_share_perms i.permissions in
        let token : Text = if is_empty (trim_space i.token) then drawn else trim_space i.token in
        guard_ok (not (has perms perm_download && not (has access.perms perm_download)))
          Error.permission_denied _ db e
          λ downloads e₁.
            guard_ok
              (not (
                has perms perm_upload
                && (not (is_folder node) || not (has access.perms perm_upload))))
              Error.permission_denied _ db e₁
              λ uploads e₂. guard_ok (has c.perms perms) Error.permission_denied _ db e₂ λ held e₃.
                guard_ok (is_empty (trim_space i.token) || valid_share_token (trim_space i.token))
                  Error.invalid_argument _ db e₃
                  λ formed e₄.
                    let id = platform.minted db.next in
                    let next = record db { next = db.next + 1 } in
                    let row = new_share c i id token node in
                    publish_ok row s next after (with_tx_ok (publish platform row) next after s e₄)
                      λ fresh created. pure_ok created λ same _.
                        let same_perms : perms ≡ s.permissions = ap (λ r. r.permissions) same in
                        let same_token : token ≡ s.token = ap (λ r. r.token) same in
                        (
                          ap valid_share_token (sym same_token)
                              ∙ token_of_guard i drawn formed good,
                          subst (λ t. find_token t db ≡ none) same_token fresh,
                          ap (λ r. r.node_id) (sym same),
                          (
                            ap (has (intersect c.perms perm_share_scope)) (sym same_perms)
                                ∙ has_of_both _ _ _ held (wanted_share_perms_scope i.permissions),
                            λ asks.
                                held_of_guard _ _ downloads
                                  (ap (λ m. has m perm_download) same_perms ∙ asks),
                            λ asks.
                                folder_of_guard _ _ _ uploads
                                  (ap (λ m. has m perm_upload) same_perms ∙ asks),
                          ),
                        )

    -- A link that was created is on the node that was asked for, on which the caller may share; it carries
    -- permissions within the share scope and the caller's account, downloads only if the caller may
    -- download the node and uploads only if the node is a folder in which the caller may upload; its token
    -- is well formed if what is drawn is, and no other link has it.
    pub create_link_within :
        (i : CreateShareInput) (drawn : Text) (db after : Db) (s : Share)
        → valid_share_token drawn ≡ true
        → create_link platform nodes uc c i drawn db ≡ (ok s, after)
        → (valid_share_token s.token ≡ true)
          × (find_token s.token db ≡ none)
          × ((node : Node) × ((find_node i.node_id db ≡ some node)
                × (s.node_id ≡ node.id)
                × (has (evaluate platform nodes c node db).perms perm_share ≡ true)
                × IsWithinGrant c node (evaluate platform nodes c node db) s))
    unfolding create_link
    create_link_within i drawn db after s good e =
        guard_ok (is_authenticated c) Error.unauthenticated _ db e λ known e₁.
          guard_ok uc.allow_public Error.unsupported _ db e₁ λ public e₂.
            guard_ok (not (i.node_id == nil_id)) Error.invalid_argument _ db e₂ λ not_nil e₃.
              bind_ok (require_access platform nodes c i.node_id perm_share) db e₃
                λ found db₁ gate e₄.
                  require_access_ok platform nodes c i.node_id perm_share db gate
                    λ node at_node same may reads.
                      let run =
                        ap (λ f. create_granted platform nodes uc c i drawn f db) same
                        ∙ ap (create_granted platform nodes uc c i drawn found) reads
                        ∙ e₄ in
                      let (formed, fresh, on_node, within) =
                        create_granted_ok i drawn node (evaluate platform nodes c node db) db after
                          s good run in
                      (formed, fresh, (node, (at_node, on_node, may, within)))
