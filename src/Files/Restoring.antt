-- ===== src/Files/Restoring.antt =====
-- `RestoreVersion` of internal/biz/file.go: what becomes of the present content and of the revisions.
use nagisa.Prelude.{ℕ, all, ◌+◌, ◌≡◌, true, some, [], ◌∷◌, ◌++◌, Text, codes, ◌==◌, if◌then◌else◌}
use nagisa.Access.{nil_id, Caller, Node}
use nagisa.Store.{Platform, Db, NodeVersion, find_node, is_above}
use nagisa.Files.Limits.{FileUsecase}
use nagisa.Files.Commit.{revision}

-- A revision holds the content of a node.
abbrev pub Holds : NodeVersion → Node → Type 0
Holds v n =
    (v.storage_key ≡ n.storage_key)
    × (v.size ≡ n.size)
    × (v.mime_type ≡ n.mime_type)
    × (v.etag ≡ n.etag)

module _ (platform : Platform) (uc : FileUsecase) (c : Caller) where
  -- The row that `retain` adds.
  abbrev row : Node → Text → ℕ → Db → NodeVersion
  row n comment version db =
      let id = platform.minted db.next in
      record (revision platform uc c n id version comment) {
        id = if id == nil_id then platform.minted (db.next + 1) else id;
      }

  abbrev UsageRest : Db → Db → Type 0
  UsageRest db after = (after.versions ≡ db.versions) × (after.nodes ≡ db.nodes)

  -- What `RestoreVersion` comes to for the node `n` and its revision `v`.
  abbrev pub IsRestored : Node → NodeVersion → Node → Db → Db → Type 0
  IsRestored n v saved db after =
      (find_node n.id after ≡ some saved)
      × Holds v saved
      × ((kept : NodeVersion) × ((after.versions ≡ db.versions ++ kept ∷ [])
            × (kept.node_id ≡ n.id)
            × Holds kept n
            × (kept.comment ≡ codes "before restore")
            × (all (is_above n.id kept.version) db.versions ≡ true)))
