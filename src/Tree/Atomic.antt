-- ===== src/Tree/Atomic.antt =====
-- The writing methods of internal/biz/node.go are atomic.
use nagisa.Prelude.{ℕ, ◌≡◌, not, ◌||◌, List, is_empty, length, ◌==◌}
use nagisa.Errors.{Error}
use nagisa.Access.{Uuid, nil_id, Caller, is_authenticated}
use nagisa.Store.{Platform, Db, settled, guard-settled, hand_on-settled, with_tx-settled}
use nagisa.Tree.Config.{NodeUsecase}
use nagisa.Tree.Moves.{
  MoveNodesInput, UpdateNodeInput, move_loop, move_nodes, update_node_tx, update_node_fields,
}
use nagisa.Tree.Trash.{RestoreNodesInput, trash_loop, trash_nodes, restore_loop, restore_nodes}
use nagisa.Tree.Purge.{purge_loop, purge_nodes}

module _ (platform : Platform) (uc : NodeUsecase) (c : Caller) where
  -- A failed `MoveNodes`, `UpdateNode`, `RestoreNodes`, `DeleteNodes` (into the trash) or `PurgeNodes`
  -- leaves all tables as they were, whichever of the nodes it failed at.
  pub writes-settled :
      (move : MoveNodesInput) (update : UpdateNodeInput) (restore : RestoreNodesInput)
      (ids : List Uuid) (now : ℕ) (db : Db)
      → (settled (move_nodes platform uc c move db) db ≡ (move_nodes platform uc c move db).1)
        × (settled (update_node_fields platform uc c update db) db
            ≡ (update_node_fields platform uc c update db).1)
        × (settled (restore_nodes platform uc c restore db) db
            ≡ (restore_nodes platform uc c restore db).1)
        × (settled (trash_nodes platform uc c now ids db) db
            ≡ (trash_nodes platform uc c now ids db).1)
        × (settled (purge_nodes platform uc c ids db) db ≡ (purge_nodes platform uc c ids db).1)
  unfolding move_nodes update_node_fields restore_nodes trash_nodes purge_nodes
  writes-settled move update restore ids now db = (
    guard-settled (is_authenticated c) Error.unauthenticated _ db (
        guard-settled (not (is_empty move.ids)) Error.invalid_argument _ db (
          guard-settled (is_empty move.new_names || (length move.new_names == length move.ids))
            Error.invalid_argument _ db
            (with_tx-settled (move_loop platform uc c move move.ids move.new_names) db))),
    guard-settled (is_authenticated c) Error.unauthenticated _ db (
        guard-settled (not (update.id == nil_id)) Error.invalid_argument _ db
          (with_tx-settled (update_node_tx platform uc c update) db)),
    guard-settled (is_authenticated c) Error.unauthenticated _ db (
        guard-settled (not (is_empty restore.ids)) Error.invalid_argument _ db
          (with_tx-settled (restore_loop platform uc c restore restore.ids) db)),
    guard-settled (is_authenticated c) Error.unauthenticated _ db (
        guard-settled (not (is_empty ids)) Error.invalid_argument _ db (
          hand_on-settled (λ affected. (ids, affected)) _ db
            (with_tx-settled (trash_loop platform uc c now ids) db))),
    guard-settled (is_authenticated c) Error.unauthenticated _ db (
        guard-settled (not (is_empty ids)) Error.invalid_argument _ db (
          hand_on-settled (λ bytes. (ids, bytes)) _ db
            (with_tx-settled (purge_loop platform uc c ids) db))),
  )
