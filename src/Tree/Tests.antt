-- ===== src/Tree/Tests.antt =====
-- The tree operations on small databases, and what the theorems say there.
use nagisa.Prelude.{
  ℕ, suc, ◌+◌, ◌<◌, ◌≡◌, refl, ap, Bool, true, false, none, some, List, [], ◌∷◌, Text, codes,
  length, map, arith,
}
use nagisa.Prelude.Int.{ℤ, pos}
use nagisa.Perm.{is_trashed_status, Role, UserStatus, Visibility, ConflictPolicy}
use nagisa.Access.{Uuid, Node}
use nagisa.Access.Sample.{member}
use nagisa.Store.{Platform, IsStandard, Db, User}
use nagisa.Tree.{
  NodeUsecase, CreateFolderInput, MoveNodesInput, UpdateNodeInput, RestoreNodesInput, create_folder,
  move_nodes, update_node_fields, trash_nodes, restore_nodes,
}
use nagisa.Tree.Invariant.{IsWellFormed, IsRow, shapes}
use nagisa.Tree.{purge_nodes, require_access, evaluate, chain, root_node}
use nagisa.Tree.Lineage.{IsLineage, chain_complete}
use nagisa.Tree.Gate.{require_access_within}
use nagisa.Tree.Atomic.{writes-settled}
use nagisa.Access.{Caller, NodeAccess, ceiling, is_super_admin, is_authenticated, caller_has}
use nagisa.Access.Lock.{stops}
use nagisa.Store.{find_node, settled}
use nagisa.Errors.{ok}
use nagisa.Perm.{has, intersect, perm_node_scope, perm_trash_manage}
use nagisa.Prelude.{any, not, ◌&&◌, ◌||◌, ◌==◌}
use nagisa.Tree.Invariant.Moves.{move_nodes_keeps}
use nagisa.Tree.Invariant.Updates.{update_node_fields_keeps}
use nagisa.Tree.Invariant.Trashing.{trash_nodes_keeps}
use nagisa.Tree.Invariant.Restoring.{restore_nodes_keeps}
use nagisa.Tree.Invariant.Creating.{IsMinted, create_folder_keeps}
use nagisa.Tree.Sample.{
  sample_platform, sample-IsStandard, sample_usecase, no_nodes, no_nodes-IsWellFormed,
  no_nodes-IsMinted, folder_input, one_folder, two_folders, two_folders-IsWellFormed,
}

create_folder_keeps_example :
    IsWellFormed sample_platform sample-IsStandard one_folder × IsMinted sample_platform one_folder
create_folder_keeps_example =
    create_folder_keeps sample_platform sample-IsStandard sample_usecase member
      (folder_input 0 (codes "a")) no_nodes no_nodes-IsWellFormed no_nodes-IsMinted

abbrev move_input : MoveNodesInput
move_input = record {
  ids = 101 ∷ [];
  target_parent_id = 0;
  policy = ConflictPolicy.rename;
  new_names = [];
}

move_nodes_keeps_example :
    IsWellFormed sample_platform sample-IsStandard
      (move_nodes sample_platform sample_usecase member move_input two_folders).1
move_nodes_keeps_example =
    move_nodes_keeps sample_platform sample-IsStandard sample_usecase member move_input two_folders
      two_folders-IsWellFormed

moved_parents :
    map
      (λ n. n.parent_id)
      (move_nodes sample_platform sample_usecase member move_input two_folders).1.nodes
    ≡ 0 ∷ 0 ∷ []
unfolding move_nodes create_folder nagisa.Access.is_authenticated nagisa.Access.require
    nagisa.Tree.normalize_name nagisa.Prelude.text_eq nagisa.Store.with_tx nagisa.Prelude.Int.◌+ℤ◌
    nagisa.Store.resolve_list_options nagisa.Store.create_node nagisa.Store.add_usage
    nagisa.Access.evaluate_node_access nagisa.Store.find_node nagisa.Store.find_node_by_id
    nagisa.Prelude.has_prefix nagisa.Prelude.Int.◌-ℤ◌ nagisa.Store.relocate_subtree
    nagisa.Store.relocate_row nagisa.Store.rename_node nagisa.Store.update_node
    nagisa.Store.set_subtree_status nagisa.Tree.evaluate nagisa.Tree.load_writable_parent
    nagisa.Tree.child_path nagisa.Prelude.ends_with_slash nagisa.Access.is_super_admin
    nagisa.Tree.relocate nagisa.Tree.fold_name nagisa.Tree.parent_location
moved_parents = refl

abbrev update_input : UpdateNodeInput
update_input = record {
  id = 101;
  name = some (codes "c");
  description = none;
  visibility = some Visibility.private;
  metadata = none;
  parent_id = some 0;
  password_hash = none;
  password_hint = none;
  clear_password = false;
  policy = ConflictPolicy.fail;
}

update_node_fields_keeps_example :
    IsWellFormed sample_platform sample-IsStandard
      (update_node_fields sample_platform sample_usecase member update_input two_folders).1
update_node_fields_keeps_example =
    update_node_fields_keeps sample_platform sample-IsStandard sample_usecase member update_input
      two_folders two_folders-IsWellFormed

updated_names :
    map
      (λ n. n.name)
      (update_node_fields sample_platform sample_usecase member update_input two_folders).1.nodes
    ≡ codes "a" ∷ codes "c" ∷ []
unfolding update_node_fields create_folder nagisa.Access.is_authenticated nagisa.Access.require
    nagisa.Tree.normalize_name nagisa.Prelude.text_eq nagisa.Store.with_tx nagisa.Prelude.Int.◌+ℤ◌
    nagisa.Store.resolve_list_options nagisa.Store.create_node nagisa.Store.add_usage
    nagisa.Access.evaluate_node_access nagisa.Store.find_node nagisa.Store.find_node_by_id
    nagisa.Prelude.has_prefix nagisa.Prelude.Int.◌-ℤ◌ nagisa.Store.relocate_subtree
    nagisa.Store.relocate_row nagisa.Store.rename_node nagisa.Store.update_node
    nagisa.Store.set_subtree_status nagisa.Tree.evaluate nagisa.Tree.load_writable_parent
    nagisa.Tree.child_path nagisa.Prelude.ends_with_slash nagisa.Access.is_super_admin
    nagisa.Tree.relocate nagisa.Tree.fold_name nagisa.Tree.parent_location
updated_names = refl

abbrev trashed_folder : Db
trashed_folder = (trash_nodes sample_platform sample_usecase member 5 (100 ∷ []) two_folders).1

trash_nodes_keeps_example : IsWellFormed sample_platform sample-IsStandard trashed_folder
trash_nodes_keeps_example =
    trash_nodes_keeps sample_platform sample-IsStandard sample_usecase member 5 (100 ∷ [])
      two_folders two_folders-IsWellFormed

trashed_folder-IsWellFormed : IsWellFormed sample_platform sample-IsStandard trashed_folder
trashed_folder-IsWellFormed =
    trash_nodes_keeps sample_platform sample-IsStandard sample_usecase member 5 (100 ∷ [])
      two_folders two_folders-IsWellFormed

abbrev restore_input : RestoreNodesInput
restore_input = record { ids = 101 ∷ []; target_parent_id = 0; policy = ConflictPolicy.fail }

restore_nodes_keeps_example :
    IsWellFormed sample_platform sample-IsStandard
      (restore_nodes sample_platform sample_usecase member restore_input trashed_folder).1
restore_nodes_keeps_example =
    restore_nodes_keeps sample_platform sample-IsStandard sample_usecase member restore_input
      trashed_folder trashed_folder-IsWellFormed

restored_status :
    map
      (λ n. is_trashed_status n.status)
      (restore_nodes sample_platform sample_usecase member restore_input trashed_folder).1.nodes
    ≡ true ∷ false ∷ []
unfolding restore_nodes trash_nodes create_folder nagisa.Access.is_authenticated
    nagisa.Access.require nagisa.Tree.normalize_name nagisa.Prelude.text_eq nagisa.Store.with_tx
    nagisa.Prelude.Int.◌+ℤ◌ nagisa.Store.resolve_list_options nagisa.Store.create_node
    nagisa.Store.add_usage nagisa.Access.evaluate_node_access nagisa.Store.find_node
    nagisa.Store.find_node_by_id nagisa.Prelude.has_prefix nagisa.Prelude.Int.◌-ℤ◌
    nagisa.Store.relocate_subtree nagisa.Store.relocate_row nagisa.Store.rename_node
    nagisa.Store.update_node nagisa.Store.set_subtree_status nagisa.Tree.evaluate
    nagisa.Tree.load_writable_parent nagisa.Tree.child_path nagisa.Prelude.ends_with_slash
    nagisa.Access.is_super_admin nagisa.Tree.relocate nagisa.Tree.fold_name
    nagisa.Tree.parent_location
restored_status = refl

-- The row of folder `b`, and a run of the gate for it.
abbrev row_b : Node
row_b = elim (find_node 101 two_folders) [ some n ↦ n | none ↦ root_node ]

abbrev gate_access : NodeAccess
gate_access = evaluate sample_platform sample_usecase member row_b two_folders

row_b-IsRow : IsRow two_folders row_b
unfolding create_folder nagisa.Access.is_authenticated nagisa.Access.require
    nagisa.Tree.normalize_name nagisa.Prelude.text_eq nagisa.Store.with_tx nagisa.Prelude.Int.◌+ℤ◌
    nagisa.Store.resolve_list_options nagisa.Store.create_node nagisa.Store.add_usage
    nagisa.Access.evaluate_node_access nagisa.Store.find_node nagisa.Store.find_node_by_id
    nagisa.Access.is_super_admin nagisa.Perm.has nagisa.Access.caller_has shapes
row_b-IsRow = refl

row_b_level : row_b.depth ≡ pos 1
unfolding create_folder nagisa.Access.is_authenticated nagisa.Access.require
    nagisa.Tree.normalize_name nagisa.Prelude.text_eq nagisa.Store.with_tx nagisa.Prelude.Int.◌+ℤ◌
    nagisa.Store.resolve_list_options nagisa.Store.create_node nagisa.Store.add_usage
    nagisa.Access.evaluate_node_access nagisa.Store.find_node nagisa.Store.find_node_by_id
    nagisa.Access.is_super_admin nagisa.Perm.has nagisa.Access.caller_has
row_b_level = refl

passes :
    require_access sample_platform sample_usecase member 101 8 two_folders
    ≡ (ok (row_b, gate_access), two_folders)
unfolding create_folder nagisa.Access.is_authenticated nagisa.Access.require
    nagisa.Tree.normalize_name nagisa.Prelude.text_eq nagisa.Store.with_tx nagisa.Prelude.Int.◌+ℤ◌
    nagisa.Store.resolve_list_options nagisa.Store.create_node nagisa.Store.add_usage
    nagisa.Access.evaluate_node_access nagisa.Store.find_node nagisa.Store.find_node_by_id
    nagisa.Access.is_super_admin nagisa.Perm.has nagisa.Access.caller_has require_access
passes = refl

chain_complete_example :
    IsLineage two_folders 0 (chain sample_platform sample_usecase row_b two_folders).ancestors row_b
chain_complete_example =
    chain_complete sample_platform sample-IsStandard two_folders two_folders-IsWellFormed
      sample_usecase row_b 1 row_b-IsRow row_b_level (omega arith)

require_access_within_example :
    (has (intersect perm_node_scope (ceiling member)) 8 ≡ true)
    × (find_node 101 two_folders ≡ some row_b)
    × ((is_trashed_status row_b.status && not (caller_has member perm_trash_manage)) ≡ false)
    × (((not (is_super_admin member)
            && not (is_authenticated member && (row_b.owner_id == member.user_id)))
          && (any (stops member) (chain sample_platform sample_usecase row_b two_folders).ancestors
              || stops member row_b))
        ≡ false)
require_access_within_example =
    require_access_within sample_platform sample_usecase member 101 8 two_folders row_b gate_access
      two_folders passes

writes-settled_example :
    (settled (move_nodes sample_platform sample_usecase member move_input two_folders) two_folders
      ≡ (move_nodes sample_platform sample_usecase member move_input two_folders).1)
    × (settled
          (update_node_fields sample_platform sample_usecase member update_input two_folders)
          two_folders
        ≡ (update_node_fields sample_platform sample_usecase member update_input two_folders).1)
    × (settled
          (restore_nodes sample_platform sample_usecase member restore_input two_folders)
          two_folders
        ≡ (restore_nodes sample_platform sample_usecase member restore_input two_folders).1)
    × (settled
          (trash_nodes sample_platform sample_usecase member 5 (101 ∷ 102 ∷ []) two_folders)
          two_folders
        ≡ (trash_nodes sample_platform sample_usecase member 5 (101 ∷ 102 ∷ []) two_folders).1)
    × (settled
          (purge_nodes sample_platform sample_usecase member (101 ∷ 102 ∷ []) two_folders)
          two_folders
        ≡ (purge_nodes sample_platform sample_usecase member (101 ∷ 102 ∷ []) two_folders).1)
writes-settled_example =
    writes-settled sample_platform sample_usecase member move_input update_input restore_input
      (101 ∷ 102 ∷ []) 5 two_folders
