-- ===== src/Tree/Sample.antt =====
-- Small databases for the tests.
use nagisa.Prelude.{
  ℕ, suc, ◌+◌, ◌<◌, ◌≡◌, refl, ap, Bool, true, false, none, some, List, [], ◌∷◌, Text, codes,
  length, map, arith,
}
use nagisa.Prelude.Int.{ℤ, pos}
use nagisa.Perm.{Role, UserStatus, Visibility, ConflictPolicy}
use nagisa.Access.{Uuid, Node}
use nagisa.Access.Sample.{sample_text, member}
use nagisa.Store.{Platform, IsStandard, Db, User}
use nagisa.Tree.{
  NodeUsecase, CreateFolderInput, MoveNodesInput, UpdateNodeInput, RestoreNodesInput, create_folder,
  move_nodes, update_node_fields, trash_nodes, restore_nodes,
}
use nagisa.Tree.Invariant.{IsWellFormed, shapes}
use nagisa.Tree.{purge_nodes, require_access, evaluate, chain, root_node}
use nagisa.Access.{Caller, NodeAccess, ceiling, is_super_admin, is_authenticated, caller_has}
use nagisa.Store.{find_node, settled}
use nagisa.Prelude.{any, not, ◌&&◌, ◌||◌, ◌==◌}
use nagisa.Tree.Invariant.Creating.{IsMinted, create_folder_keeps}

abbrev pub sample_platform : Platform
sample_platform = record { uuid_text = sample_text; to_lower = λ s. s; minted = λ n. n + 100 }

pub sample-IsStandard : IsStandard sample_platform
sample-IsStandard = record {
  text_injective = λ a b e. cc;
  text_length = λ a. refl;
  minted_pos = λ n. omega arith;
  minted_grows = λ m n less. omega arith;
}

abbrev pub sample_usecase : NodeUsecase
sample_usecase = record {
  max_depth = pos 32;
  max_name = pos 255;
  case_fold = true;
  root_name = codes "root";
  def_vis = Visibility.private;
}

abbrev pub sample_user : User
sample_user = record {
  id = 7;
  username = codes "u";
  nickname = [];
  email = [];
  avatar_url = [];
  password_hash = [];
  role = Role.user;
  rank = pos 100;
  permissions = 0xff;
  status = UserStatus.active;
  quota_bytes = pos 0;
  used_bytes = 0;
  file_count = 0;
  folder_count = 0;
  remark = [];
  must_change_password = false;
  last_login_at = none;
  created_by = 0;
  created_at = 0;
  updated_at = 0;
  locked = false;
}

abbrev pub no_nodes : Db
no_nodes = record {
  nodes = [];
  acls = [];
  users = sample_user ∷ [];
  versions = [];
  pending = [];
  sessions = [];
  shares = [];
  uploads = [];
  parts = [];
  next = 0;
}

pub no_nodes-IsWellFormed : IsWellFormed sample_platform sample-IsStandard no_nodes
unfolding shapes nagisa.Store.find_node
no_nodes-IsWellFormed = record {
  no_nil = refl;
  keyed = λ i r e. cc;
  placed = λ i r e. cc;
  measured = λ i r e. cc;
}

pub no_nodes-IsMinted : IsMinted sample_platform no_nodes
unfolding shapes nagisa.Store.find_node
no_nodes-IsMinted i r e = cc

abbrev pub folder_input : Uuid → Text → CreateFolderInput
folder_input parent name = record {
  parent_id = parent;
  name = name;
  description = [];
  visibility = Visibility.public;
  password_hash = [];
  password_hint = [];
  metadata = none;
  policy = ConflictPolicy.rename;
  acl = [];
}

-- A folder `a`, which has the identifier 100, and a folder `b` inside of it, which has 101.
abbrev pub one_folder : Db
one_folder =
    (create_folder sample_platform sample_usecase member (folder_input 0 (codes "a")) no_nodes).1

abbrev pub two_folders : Db
two_folders =
    (create_folder sample_platform sample_usecase member (folder_input 100 (codes "b"))
      one_folder).1

pub two_folders-IsWellFormed : IsWellFormed sample_platform sample-IsStandard two_folders
two_folders-IsWellFormed =
    let (wf, minted) =
      create_folder_keeps sample_platform sample-IsStandard sample_usecase member
        (folder_input 0 (codes "a")) no_nodes no_nodes-IsWellFormed no_nodes-IsMinted in
    (create_folder_keeps sample_platform sample-IsStandard sample_usecase member
      (folder_input 100 (codes "b")) one_folder wf minted).0

two_rows : length two_folders.nodes ≡ 2
unfolding create_folder nagisa.Access.is_authenticated nagisa.Access.require
    nagisa.Tree.normalize_name nagisa.Prelude.text_eq nagisa.Store.with_tx nagisa.Prelude.Int.◌+ℤ◌
    nagisa.Store.resolve_list_options nagisa.Store.create_node nagisa.Store.add_usage
    nagisa.Access.evaluate_node_access
two_rows = refl
