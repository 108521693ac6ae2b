-- ===== src/Access/Sample.antt =====
-- Callers, nodes and entries for the tests.
use nagisa.Prelude.{
  ℕ, zero, suc, true, false, none, List, [], ◌∷◌, Text, ◌++◌, codes, slash, ◌==◌, if◌then◌else◌,
}
use nagisa.Prelude.Int.{pos}
use nagisa.Perm.{PermMask, Role, UserStatus, NodeKind, NodeStatus, Visibility, SubjectType, Effect}
use nagisa.Access.Model.{Uuid, Caller, Node, AclEntry, anonymous_caller}

abbrev pub zeros : ℕ → Text
zeros zero = []
zeros (suc n) = 0 ∷ zeros n

-- Thirty-six codes, the first of which is the number.
abbrev pub sample_text : Uuid → Text
sample_text a = a ∷ zeros 35

abbrev pub member : Caller
member = record anonymous_caller {
  user_id = 7;
  role = Role.user;
  rank = pos 100;
  perms = 0xff;
  status = UserStatus.active;
  anonymous = false;
}

abbrev pub sample_node : Uuid → Uuid → NodeKind → Visibility → Text → Text → Node
sample_node id parent kind visibility password path = record {
  id = id;
  parent_id = parent;
  name = codes "n";
  name_lower = codes "n";
  kind = kind;
  owner_id = 3;
  size = 0;
  mime_type = [];
  extension = [];
  etag = [];
  storage_key = [];
  status = NodeStatus.active;
  description = [];
  visibility = visibility;
  password_hash = password;
  password_hint = [];
  has_thumbnail = false;
  metadata = none;
  path = path;
  depth = pos 0;
  child_count = 0;
  file_count = 0;
  folder_count = 0;
  subtree_size = 0;
  current_version_id = none;
  version_count = 0;
  trashed_at = none;
  original_parent_id = 0;
  created_by = 3;
  updated_by = 3;
  created_at = 0;
  updated_at = 0;
}

abbrev pub folder_a : Node
folder_a =
    sample_node 1 0 NodeKind.folder Visibility.public [] (slash ∷ sample_text 1 ++ slash ∷ [])

abbrev pub folder_b : Node
folder_b =
    record (sample_node 4 0 NodeKind.folder Visibility.internal (codes "h")
      (slash ∷ sample_text 4 ++ slash ∷ [])) { depth = pos 0 }

abbrev pub file_c : Node
file_c =
    record (sample_node 2 1 NodeKind.file Visibility.public []
      ((slash ∷ sample_text 1 ++ slash ∷ []) ++ (sample_text 2 ++ slash ∷ []))) { depth = pos 1 }

abbrev pub private_file : Node
private_file = record file_c { visibility = Visibility.unspecified }

abbrev pub sample_entry : Uuid → SubjectType → Text → Effect → PermMask → AclEntry
sample_entry node_id subject who effect perms = record {
  id = 9;
  node_id = node_id;
  subject_type = subject;
  subject_id = who;
  effect = effect;
  permissions = perms;
  inherit = true;
  created_by = 3;
  created_at = 0;
}

abbrev pub no_entries : Uuid → List AclEntry
no_entries id = []

-- Everyone may not download below folder 1; user 7 may edit file 2.
abbrev pub some_entries : Uuid → List AclEntry
some_entries id =
    if id == 1
    then sample_entry 1 SubjectType.everyone [] Effect.deny 2 ∷ []
    else if id == 2
    then sample_entry 2 SubjectType.user (sample_text 7) Effect.allow 8 ∷ []
    else []
