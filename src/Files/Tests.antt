-- ===== src/Files/Tests.antt =====
-- Uploads against a small object store, and what the theorems say there.
use nagisa.Prelude.{
  ℕ, ◌+◌, ◌^◌, ◌≡◌, refl, Bool, true, false, not, Option, none, some, List, [], ◌∷◌, Text, codes,
  keep, map, text_eq, ltb, arith, if◌then◌else◌,
}
use nagisa.Prelude.Int.{ℤ, pos, ltb_ℤ}
use nagisa.Errors.{Error, Result, ok, err}
use nagisa.Perm.{has, UploadStatus, UploadMode, ConflictPolicy}
use nagisa.Access.{Caller, Node, nil_id, is_authenticated}
use nagisa.Access.Sample.{member}
use nagisa.Store.{Db, Upload, UploadPart, list_upload_parts}
use nagisa.Tree.Sample.{
  sample_platform, sample-IsStandard, sample_usecase, no_nodes, no_nodes-IsWellFormed,
  no_nodes-IsMinted,
}
use nagisa.Tree.Invariant.{IsWellFormed}
use nagisa.Tree.Invariant.Creating.{IsMinted}
use nagisa.Files.World.{ObjectStore, World}
use nagisa.Files.Limits.{UploadLimits, FilePlatform, FileUsecase, new_limits}
use nagisa.Files.Sessions.{InitiateUploadInput, UploadPlan}
use nagisa.Files.Commit.{Content, commit_node, new_file, is_overwrite}
use nagisa.Files.Billing.{billed_for, commit_node-IsBilled}
use nagisa.Store.{User, NodeVersion, find_user}
use nagisa.Tree.{root_node, evaluate}
use nagisa.Tree.Sample.{sample_user}
use nagisa.Files.Collecting.{assembled}
use nagisa.Files.Transfer.{
  open_session_of, complete_upload, compose_upload, UploadSmallFileInput, inline_upload,
  commit_or_remove, upload_small_file,
}
use nagisa.Files.Versions.{restore_version}
use nagisa.Files.Completing.{is_complete, complete_upload-in_order}
use nagisa.Files.Inline.{commit_or_remove_undone, upload_small_file_keeps}

-- A store that knows the keys of its objects.
abbrev keys_only : ObjectStore (List Text)
keys_only = record {
  put_object = λ key body size kind keys. (ok (codes "etag"), key ∷ keys);
  get_object = λ key keys. err Error.not_found;
  stat_object = λ key keys. err Error.not_found;
  remove_object = λ key keys. (ok tt, keep (λ k. not (text_eq k key)) keys);
  remove_prefix = λ key keys. (ok tt, keys);
  compose_object = λ key parts kind keys. (ok (codes "etag"), key ∷ keys);
  presign_put_object = λ key ttl. err Error.unsupported;
  presign_get_object = λ key name kind how ttl. err Error.unsupported;
  public_host = [];
}

abbrev file_platform : FilePlatform
file_platform = record { equal_fold = text_eq; type_by_extension = λ ext. [] }

abbrev unset : UploadLimits
unset = record {
  default_chunk_size = 0;
  min_chunk_size = 0;
  max_chunk_size = 0;
  max_file_size = 2 ^ 40;
  max_inline_size = 0;
  max_parts = 0;
  session_ttl = 0;
  presign_ttl = 0;
  default_mode = UploadMode.unspecified;
  verify_checksum = true;
  keep_versions = true;
  max_versions = 2;
}

abbrev uploads : FileUsecase
uploads = record { nodes = sample_usecase; limit = new_limits unset }

-- No limit on the size of a file, as configured by default.
abbrev unlimited : FileUsecase
unlimited = record {
  nodes = sample_usecase;
  limit = new_limits (record unset { max_file_size = 0 });
}

abbrev part : ℕ → ℕ → Text → UploadPart
part number size key = record {
  id = 300 + number;
  upload_id = 9;
  part_number = number;
  size = size;
  etag = [];
  storage_key = key;
}

abbrev first : UploadPart
first = part 1 6_000_000 (codes "a")

abbrev second : UploadPart
second = part 2 3 (codes "b")

-- The parts came in the other order.
collected :
    assembled 5_242_880 (pos 2) (second ∷ first ∷ []) ≡ some (6_000_003, codes "a" ∷ codes "b" ∷ [])
unfolding assembled nagisa.Files.Collecting.assemble nagisa.Files.Collecting.take_parts
collected = refl

abbrev session : Upload
session = record {
  id = 9;
  parent_id = 0;
  name = codes "movie";
  owner_id = 7;
  size = 6_000_003;
  mime_type = codes "video/mp4";
  chunk_size = 6_000_000;
  total_parts = pos 2;
  status = UploadStatus.in_progress;
  mode = UploadMode.proxy;
  policy = ConflictPolicy.rename;
  path = codes "uploads/9";
  etag = [];
  description = [];
  metadata = none;
  received_bytes = 6_000_003;
  last_error = [];
  expires_at = 50;
}

abbrev staged : World (List Text)
staged = record {
  db = record no_nodes { uploads = session ∷ []; parts = second ∷ first ∷ [] };
  objects = codes "a" ∷ codes "b" ∷ [];
}

session_opened :
    open_session_of sample_platform file_platform keys_only uploads member 9 20 staged
    ≡ (ok session, staged)
unfolding open_session_of is_authenticated nagisa.Files.Sessions.load_owned_upload
    nagisa.Store.find_upload_by_id nagisa.Files.Sessions.session_open
session_opened = refl

session_parts : list_upload_parts 9 0 staged.db ≡ (ok (first ∷ second ∷ []), staged.db)
unfolding list_upload_parts
session_parts = refl

complete_upload-in_order_example :
    complete_upload sample_platform file_platform keys_only uploads member 9 [] [] 20 staged ≡ (
      if is_complete uploads session (first ∷ second ∷ [])
      then compose_upload sample_platform file_platform keys_only uploads member session 6_000_003
          (codes "a" ∷ codes "b" ∷ [])
          []
          []
          staged
      else (err Error.upload_incomplete, staged))
complete_upload-in_order_example =
    complete_upload-in_order sample_platform file_platform keys_only uploads member 9 [] [] 20
      session (first ∷ second ∷ []) staged session_opened session_parts

whole_session : is_complete uploads session (first ∷ second ∷ []) ≡ true
unfolding new_limits nagisa.Files.Limits.to_int32
whole_session = refl

abbrev movie : InitiateUploadInput
movie = record {
  parent_id = 0;
  name = codes " movie ";
  size = pos 20_000_000;
  mime_type = codes "video/mp4";
  chunk_size = pos 6_000_000;
  mode = UploadMode.unspecified;
  policy = ConflictPolicy.unspecified;
  etag = [];
  description = [];
  metadata = none;
  resume_id = 0;
}

abbrev movie_plan : UploadPlan
movie_plan = record {
  parent_id = 0;
  name = codes "movie";
  size = 20_000_000;
  mime_type = codes "video/mp4";
  chunk_size = 6_029_312;
  total_parts = pos 4;
  mode = UploadMode.presigned;
  policy = ConflictPolicy.rename;
  etag = [];
  description = [];
  metadata = none;
  resume_id = 0;
}

abbrev note : ConflictPolicy → Text → UploadSmallFileInput
note policy content = record {
  parent_id = 0;
  name = codes "note";
  content = content;
  mime_type = codes "text/plain";
  policy = policy;
  description = [];
  metadata = none;
}

abbrev start : World (List Text)
start = record { db = no_nodes; objects = [] }

abbrev uploaded : World (List Text) → UploadSmallFileInput → World (List Text)
uploaded w i = (upload_small_file sample_platform file_platform keys_only uploads member i w).1

upload_small_file_keeps_example :
    IsWellFormed sample_platform sample-IsStandard
      (uploaded start (note ConflictPolicy.rename (codes "abc"))).db
    × IsMinted sample_platform (uploaded start (note ConflictPolicy.rename (codes "abc"))).db
upload_small_file_keeps_example =
    upload_small_file_keeps sample_platform file_platform keys_only uploads sample-IsStandard member
      (note ConflictPolicy.rename (codes "abc")) start no_nodes-IsWellFormed no_nodes-IsMinted tt

-- A replacement takes the place of the content and leaves a revision.
replaced_sizes :
    map
      (λ n. n.size)
      (uploaded
        (uploaded start (note ConflictPolicy.fail (codes "abc")))
        (note ConflictPolicy.overwrite (codes "abcd"))).db.nodes
    ≡ 4 ∷ []
unfolding upload_small_file new_limits nagisa.Access.is_authenticated nagisa.Access.require
    nagisa.Prelude.trim_space nagisa.Prelude.byte_len nagisa.Tree.new_id commit_or_remove
    nagisa.Store.with_tx nagisa.Files.Commit.commit_node nagisa.Tree.load_writable_parent
    inline_upload nagisa.Prelude.Int.◌+ℤ◌ nagisa.Store.list_nodes nagisa.Files.Commit.commit_at
    nagisa.Store.resolve_list_options nagisa.Files.Commit.commit_new nagisa.Files.Quota.check_quota
    nagisa.Files.Commit.commit_replace nagisa.Files.Commit.keep_version nagisa.Files.Commit.new_file
    nagisa.Files.Commit.replaced nagisa.Files.Commit.retain nagisa.Files.Commit.trim_counted
    nagisa.Files.Quota.check_quota_for nagisa.Files.Quota.fits_quota nagisa.Store.add_usage
    nagisa.Store.find_user_by_id nagisa.Store.create_node nagisa.Store.update_node
    nagisa.Store.create_version nagisa.Store.next_version_number nagisa.Tree.evaluate
    nagisa.Access.evaluate_node_access nagisa.Prelude.Int.◌-ℤ◌ text_eq
replaced_sizes = refl

-- The account is still billed for the size from before the replacement.
replaced_usage :
    map
      (λ u. u.used_bytes)
      (uploaded
        (uploaded start (note ConflictPolicy.fail (codes "abc")))
        (note ConflictPolicy.overwrite (codes "abcd"))).db.users
    ≡ 3 ∷ []
unfolding upload_small_file new_limits nagisa.Access.is_authenticated nagisa.Access.require
    nagisa.Prelude.trim_space nagisa.Prelude.byte_len nagisa.Tree.new_id commit_or_remove
    nagisa.Store.with_tx nagisa.Files.Commit.commit_node nagisa.Tree.load_writable_parent
    inline_upload nagisa.Prelude.Int.◌+ℤ◌ nagisa.Store.list_nodes nagisa.Files.Commit.commit_at
    nagisa.Store.resolve_list_options nagisa.Files.Commit.commit_new nagisa.Files.Quota.check_quota
    nagisa.Files.Commit.commit_replace nagisa.Files.Commit.keep_version nagisa.Files.Commit.new_file
    nagisa.Files.Commit.replaced nagisa.Files.Commit.retain nagisa.Files.Commit.trim_counted
    nagisa.Files.Quota.check_quota_for nagisa.Files.Quota.fits_quota nagisa.Store.add_usage
    nagisa.Store.find_user_by_id nagisa.Store.create_node nagisa.Store.update_node
    nagisa.Store.create_version nagisa.Store.next_version_number nagisa.Tree.evaluate
    nagisa.Access.evaluate_node_access nagisa.Prelude.Int.◌-ℤ◌ text_eq
replaced_usage = refl

abbrev lost_upload : Upload
lost_upload =
    inline_upload sample_platform file_platform keys_only uploads member
      (record (note ConflictPolicy.rename (codes "abc")) { parent_id = 77 }) (codes "note")
      (codes "text/plain") 500

abbrev lost_content : Content
lost_content = record { key = codes "files/x"; size = 3; etag = []; comment = [] }

lost :
    commit_or_remove sample_platform file_platform keys_only uploads member lost_upload 501
      lost_content
      (record { db = no_nodes; objects = codes "files/x" ∷ codes "files/y" ∷ [] })
    ≡ (err Error.not_found, record { db = no_nodes; objects = codes "files/y" ∷ [] })
unfolding commit_or_remove nagisa.Store.with_tx nagisa.Files.Commit.commit_node
    nagisa.Tree.load_writable_parent inline_upload text_eq
lost = refl

commit_or_remove_undone_example :
    ◌≡◌ {A = World (List Text)}
      (record { db = no_nodes; objects = codes "files/y" ∷ [] })
      (record { db = no_nodes; objects = codes "files/y" ∷ [] })
unfolding text_eq
commit_or_remove_undone_example =
    commit_or_remove_undone sample_platform file_platform keys_only uploads member lost_upload 501
      lost_content (record { db = no_nodes; objects = codes "files/x" ∷ codes "files/y" ∷ [] }) lost

abbrev limited_user : User
limited_user = record sample_user { quota_bytes = pos 10; used_bytes = 4 }

abbrev limited : Db
limited = record no_nodes { users = limited_user ∷ [] }

abbrev new_upload : Upload
new_upload =
    inline_upload sample_platform file_platform keys_only uploads member
      (note ConflictPolicy.rename (codes "abc")) (codes "note") (codes "text/plain") 500

abbrev filed : Result Node × Db
filed = commit_node sample_platform uploads member new_upload 501 lost_content limited

filed_node : filed ≡ (
  ok (new_file sample_platform uploads member new_upload 501 lost_content (codes "note") root_node),
  filed.1,
)
unfolding commit_node nagisa.Tree.load_writable_parent inline_upload nagisa.Prelude.Int.◌+ℤ◌
    nagisa.Store.list_nodes nagisa.Files.Commit.commit_at nagisa.Store.resolve_list_options
    nagisa.Files.Commit.commit_new nagisa.Files.Quota.check_quota is_authenticated
    nagisa.Files.Quota.check_quota_for nagisa.Store.find_user_by_id nagisa.Files.Quota.fits_quota
    nagisa.Store.create_node nagisa.Store.add_usage
filed_node = refl

commit_node-IsBilled_example :
    (find_user 7 filed.1 ≡ some (billed_for 3 limited_user))
    × (ltb_ℤ (pos 10) (pos (4 + 3)) ≡ false)
unfolding is_authenticated inline_upload find_user
commit_node-IsBilled_example =
    commit_node-IsBilled sample_platform uploads member new_upload 501 lost_content limited_user
      limited refl refl (omega arith) refl refl filed_node

abbrev own_file : Node
own_file =
    new_file sample_platform uploads member new_upload 501 lost_content (codes "note") root_node

abbrev earlier : NodeVersion
earlier = record {
  id = 600;
  node_id = 501;
  version = 4;
  storage_key = codes "files/v";
  size = 2;
  mime_type = codes "text/plain";
  etag = codes "e";
  comment = [];
  created_by = 7;
}

abbrev revised : Db
revised = record limited { nodes = own_file ∷ []; versions = earlier ∷ [] }

abbrev reverted : Result Node × Db
reverted = restore_version sample_platform uploads member 501 600 revised

abbrev value_of : Result Node → Node
value_of (ok n) = n
value_of (err e) = root_node

-- The content before became revision 5.
reverted_versions : map (λ v. v.version) reverted.1.versions ≡ 4 ∷ 5 ∷ []
unfolding restore_version is_authenticated nagisa.Store.with_tx
    nagisa.Files.Versions.restore_version_tx nagisa.Tree.require_access new_file
    nagisa.Access.evaluate_node_access has nagisa.Store.find_version_by_id
    nagisa.Files.Versions.promote nagisa.Files.Commit.retain nagisa.Store.next_version_number
    nagisa.Tree.new_id nagisa.Store.create_version nagisa.Store.update_node
    nagisa.Files.Versions.restored nagisa.Store.add_usage nagisa.Files.Commit.revision
reverted_versions = refl
