-- ===== src/Shares/Tests.antt =====
-- Links on a small tree, and what the theorems say there.
use nagisa.Prelude.{
  ℕ, ◌≡◌, refl, sym, subst, true, false, Option, none, some, List, [], ◌∷◌, Text, codes, is_empty,
  trim_space, ◌*◌, ◌^◌, inl, inr, ◌↔◌,
}
use nagisa.Prelude.Int.{pos}
use nagisa.Errors.{Error, ok, err}
use nagisa.Perm.{
  ShareStatus, has, intersect, perm_share, perm_share_scope, perm_download, perm_upload,
  is_active_status,
}
use nagisa.Access.{Caller, Node, is_folder, share_grant}
use nagisa.Access.Sample.{member, folder_a, folder_b, file_c}
use nagisa.Store.{Db, Share, find_node, find_token}
use nagisa.Tree.{evaluate, create_folder, root_node}
use nagisa.Tree.Shapes.{IsTree}
use nagisa.Tree.Shapes.Below.{IsWithin}
use nagisa.Tree.Invariant.{shape_of, shapes, segments, IsWellFormed}
use nagisa.Tree.Invariant.Aside.{shapes_of_nodes}
use nagisa.Tree.Sample.{
  sample_platform, sample-IsStandard, sample_usecase, no_nodes, two_folders,
  two_folders-IsWellFormed,
}
use nagisa.Shares.Links.{
  ShareUsecase, CreateShareInput, valid_share_token, create_link, share_url, new_share_usecase,
}
use nagisa.Shares.Visitors.{
  is_visible, resolve_link, resolve_link_node, mark_downloaded, link_presign_ttl,
}
use nagisa.Shares.Publishing.{IsWithinGrant, create_link_within}
use nagisa.Shares.Tokens.{HasUniqueTokens, downloaded, start, followed, run-HasUniqueTokens}
use nagisa.Shares.Visits.{resolve_link_iff, resolve_link_node-IsWithin}

abbrev links : ShareUsecase
links = record {
  allow_public = true;
  base_url = codes "https://n.example/";
  share_prefix = [];
  access_ttl = pos 0;
  verify = none;
}

address : share_url (new_share_usecase links) (codes "tok") ≡ codes "https://n.example/s/tok"
unfolding share_url new_share_usecase
address = refl

longest_link : link_presign_ttl (pos 100_000) ≡ 14_400 * 10 ^ 9
unfolding link_presign_ttl
longest_link = refl

abbrev owner : Caller
owner = record member { user_id = 3 }

abbrev shared_tree : Db
shared_tree = record no_nodes { nodes = folder_a ∷ file_c ∷ [] }

abbrev link_input : CreateShareInput
link_input = record {
  node_id = 2;
  name = [];
  description = [];
  permissions = 2;
  password_hash = [];
  password_hint = [];
  expires_at = some 50;
  max_downloads = pos 1;
  token = [];
}

abbrev drawn : Text
drawn = codes "abcd-EFGH_0123"

abbrev link : Share
link = record {
  id = 100;
  token = drawn;
  node_id = 2;
  owner_id = 3;
  name = codes "n";
  description = [];
  permissions = 2;
  password_hash = [];
  password_hint = [];
  expires_at = some 50;
  max_downloads = pos 1;
  download_count = 0;
  view_count = 0;
  status = ShareStatus.active;
  created_by = 3;
}

abbrev linked : Db
linked = record shared_tree { shares = link ∷ []; next = 1 }

link_is_new :
    create_link sample_platform sample_usecase links owner link_input drawn shared_tree
    ≡ (ok link, linked)
unfolding create_link nagisa.Tree.require_access nagisa.Store.find_node_by_id nagisa.Tree.evaluate
    nagisa.Access.evaluate_node_access nagisa.Access.is_authenticated nagisa.Perm.has
    nagisa.Access.caller_has nagisa.Access.is_super_admin nagisa.Store.with_tx
    nagisa.Store.create_share nagisa.Store.find_token nagisa.Tree.new_id nagisa.Prelude.trim_space
    nagisa.Prelude.byte_len nagisa.Prelude.text_eq
link_is_new = refl

drawn_is_valid : valid_share_token drawn ≡ true
unfolding valid_share_token
drawn_is_valid = refl

create_link_within_example :
    (valid_share_token drawn ≡ true)
    × (find_token drawn shared_tree ≡ none)
    × ((node : Node) × ((find_node 2 shared_tree ≡ some node)
          × (◌≡◌ {A = ℕ} 2 node.id)
          × (has (evaluate sample_platform sample_usecase owner node shared_tree).perms perm_share
              ≡ true)
          × IsWithinGrant owner node
              (evaluate sample_platform sample_usecase owner node shared_tree)
              link))
create_link_within_example =
    create_link_within sample_platform sample_usecase links owner link_input drawn shared_tree
      linked link drawn_is_valid link_is_new

abbrev later_db : Db
later_db = (mark_downloaded 100 linked).1

run-HasUniqueTokens_example : HasUniqueTokens later_db.shares
run-HasUniqueTokens_example =
    run-HasUniqueTokens sample_platform sample_usecase links {db = linked} (refl, tt)
      (followed start (downloaded 100 linked))

-- The only download is used up.
link_is_exhausted : resolve_link links drawn 20 later_db ≡ (err Error.resource_exhausted, later_db)
unfolding resolve_link nagisa.Store.find_share_by_token nagisa.Prelude.trim_space
    nagisa.Prelude.text_eq nagisa.Shares.Visitors.is_expired nagisa.Shares.Visitors.is_exhausted
    mark_downloaded nagisa.Store.with_tx nagisa.Store.add_share_download
link_is_exhausted = refl

resolve_link_iff_example :
    ((resolve_link links drawn 20 linked).1 ≡ linked)
    × (((resolve_link links drawn 20 linked).0 ≡ ok link) ↔ (
        (links.allow_public ≡ true)
        × (is_empty (trim_space drawn) ≡ false)
        × (find_token (trim_space drawn) linked ≡ some link)
        × (is_visible link 20 ≡ true)))
resolve_link_iff_example = resolve_link_iff links drawn 20 linked link refl

-- The node without its password: the permission to view, and the lock.
closed_node :
    ((share_grant 3 false folder_b).perms ≡ 1) × ((share_grant 3 false folder_b).locked_by ≡ 4)
unfolding share_grant
closed_node = (refl, refl)

abbrev folder_link : Share
folder_link = record link { node_id = 100 }

abbrev shared_folders : Db
shared_folders = record two_folders { shares = folder_link ∷ [] }

shared_folders-IsWellFormed : IsWellFormed sample_platform sample-IsStandard shared_folders
shared_folders-IsWellFormed =
    subst (IsTree (segments sample_platform sample-IsStandard))
      (sym (shapes_of_nodes two_folders shared_folders refl)) two_folders-IsWellFormed

abbrev row_b : Node
row_b = elim (find_node 101 two_folders) [ some n ↦ n | none ↦ root_node ]

inner_folder : resolve_link_node folder_link 101 shared_folders ≡ (ok row_b, shared_folders)
unfolding create_folder nagisa.Access.is_authenticated nagisa.Access.require
    nagisa.Tree.normalize_name nagisa.Prelude.text_eq nagisa.Store.with_tx nagisa.Prelude.Int.◌+ℤ◌
    nagisa.Store.resolve_list_options nagisa.Store.create_node nagisa.Store.add_usage
    nagisa.Access.evaluate_node_access nagisa.Store.find_node nagisa.Store.find_node_by_id
    nagisa.Access.is_super_admin nagisa.Perm.has nagisa.Access.caller_has resolve_link_node
    nagisa.Prelude.has_prefix nagisa.Tree.child_path nagisa.Prelude.ends_with_slash
inner_folder = refl

resolve_link_node-IsWithin_example :
    (is_active_status row_b.status ≡ true)
    × ((root : Node) × ((find_node 100 shared_folders ≡ some root)
          × (is_active_status root.status ≡ true)
          × IsWithin (shapes shared_folders) (shape_of root) (shape_of row_b)))
resolve_link_node-IsWithin_example =
    resolve_link_node-IsWithin sample_platform sample-IsStandard folder_link 101 row_b
      shared_folders shared_folders shared_folders-IsWellFormed inner_folder
