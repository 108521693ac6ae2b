-- ===== src/System/Tests.antt =====
-- Settings and the jobs of the maintenance on small tables.
use nagisa.Prelude.{◌≡◌, refl, Bool, true, false, none, some, List, [], ◌∷◌, Text, codes, text_eq}
use nagisa.Errors.{Error, err}
use nagisa.Access.{Caller, Node}
use nagisa.Perm.{NodeStatus}
use nagisa.Access.Sample.{member, folder_a, file_c}
use nagisa.Store.{Db}
use nagisa.Tree.Sample.{sample_platform, sample_usecase, no_nodes}
use nagisa.System.Settings.{Setting, Parsers, Values, stored_value, update_settings}
use nagisa.System.Jobs.{purge_trash}
use nagisa.System.Retention.{update_settings_protects}

abbrev parsers : Parsers
parsers = record { is_int = λ s. true; is_bool = λ s. true }

abbrev system_admin : Caller
system_admin = record member { perms = 0xfff_ffff_ffff }

abbrev change : Text → Text → Setting
change key value = record { key = key; value = value; kind = []; writable = true }

abbrev changes : List Setting
changes = change (codes "upload.max_versions") (codes "3") ∷ []

abbrev before : Values
before = (codes "system.version", codes "1") ∷ []

update_settings_protects_example :
    stored_value (codes "system.version") (update_settings parsers system_admin [] changes before).1
    ≡ some (codes "1")
unfolding stored_value text_eq nagisa.System.Settings.find_setting
    nagisa.System.Settings.setting_catalog
update_settings_protects_example =
    update_settings_protects parsers system_admin [] changes before (codes "system.version") refl

written :
    (update_settings parsers system_admin [] changes before).1
    ≡ (codes "system.version", codes "1") ∷ (codes "upload.max_versions", codes "3") ∷ []
unfolding update_settings nagisa.Access.require nagisa.System.Settings.checked_values
    nagisa.System.Settings.checked_setting nagisa.System.Settings.find_setting
    nagisa.System.Settings.setting_catalog text_eq nagisa.System.Settings.validate_setting
    nagisa.System.Settings.put_settings nagisa.System.Settings.put_setting
written = refl

-- Both rows of a trashed folder are listed, and the second is gone once the first was purged.
abbrev in_trash : Node → Node
in_trash n = record n { owner_id = 7; status = NodeStatus.trashed; trashed_at = some 5 }

abbrev trashed : Db
trashed = record no_nodes { nodes = in_trash folder_a ∷ in_trash file_c ∷ [] }

purge_of_a_folder :
    (purge_trash sample_platform sample_usecase system_admin false 9 trashed).0
    ≡ err Error.not_found
unfolding purge_trash nagisa.Store.list_nodes nagisa.Store.resolve_list_options
    nagisa.Access.is_authenticated nagisa.Store.with_tx nagisa.Store.find_node_by_id
    nagisa.Tree.evaluate nagisa.Access.evaluate_node_access nagisa.Tree.purge_nodes
    nagisa.Store.delete_nodes nagisa.Store.delete_acl_for_nodes nagisa.Store.add_usage
    nagisa.Prelude.has_prefix nagisa.Perm.has nagisa.Tree.release_objects
    nagisa.System.Jobs.purge_trash_loop
purge_of_a_folder = refl
