-- ===== src/Tree/Unlocks/Tests.antt =====
-- Unlocking in a folder with a password that lies in another one.
use nagisa.Prelude.{◌≡◌, refl, some, [], ◌∷◌, codes, text_eq}
use nagisa.Errors.{Error, ok, err}
use nagisa.Access.{Node}
use nagisa.Access.Sample.{folder_a}
use nagisa.Store.{Db}
use nagisa.Tree.Entries.{unlock}
use nagisa.Tree.Sample.{sample_platform, sample_usecase, no_nodes}
use nagisa.Tree.Unlocks.{IsChecked, unlock_outermost}

abbrev outer : Node
outer = record folder_a { id = 1; parent_id = 0; password_hash = codes "p" }

abbrev inner : Node
inner = record folder_a { id = 2; parent_id = 1; password_hash = codes "q" }

abbrev nested : Db
nested = record no_nodes { nodes = outer ∷ inner ∷ [] }

opened :
    unlock sample_platform sample_usecase (some text_eq) 2 (codes "p") nested ≡ (ok outer, nested)
unfolding unlock nagisa.Store.find_node_by_id nagisa.Tree.Entries.open_lock
    nagisa.Tree.Entries.lock_owner nagisa.Tree.Chain.chain text_eq
opened = refl

unlock_outermost_example :
    (outer ≡ outer) × IsChecked (some text_eq) outer (codes "p") × (nested ≡ nested)
unfolding nagisa.Store.find_node nagisa.Tree.Chain.chain
unlock_outermost_example =
    unlock_outermost sample_platform sample_usecase (some text_eq) 2 (codes "p") nested inner []
      outer [] refl refl refl refl opened

-- The password of the inner folder is refused, by its own identifier too.
inner_refused :
    unlock sample_platform sample_usecase (some text_eq) 2 (codes "q") nested
    ≡ (err Error.permission_denied, nested)
unfolding unlock nagisa.Store.find_node_by_id nagisa.Tree.Entries.open_lock
    nagisa.Tree.Entries.lock_owner nagisa.Tree.Chain.chain text_eq
inner_refused = refl
