-- ===== src/Tree/Config.antt =====
-- internal/biz/node.go: the limits of the tree, with the defaults of `NewNodeUsecase`.
use nagisa.Prelude.{Bool, Text, codes, is_empty, if◌then◌else◌}
use nagisa.Prelude.Int.{ℤ, pos, leb_ℤ}
use nagisa.Perm.{Visibility}

pub record NodeUsecase : Type 0 where
  pub max_depth : ℤ
  pub max_name : ℤ
  pub case_fold : Bool
  pub root_name : Text
  pub def_vis : Visibility

abbrev or_private_default : Visibility → Visibility
or_private_default Visibility.unspecified = Visibility.private
or_private_default v = v

-- The options are read into a record of the same fields.
unfoldable pub new_node_usecase : NodeUsecase → NodeUsecase
new_node_usecase opts = record {
  max_depth = if leb_ℤ opts.max_depth (pos 0) then pos 32 else opts.max_depth;
  max_name = if leb_ℤ opts.max_name (pos 0) then pos 255 else opts.max_name;
  case_fold = opts.case_fold;
  root_name = if is_empty opts.root_name then codes "我的网盘" else opts.root_name;
  def_vis = or_private_default opts.def_vis;
}
