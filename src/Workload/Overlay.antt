-- ===== src/Workload/Overlay.antt =====
-- crates/simferret/src/workload/mod.rs, `validate_overlay_compatibility`: the directories that the
-- guest runtime replaces.
pub mod Surviving
use simferret.Prelude.{
  Bool, true, false, ◌&&◌, ◌||◌, not, List, [], ◌∷◌, Bytes, Text, codes, same_text, starts_with,
  Result, ok, err, invalid_input, fail, refuse_if, ◌>>=◌, ◌>>◌,
}
use simferret.Workload.Launch.{LaunchIdentity}
use simferret.Workload.Tree.{Entry, Tree}
use simferret.Workload.Tree.Template.{is_directory}
use simferret.Workload.Directory.{trim_start}

abbrev pub overlay_tmp : Bytes
overlay_tmp = codes "tmp"

abbrev pub overlay_dev : Bytes
overlay_dev = codes "dev"

abbrev pub below_overlay : Bytes → Bool
below_overlay path = starts_with path (codes "tmp/") || starts_with path (codes "dev/")

-- The closure `below_or_at`.
unfoldable pub below_or_at : Bytes → Bool
below_or_at path = same_text path overlay_tmp || same_text path overlay_dev || below_overlay path

-- The loop over the entries.
unfoldable pub check_overlay : Tree → Result (Unit {0})
check_overlay [] = ok tt
check_overlay ((path, entry) ∷ tree) =
    refuse_if (below_or_at path && not (is_directory (entry.kind))) invalid_input
    >> check_overlay tree

-- `validate_overlay_compatibility`
unfoldable pub validate_overlay_compatibility : Tree → LaunchIdentity → Result (Unit {0})
validate_overlay_compatibility tree launch = do
  check_overlay tree
  refuse_if (below_or_at (trim_start (launch.executable))) invalid_input
  refuse_if (below_overlay (trim_start (launch.working_directory))) invalid_input
