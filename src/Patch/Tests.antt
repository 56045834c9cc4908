-- ===== src/Patch/Tests.antt =====
-- A patch of a small text.
use gitedge.Shared.{
  ℕ, ◌≤◌, ◌≡◌, refl, true, List, [], ◌∷◌, none, some, ◌⊎◌, find, All, get_elem?, length, replicate,
  ◌++◌, arith,
}
use gitedge.Shared.Text.{codes, codes_eq}
use gitedge.Patch.{Kind, added, removed, same, PatchOp, op_of, diff_lines}
use gitedge.Patch.Best.{IsScript, diff-IsBest}
use gitedge.Patch.Script.{kept}
use gitedge.Patch.File.{
  CommitDiffEntry, Platform, PatchLimits, not_found, binary_file, read_commit_file_patch, limits_of,
}
use gitedge.Patch.Limited.{IsSkipped, IsEntryPatch, read-IsLimited}
use gitedge.Patch.Unified.{Range, ranges_of, hunks_of, is_change, build_unified_patch, modify}
use gitedge.Patch.Hunks.{IsApart, IsCovered, ranges-AreHunks}
use gitedge.Patch.Numbers.{IsTrue, hunks_of-IsTrue}

abbrev olds : List (List ℕ)
olds = codes "a" ∷ codes "b" ∷ codes "c" ∷ []

abbrev news : List (List ℕ)
news = codes "b" ∷ codes "x" ∷ codes "c" ∷ []

diff-IsBest_example :
    IsScript olds news (diff_lines olds news)
    × ((ops : List PatchOp) → IsScript olds news ops → kept ops ≤ kept (diff_lines olds news))
diff-IsBest_example = diff-IsBest olds news (omega arith)

hunks_of-IsTrue_example : All (IsTrue olds news) (hunks_of (diff_lines olds news))
hunks_of-IsTrue_example = hunks_of-IsTrue olds news (omega arith) (omega arith)

abbrev script : List PatchOp
script =
    op_of removed (codes "a")
    ∷ op_of same (codes "b")
    ∷ op_of added (codes "x")
    ∷ op_of same (codes "c")
    ∷ []

ranges-AreHunks_example :
    IsApart (length script) 0 (ranges_of script)
    × ((i : ℕ) (op : PatchOp)
        → get_elem? script i ≡ some op
        → is_change op.kind ≡ true
        → IsCovered (length script) i (ranges_of script))
ranges-AreHunks_example = ranges-AreHunks script

small_diff : diff_lines olds news ≡ script
unfolding diff_lines gitedge.Patch.walk_back gitedge.Patch.move_at gitedge.Patch.move_of
    gitedge.Patch.plain_move gitedge.Patch.directions_of gitedge.Patch.directions_loop
    gitedge.Patch.row_directions gitedge.Patch.row_values gitedge.Patch.cell_value
    gitedge.Patch.cell_direction gitedge.Shared.Text.codes_eq
small_diff = refl

small_patch :
    build_unified_patch (codes "f") modify (codes "a\nb\nc\n") (codes "b\r\nx\nc\n")
    ≡ codes "--- a/f\n+++ b/f\n@@ -1,3 +1,3 @@\n-a\n b\n+x\n c\n"
unfolding build_unified_patch diff_lines gitedge.Patch.walk_back gitedge.Patch.move_at
    gitedge.Patch.move_of gitedge.Patch.plain_move gitedge.Patch.directions_of
    gitedge.Patch.directions_loop gitedge.Patch.row_directions gitedge.Patch.row_values
    gitedge.Patch.cell_value gitedge.Patch.cell_direction gitedge.Shared.Text.codes_eq
    gitedge.Patch.to_patch_lines gitedge.Patch.normalize gitedge.Patch.pop_line
    gitedge.Shared.Text.split gitedge.Shared.Text.push_code gitedge.Shared.Text.ends_with
    gitedge.Patch.Unified.ranges_of gitedge.Patch.Unified.changes_from
    gitedge.Patch.Unified.is_change gitedge.Patch.Unified.ranges_of_changes
    gitedge.Patch.Unified.ranges_loop gitedge.Patch.Unified.range_at gitedge.Patch.Unified.widen
    gitedge.Patch.Unified.hunk_of gitedge.Patch.Unified.slice gitedge.Patch.Unified.line_starts
    gitedge.Patch.Unified.count_lines
small_patch = refl

-- A platform whose texts are their bytes, and a store that holds its names.
abbrev platform : Platform
platform = record {
  utf8 = λ s. s;
  utf8_fatal = λ s. some s;
  utf16le = λ s. none;
  utf16be = λ s. none;
  encode = λ s. s;
  read_blob = λ oid. record { content = some oid; is_blob = true };
}

abbrev small_limits : PatchLimits
small_limits = record { max_blob_bytes = 100; max_patch_bytes = 200; max_lines = 10 }

abbrev changed_file : CommitDiffEntry
changed_file = record {
  path = codes "a";
  change_type = modify;
  old_oid = some (codes "x\n");
  new_oid = some (codes "y\n");
}

read-IsLimited_example :
    IsSkipped (read_commit_file_patch platform small_limits (changed_file ∷ []) (codes "a"))
    ⊎ ((entry : CommitDiffEntry) × (find (λ e. codes_eq e.path (codes "a")) (changed_file ∷ [])
          ≡ some entry)
        × IsEntryPatch platform small_limits
            (codes "a")
            entry
            (read_commit_file_patch platform small_limits (changed_file ∷ []) (codes "a")))
read-IsLimited_example =
    read-IsLimited platform small_limits (changed_file ∷ []) (codes "a") (omega arith)

no_such_file :
    (read_commit_file_patch platform small_limits (changed_file ∷ []) (codes "b")).skip_reason
    ≡ some not_found
unfolding read_commit_file_patch
no_such_file = refl

standard_limits :
    limits_of none (some 0) none
    ≡ record { max_blob_bytes = 131072; max_patch_bytes = 1; max_lines = 4000 }
unfolding limits_of
standard_limits = refl

abbrev binary_change : CommitDiffEntry
binary_change = record changed_file { new_oid = some (codes "y" ++ (0 ∷ [])) }

binary_skipped :
    (read_commit_file_patch platform small_limits (binary_change ∷ []) (codes "a")).skip_reason
    ≡ some binary_file
unfolding read_commit_file_patch
binary_skipped = refl
