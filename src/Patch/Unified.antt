-- ===== src/Patch/Unified.antt =====
-- `buildUnifiedPatch`: the hunks of a script, with three lines of context, and their text.
use gitedge.Shared.{
  ℕ, suc, ◌+◌, ◌-◌, ◌%◌, ◌^◌, Bool, true, false, List, [], ◌∷◌, ◌++◌, map, leb, ◌==◌, if◌then◌else◌,
  min, max, length, get_or, take, drop,
}
use gitedge.Shared.Text.{codes}
use gitedge.Shared.Decimal.{number}
use gitedge.Patch.{Kind, same, added, removed, PatchOp, to_patch_lines, diff_lines}

abbrev pub context_lines : ℕ
context_lines = 3

pub record Range : Type 0 where
  pub start : ℕ
  pub end : ℕ

unfoldable pub is_change : Kind → Bool
is_change same = false
is_change added = true
is_change removed = true

-- The indexes of the changes, counted from `index`.
unfoldable pub changes_from : ℕ → List PatchOp → List ℕ
changes_from index [] = []
changes_from index (op ∷ ops) =
    let rest = changes_from (suc index) ops in if is_change op.kind then index ∷ rest else rest

-- `Math.max(0, index - contextLines)` up to `Math.min(ops.length, index + contextLines + 1)`
unfoldable pub range_at : ℕ → ℕ → Range
range_at count index = record {
  start = index - context_lines;
  end = min count (index + context_lines + 1);
}

unfoldable pub widen : Range → ℕ → Range
widen last end = record { start = last.start; end = max last.end end }

-- The loop over the changes, with the last range and the ones behind it.
unfoldable pub ranges_loop : ℕ → Range → List ℕ → List Range
ranges_loop count last [] = last ∷ []
ranges_loop count last (index ∷ indexes) = elim (leb (range_at count index).start last.end) [
  | true ↦ ranges_loop count (widen last (range_at count index).end) indexes
  | false ↦ last ∷ ranges_loop count (range_at count index) indexes
]

unfoldable pub ranges_of_changes : ℕ → List ℕ → List Range
ranges_of_changes count [] = []
ranges_of_changes count (index ∷ indexes) = ranges_loop count (range_at count index) indexes

unfoldable pub ranges_of : List PatchOp → List Range
ranges_of ops = ranges_of_changes (length ops) (changes_from 0 ops)

abbrev pub old_weight : Kind → ℕ
old_weight same = 1
old_weight added = 0
old_weight removed = 1

abbrev pub new_weight : Kind → ℕ
new_weight same = 1
new_weight added = 1
new_weight removed = 0

-- `oldLineStarts` and `newLineStarts`, as `Uint32Array`s.
unfoldable pub line_starts : (Kind → ℕ) → ℕ → List PatchOp → List ℕ
line_starts weight n [] = n ∷ []
line_starts weight n (op ∷ ops) = n ∷ line_starts weight ((n + weight op.kind) % 2 ^ 32) ops

-- `hunkOps.reduce(...)`
unfoldable pub count_lines : (Kind → ℕ) → List PatchOp → ℕ
count_lines weight [] = 0
count_lines weight (op ∷ ops) = weight op.kind + count_lines weight ops

pub record Hunk : Type 0 where
  pub old_start : ℕ
  pub old_count : ℕ
  pub new_start : ℕ
  pub new_count : ℕ
  pub ops : List PatchOp

-- `ops.slice(start, end)`
unfoldable pub slice : ℕ → ℕ → List PatchOp → List PatchOp
slice start end ops = take (end - start) (drop start ops)

unfoldable pub hunk_of : List PatchOp → Range → Hunk
hunk_of ops range = record {
  old_start = get_or (line_starts old_weight 1 ops) range.start 0;
  old_count = count_lines old_weight (slice range.start range.end ops);
  new_start = get_or (line_starts new_weight 1 ops) range.start 0;
  new_count = count_lines new_weight (slice range.start range.end ops);
  ops = slice range.start range.end ops;
}

unfoldable pub hunks_of : List PatchOp → List Hunk
hunks_of ops = map (hunk_of ops) (ranges_of ops)

unfoldable pub format_unified_range : ℕ → ℕ → List ℕ
unfolding number
format_unified_range start count =
    if count == 0
    then number (start - 1) ++ codes ",0"
    else if count == 1
    then number start
    else number start ++ (b',' ∷ number count)

unfoldable pub kind_code : Kind → ℕ
kind_code same = b' '
kind_code added = b'+'
kind_code removed = b'-'

unfoldable pub op_lines : List PatchOp → List (List ℕ)
unfolding kind_code
op_lines [] = []
op_lines (op ∷ ops) = (kind_code op.kind ∷ op.line) ∷ op_lines ops

unfoldable pub hunk_lines : List Hunk → List (List ℕ)
unfolding format_unified_range op_lines
hunk_lines [] = []
hunk_lines (h ∷ hs) =
    (codes "@@ -"
      ++ (format_unified_range h.old_start h.old_count
          ++ (codes " +" ++ (format_unified_range h.new_start h.new_count ++ codes " @@"))))
    ∷ (op_lines h.ops ++ hunk_lines hs)

-- `out.join("\n")`
unfoldable pub join_lines : List (List ℕ) → List ℕ
join_lines [] = []
join_lines (l ∷ []) = l
join_lines (l ∷ m ∷ ls) = l ++ (0x0a ∷ join_lines (m ∷ ls))

pub data CommitDiffChangeType : Type 0 where
  add modify delete : CommitDiffChangeType

unfoldable pub old_label : CommitDiffChangeType → List ℕ → List ℕ
old_label add path = codes "/dev/null"
old_label modify path = codes "a/" ++ path
old_label delete path = codes "a/" ++ path

unfoldable pub new_label : CommitDiffChangeType → List ℕ → List ℕ
new_label add path = codes "b/" ++ path
new_label modify path = codes "b/" ++ path
new_label delete path = codes "/dev/null"

-- Without changes there are no hunks, and the text is the two labels.
unfoldable pub patch_text : List ℕ → CommitDiffChangeType → List Hunk → List ℕ
unfolding old_label new_label hunk_lines join_lines
patch_text path change_type hunks =
    join_lines (
      (codes "--- " ++ old_label change_type path)
      ∷ (codes "+++ " ++ new_label change_type path)
      ∷ hunk_lines hunks)
    ++ (0x0a ∷ [])

unfoldable pub build_unified_patch : List ℕ → CommitDiffChangeType → List ℕ → List ℕ → List ℕ
unfolding patch_text hunks_of
build_unified_patch path change_type old_text new_text =
    patch_text path change_type
      (hunks_of (diff_lines (to_patch_lines old_text) (to_patch_lines new_text)))
