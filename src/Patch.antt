-- ===== src/Patch.antt =====
-- src/worker/git/operations/read/diff.ts: the patch between two texts. A line is the list of its
-- codes. `ops` is kept with its last element first, so `ops.reverse()` is the list itself.
pub mod Lcs
pub mod Table
pub mod Script
pub mod Best
pub mod Unified
pub mod Hunks
pub mod Numbers
pub mod File
pub mod Limited
mod Tests
use gitedge.Shared.{
  ℕ, zero, suc, ◌+◌, ◌-◌, ◌*◌, ◌%◌, ◌^◌, Bool, true, false, List, [], ◌∷◌, ◌++◌, map, ltb, leb,
  ◌==◌, ◌&&◌, not, if◌then◌else◌, length, get_or, drop, is_nil,
}
use gitedge.Shared.Text.{codes, codes_eq, split, ends_with}

-- `text.replace(/\r\n/g, "\n")`
unfoldable pub normalize : List ℕ → List ℕ
normalize [] = []
normalize (c ∷ []) = c ∷ []
normalize (c ∷ d ∷ s) =
    let rest = normalize (d ∷ s) in if c == 0x0d && d == 0x0a then rest else c ∷ rest

-- `lines.pop()`
unfoldable pub pop_line : List (List ℕ) → List (List ℕ)
pop_line [] = []
pop_line (l ∷ []) = []
pop_line (l ∷ m ∷ ls) = l ∷ pop_line (m ∷ ls)

unfoldable pub to_patch_lines : List ℕ → List (List ℕ)
unfolding normalize pop_line split ends_with
to_patch_lines text =
    if is_nil text
    then []
    else if is_nil (normalize text)
    then []
    else if ends_with (0x0a ∷ []) (normalize text)
    then pop_line (split 0x0a (normalize text))
    else split 0x0a (normalize text)

pub data Kind : Type 0 where
  same added removed : Kind

pub record PatchOp : Type 0 where
  pub kind : Kind
  pub line : List ℕ

-- The best length and the direction of one cell, from the cells at its upper left, above it and at
-- its left. A `Uint16Array` keeps a number modulo 2^16.
unfoldable pub cell_value : Bool → ℕ → ℕ → ℕ → ℕ
cell_value equal corner above left =
    if equal then (corner + 1) % 2 ^ 16 else if leb left above then above else left

unfoldable pub cell_direction : Bool → ℕ → ℕ → ℕ
cell_direction equal above left = if equal then 1 else if leb left above then 2 else 3

-- One round of the outer loop: `previous` from the column at the left on, and `current[newIndex - 1]`.
unfoldable pub row_values : List ℕ → List (List ℕ) → List ℕ → ℕ → List ℕ
row_values old [] previous left = []
row_values old (new ∷ news) previous left =
    let value = cell_value (codes_eq old new) (get_or previous 0 0) (get_or previous 1 0) left in
    value ∷ row_values old news (drop 1 previous) value

unfoldable pub row_directions : List ℕ → List (List ℕ) → List ℕ → ℕ → List ℕ
row_directions old [] previous left = []
row_directions old (new ∷ news) previous left =
    let value = cell_value (codes_eq old new) (get_or previous 0 0) (get_or previous 1 0) left in
    cell_direction (codes_eq old new) (get_or previous 1 0) left
    ∷ row_directions old news (drop 1 previous) value

-- The rows of `directions` one behind the other.
unfoldable pub directions_loop : List (List ℕ) → List (List ℕ) → List ℕ → List ℕ
directions_loop [] news previous = []
directions_loop (old ∷ olds) news previous =
    row_directions old news previous 0
    ++ directions_loop olds news (0 ∷ row_values old news previous 0)

abbrev pub zeros : ℕ → List ℕ
zeros zero = []
zeros (suc n) = 0 ∷ zeros n

unfoldable pub directions_of : List (List ℕ) → List (List ℕ) → List ℕ
directions_of olds news = directions_loop olds news (zeros (length news + 1))

-- What a round of the walk back does.
pub data Move : Type 0 where
  finish take_both take_old take_new : Move

-- Where no line of one side is left, or the direction is neither 1 nor 3.
unfoldable pub plain_move : ℕ → ℕ → Move
plain_move zero zero = finish
plain_move (suc i) j = take_old
plain_move zero (suc j) = take_new

unfoldable pub move_of : ℕ → Move
move_of direction =
    if direction == 1 then take_both else if direction == 3 then take_new else take_old

unfoldable pub move_at : List ℕ → ℕ → ℕ → ℕ → Move
move_at directions new_count zero j = plain_move zero j
move_at directions new_count (suc i) zero = plain_move (suc i) zero
move_at directions new_count (suc i) (suc j) = move_of (get_or directions (i * new_count + j) 0)

module _ (olds news : List (List ℕ)) (directions : List ℕ) where
  -- A round takes a line of at least one side.
  unfoldable pub walk_back : ℕ → ℕ → ℕ → List PatchOp → List PatchOp
  walk_back zero i j ops = ops
  walk_back (suc f) i j ops = elim (move_at directions (length news) i j) [
    | finish ↦ ops
    | take_both ↦
        walk_back f (i - 1) (j - 1) (record { kind = same; line = get_or olds (i - 1) [] } ∷ ops)
    | take_old ↦
        walk_back f (i - 1) j (record { kind = removed; line = get_or olds (i - 1) [] } ∷ ops)
    | take_new ↦
        walk_back f i (j - 1) (record { kind = added; line = get_or news (j - 1) [] } ∷ ops)
  ]

abbrev pub op_of : Kind → List ℕ → PatchOp
op_of k l = record { kind = k; line = l }

unfoldable pub diff_lines : List (List ℕ) → List (List ℕ) → List PatchOp
diff_lines [] [] = []
diff_lines [] (new ∷ news) = map (op_of added) (new ∷ news)
diff_lines (old ∷ olds) [] = map (op_of removed) (old ∷ olds)
diff_lines (old ∷ olds) (new ∷ news) =
    walk_back (old ∷ olds) (new ∷ news) (directions_of (old ∷ olds) (new ∷ news))
      (length (old ∷ olds) + length (new ∷ news)) (length (old ∷ olds)) (length (new ∷ news)) []
