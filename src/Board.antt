-- ===== src/Board.antt =====
-- include/model/board.h and src/model/board.cpp: the grid of piece pointers, row by row.
pub mod Cells
pub mod Laws
pub mod Moves
use ctd_project.Base.{
  ℕ, ◌+◌, ◌*◌, Bool, true, false, ◌&&◌, Option, none, some, List, ltb, if◌then◌else◌, get_elem?,
  set, replicate, ℤ, pos, negsuc, pos_part, is_some,
}
use ctd_project.Piece.{Position, Ref, Heap, captured, set_state, set_cell}

pub record Board : Type 0 where
  pub width : ℕ
  pub height : ℕ
  pub grid : List (Option Ref)

-- The constructor fills the grid with null pointers.
unfoldable pub new_board : ℕ → ℕ → Board
new_board w h = record { width = w; height = h; grid = replicate (w * h) none }

abbrev pub get_width : Board → ℕ
get_width b = b.width

abbrev pub get_height : Board → ℕ
get_height b = b.height

-- `0 <= x && x < limit`
unfoldable pub in_range : ℤ → ℕ → Bool
in_range (pos n) limit = ltb n limit
in_range (negsuc n) limit = false

unfoldable pub is_in_bounds : Board → Position → Bool
is_in_bounds b p = in_range p.row b.height && in_range p.col b.width

-- `pos.row * width + pos.col`, computed for positions in bounds only.
unfoldable pub index : Board → Position → ℕ
index b p = pos_part p.row * b.width + pos_part p.col

-- `grid[i]`; a read past the end of the vector does not happen (index-lt) and is a null pointer here.
unfoldable pub grid_at : Board → ℕ → Option Ref
grid_at b i = elim (get_elem? b.grid i) [ none ↦ none | some r ↦ r ]

-- `grid[index(pos)] = v`
pub assign : Board → Position → Option Ref → Board
assign b p v = record b { grid = set b.grid (index b p) v }

unfoldable pub get_piece_at : Board → Position → Option Ref
get_piece_at b p = if is_in_bounds b p then grid_at b (index b p) else none

-- The piece is added to the cell that it says it stands on.
pub add_piece : Heap → Board → Option Ref → Board × Bool
add_piece h b none = (b, false)
add_piece h b (some r) =
    let cell = (h.piece r).cell in
    if is_in_bounds b cell
    then if is_some (grid_at b (index b cell)) then (b, false) else (assign b cell (some r), true)
    else (b, false)

capture_at : Heap → Option Ref → Heap
capture_at h none = h
capture_at h (some r) = set_state h r captured

pub remove_piece : Heap → Board → Position → Heap × Board
unfolding capture_at
remove_piece h b p =
    if is_in_bounds b p then (capture_at h (grid_at b (index b p)), assign b p none) else (h, b)

-- What `move_piece` throws.
pub data MoveError : Type 0 where
  out_of_bounds no_piece_at_source : MoveError

pub data MoveResult : Type 0 where
  moved : Heap → Board → MoveResult
  throws : MoveError → MoveResult

move_from : Heap → Board → Position → Position → Option Ref → MoveResult
move_from h b source dest none = throws no_piece_at_source
move_from h b source dest (some r) =
    moved (set_cell h r dest) (assign (assign b source none) dest (some r))

unfoldable pub move_piece : Heap → Board → Position → Position → MoveResult
unfolding move_from
move_piece h b source dest =
    if is_in_bounds b source && is_in_bounds b dest
    then move_from h b source dest (grid_at b (index b source))
    else throws out_of_bounds

unfoldable pub clear_cell : Board → Position → Board
clear_cell b p = if is_in_bounds b p then assign b p none else b
