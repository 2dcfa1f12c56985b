-- ===== src/Rules.antt =====
-- include/rules and src/rules: how each kind of piece moves. A difference of two coordinates is
-- taken not to overflow `int`. `none` stands for a loop that has not ended within its fuel.
pub mod Path
pub mod Shapes
pub mod Geometry
use ctd_project.Base.{
  ℕ, zero, suc, ◌+◌, Bool, true, false, not, ◌&&◌, ◌||◌, Option, none, some, max, leb, ◌==◌,
  if◌then◌else◌, is_some, ℤ, pos, negsuc, ◌+ℤ◌, ◌-ℤ◌, int_eq, abs,
}
use ctd_project.Piece.{
  Position, position, pos_eq, PieceColor, PieceKind, king, queen, rook, bishop, knight, pawn,
  is_white, is_knight, color_eq, Ref, Heap,
}
use ctd_project.Board.{Board, get_height, get_piece_at}

-- The case of a pawn.
pub pawn_geometry : Board → PieceColor → Position → Position → Bool → Bool
pawn_geometry b color src dest is_capturing =
    let d_row = dest.row -ℤ src.row in
    let d_col = abs (dest.col -ℤ src.col) in
    let forward_dir : ℤ = if is_white color then negsuc 0 else pos 1 in
    let start_row : ℤ = if is_white color then pos (get_height b) -ℤ pos 2 else pos 1 in
    if is_capturing
    then int_eq d_row forward_dir && (d_col == 1)
    else if not (d_col == 0)
    then false
    else if int_eq d_row forward_dir
    then true
    else int_eq src.row start_row && int_eq d_row (forward_dir +ℤ forward_dir)

-- The row distance and the column distance decide for all other kinds.
unfoldable pub is_valid_geometry :
    Board → PieceKind → PieceColor → Position → Position → Bool → Bool
is_valid_geometry b king color src dest is_capturing =
    leb (abs (dest.row -ℤ src.row)) 1 && leb (abs (dest.col -ℤ src.col)) 1
is_valid_geometry b rook color src dest is_capturing =
    int_eq (dest.row -ℤ src.row) (pos 0) || (abs (dest.col -ℤ src.col) == 0)
is_valid_geometry b bishop color src dest is_capturing =
    abs (dest.row -ℤ src.row) == abs (dest.col -ℤ src.col)
is_valid_geometry b queen color src dest is_capturing =
    int_eq (dest.row -ℤ src.row) (pos 0)
    || (abs (dest.col -ℤ src.col) == 0)
    || (abs (dest.row -ℤ src.row) == abs (dest.col -ℤ src.col))
is_valid_geometry b knight color src dest is_capturing =
    let d_row = abs (dest.row -ℤ src.row) in
    let d_col = abs (dest.col -ℤ src.col) in
    ((d_row == 2) && (d_col == 1)) || ((d_row == 1) && (d_col == 2))
is_valid_geometry b pawn color src dest is_capturing = pawn_geometry b color src dest is_capturing

-- `d == 0 ? 0 : (d > 0 ? 1 : -1)`
pub step_of : ℤ → ℤ
step_of (pos zero) = pos 0
step_of (pos (suc n)) = pos 1
step_of (negsuc n) = negsuc 0

-- `curr.row += step_row; curr.col += step_col`
abbrev pub advance : Position → ℤ → ℤ → Position
advance p step_row step_col = position (p.row +ℤ step_row) (p.col +ℤ step_col)

-- The `while` loop of `is_path_clear`.
pub walk : ℕ → Board → Position → Position → ℤ → ℤ → Option Bool
walk zero b curr dest step_row step_col = none
walk (suc fuel) b curr dest step_row step_col =
    let rest = walk fuel b (advance curr step_row step_col) dest step_row step_col in
    if pos_eq curr dest
    then some true
    else if is_some (get_piece_at b curr)
    then some false
    else rest

is_knight_at : Heap → Option Ref → Bool
is_knight_at h none = false
is_knight_at h (some r) = is_knight (h.piece r).kind

-- The larger of the row distance and the column distance.
abbrev pub distance : Position → Position → ℕ
distance src dest = max (abs (dest.row -ℤ src.row)) (abs (dest.col -ℤ src.col))

-- One round for each cell up to `dest`.
pub is_path_clear : Heap → Board → Position → Position → Option Bool
unfolding is_knight_at
is_path_clear h b src dest =
    let step_row = step_of (dest.row -ℤ src.row) in
    let step_col = step_of (dest.col -ℤ src.col) in
    if is_knight_at h (get_piece_at b src)
    then some true
    else walk (distance src dest + 1) b (advance src step_row step_col) dest step_row step_col

abbrev pub same_color : Heap → Ref → Ref → Bool
same_color h r s = color_eq (h.piece r).color (h.piece s).color

own_piece_at : Heap → Ref → Option Ref → Bool
own_piece_at h r none = false
own_piece_at h r (some target) = same_color h target r

validate_piece : Heap → Board → Position → Position → Option Ref → Option Bool
unfolding own_piece_at
validate_piece h b src dest none = some false
validate_piece h b src dest (some r) =
    let target = get_piece_at b dest in
    if own_piece_at h r target
    then some false
    else if is_valid_geometry b (h.piece r).kind (h.piece r).color src dest (is_some target)
    then is_path_clear h b src dest
    else some false

-- `RuleEngine::validate_move`
pub validate_move : Heap → Board → Position → Position → Option Bool
unfolding validate_piece
validate_move h b src dest = validate_piece h b src dest (get_piece_at b src)
