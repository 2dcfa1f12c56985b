-- ===== src/BoardText.antt =====
-- src/io/board_printer.cpp and src/io/board_parser.cpp: boards as lines of text.
pub mod Tokens
use ctd_project.Base.{
  ℕ, zero, suc, ◌+◌, ◌-◌, Bool, ◌&&◌, ◌||◌, Option, none, some, List, [], ◌∷◌, ◌++◌, ◌==◌,
  if◌then◌else◌, ltb, length, pos, Str, codes, str_eq,
}
use ctd_project.Text.{tokens}
use ctd_project.Piece.{
  Position, position, PieceColor, white, black, PieceKind, Piece, new_piece, Ref, Heap,
  kind_to_char, char_to_kind,
}
use ctd_project.Board.{Board, new_board, get_piece_at, get_width, get_height}
use ctd_project.BoardFactory.{empty_heap, place}

abbrev pub color_char : PieceColor → ℕ
color_char white = b'w'
color_char black = b'b'

-- The two letters of a piece, or a dot.
pub cell_token : Heap → Option Ref → Str
cell_token h none = codes "."
cell_token h (some r) = color_char (h.piece r).color ∷ kind_to_char (h.piece r).kind ∷ []

-- `left` columns from `col` on.
print_row : Heap → Board → ℕ → ℕ → ℕ → Str
print_row h b row col zero = []
print_row h b row col (suc left) =
    let token = cell_token h (get_piece_at b (position (pos row) (pos col))) in
    let gap = if ltb col (get_width b - 1) then codes " " else [] in
    token ++ gap ++ print_row h b row (col + 1) left

print_rows : Heap → Board → ℕ → ℕ → List Str
unfolding print_row
print_rows h b row zero = []
print_rows h b row (suc left) = print_row h b row 0 (get_width b) ∷ print_rows h b (row + 1) left

-- `BoardPrinter::print`
unfoldable pub print : Heap → Board → List Str
unfolding print_rows
print h b = print_rows h b 0 (get_height b)

pub data ParseError : Type 0 where
  empty_board row_width_mismatch unknown_token : ParseError

pub data Parsed {ℓ} (A : Type ℓ) : Type ℓ where
  parsed : A → Parsed A
  failed : ParseError → Parsed A

-- The first loop: the rows of tokens, all as wide as the first.
unfoldable pub rows_of : ℕ → List Str → Parsed (List (List Str))
rows_of width [] = parsed []
rows_of width (line ∷ lines) =
    let row = tokens line in
    let rest = rows_of width lines in
    if length row == width
    then elim rest [ parsed rows ↦ parsed (row ∷ rows) | failed e ↦ failed e ]
    else failed row_width_mismatch

abbrev pub char_to_color : ℕ → Option PieceColor
char_to_color c = if c == b'w' then some white else if c == b'b' then some black else none

made_piece : Str → Position → Option PieceColor → Option PieceKind → Parsed (Option Piece)
made_piece t at (some color) (some kind) = parsed (some (new_piece t color kind at))
made_piece t at none kind = failed unknown_token
made_piece t at (some color) none = failed unknown_token

two_letters : Str → Position → Parsed (Option Piece)
unfolding made_piece
two_letters (c ∷ k ∷ []) at = made_piece (c ∷ k ∷ []) at (char_to_color c) (char_to_kind k)
two_letters [] at = failed unknown_token
two_letters (c ∷ []) at = failed unknown_token
two_letters (c ∷ k ∷ d ∷ t) at = failed unknown_token

-- What a token stands for: no piece, a piece, or an error.
pub token_piece : Str → Position → Parsed (Option Piece)
unfolding two_letters
token_piece t at = if str_eq t (codes ".") then parsed none else two_letters t at

put : Heap × Board → Option Piece → Heap × Board
put s none = s
put s (some p) = place s p

fill_row : ℕ → ℕ → List Str → Heap × Board → Parsed (Heap × Board)
unfolding put
fill_row r c [] s = parsed s
fill_row r c (t ∷ ts) s = elim (token_piece t (position (pos r) (pos c))) [
  | parsed o ↦ fill_row r (c + 1) ts (put s o)
  | failed e ↦ failed e
]

fill_rows : ℕ → List (List Str) → Heap × Board → Parsed (Heap × Board)
unfolding fill_row
fill_rows r [] s = parsed s
fill_rows r (row ∷ rows) s = elim (fill_row r 0 row s) [
  | parsed s' ↦ fill_rows (r + 1) rows s'
  | failed e ↦ failed e
]

-- `BoardParser::parse`, with the pieces that it has made.
unfoldable pub parse : List Str → Parsed (Heap × Board)
unfolding fill_rows
parse [] = failed empty_board
parse (line ∷ lines) =
    let width = length (tokens line) in
    elim (rows_of width (line ∷ lines)) [
      | parsed rows ↦ fill_rows 0 rows (empty_heap, new_board width (length rows))
      | failed e ↦ failed e
    ]
