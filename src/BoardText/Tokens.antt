-- ===== src/BoardText/Tokens.antt =====
-- src/io/board_printer.cpp and src/io/board_parser.cpp: the token of a cell, printed and read.
use ctd_project.Base.{◌≡◌, refl, Option, none, some, ◌∷◌, [], Str, str_eq}
use ctd_project.Piece.{
  Position, PieceColor, white, black, PieceKind, king, queen, rook, bishop, knight, pawn, new_piece,
  Piece, Ref, Heap, kind_to_char, char_to_kind,
}
use ctd_project.BoardText.{cell_token, color_char, parsed, token_piece, two_letters, made_piece}

-- The piece as the parser makes it: idle, with its token as its name.
abbrev pub reread : Heap → Position → Option Ref → Option Piece
reread h at none = none
reread h at (some r) =
    some (new_piece (cell_token h (some r)) (h.piece r).color (h.piece r).kind at)

abbrev letters : PieceColor → PieceKind → Str
letters c k = color_char c ∷ kind_to_char k ∷ []

token_piece-letters :
    (at : Position) (c : PieceColor) (k : PieceKind)
    → token_piece (letters c k) at ≡ parsed (some (new_piece (letters c k) c k at))
unfolding token_piece two_letters made_piece str_eq char_to_kind
token_piece-letters at white king = refl
token_piece-letters at white queen = refl
token_piece-letters at white rook = refl
token_piece-letters at white bishop = refl
token_piece-letters at white knight = refl
token_piece-letters at white pawn = refl
token_piece-letters at black king = refl
token_piece-letters at black queen = refl
token_piece-letters at black rook = refl
token_piece-letters at black bishop = refl
token_piece-letters at black knight = refl
token_piece-letters at black pawn = refl

-- What is printed for a cell is read back: a dot as no piece, the two letters of a piece as an idle
-- piece of the same colour and kind on the cell, with the letters as its name.
pub token_piece-cell_token :
    (h : Heap) (at : Position) (o : Option Ref)
    → token_piece (cell_token h o) at ≡ parsed (reread h at o)
unfolding token_piece cell_token str_eq
token_piece-cell_token h at none = refl
token_piece-cell_token h at (some r) = token_piece-letters at (h.piece r).color (h.piece r).kind
