-- ===== src/BoardFactory.antt =====
-- src/model/board_factory.cpp: the pieces at the start of a game.
pub mod Setup
use ctd_project.Base.{ℕ, suc, List, [], ◌∷◌, ◌++◌, some, pos, Str, codes, to_string}
use ctd_project.Piece.{
  position, Piece, new_piece, white, black, PieceKind, king, queen, rook, bishop, knight, pawn,
  Heap, make_shared,
}
use ctd_project.Board.{Board, new_board, add_piece}

-- A heap in which nothing is allocated yet.
abbrev pub empty_heap : Heap
empty_heap = record { next = 0; piece = λ r. new_piece [] white pawn (position (pos 0) (pos 0)) }

-- `board->add_piece(std::make_shared<Piece>(...))`
abbrev pub place : Heap × Board → Piece → Heap × Board
place (h, b) p = let h' = make_shared h p in (h', (add_piece h' b (some h.next)).0)

-- The four pieces of a column.
pub place_column : ℕ → PieceKind → Str → Heap × Board → Heap × Board
place_column col kind id s =
    place
      (place
        (place (place s (new_piece (codes "b" ++ id) black kind (position (pos 0) (pos col))))
          (new_piece (codes "w" ++ id) white kind (position (pos 7) (pos col))))
        (new_piece (codes "bP" ++ to_string (pos col)) black pawn (position (pos 1) (pos col))))
      (new_piece (codes "wP" ++ to_string (pos col)) white pawn (position (pos 6) (pos col)))

-- The loop over the columns, over `kinds` and `ids` together.
pub place_columns : ℕ → List (PieceKind × Str) → Heap × Board → Heap × Board
place_columns col [] s = s
place_columns col ((kind, id) ∷ rest) s = place_columns (suc col) rest (place_column col kind id s)

abbrev pub back_rank : List (PieceKind × Str)
back_rank =
    (rook, codes "R1")
    ∷ (knight, codes "N1")
    ∷ (bishop, codes "B1")
    ∷ (queen, codes "Q")
    ∷ (king, codes "K")
    ∷ (bishop, codes "B2")
    ∷ (knight, codes "N2")
    ∷ (rook, codes "R2")
    ∷ []

pub create_default_board : Heap × Board
create_default_board = place_columns 0 back_rank (empty_heap, new_board 8 8)
