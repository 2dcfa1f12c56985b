-- ===== src/Board/Moves.antt =====
-- src/model/board.cpp: `move_piece`, on every branch.
use ctd_project.Base.{
  ◌≡◌, refl, ◌∙◌, Bool, true, false, ◌&&◌, Option, none, some, if◌then◌else◌, arith, Bool-cases,
  inl, inr,
}
use ctd_project.Piece.{Position, pos_eq, Ref, Heap, set_cell}
use ctd_project.Board.{
  Board, is_in_bounds, index, grid_at, assign, get_piece_at, MoveResult, moved, throws,
  out_of_bounds, no_piece_at_source, move_from, move_piece,
}
use ctd_project.Board.Cells.{
  IsGrid, get_piece_at-assign, assign-IsGrid, get_piece_at_inside, is_in_bounds-assign,
}

abbrev pub both_in_bounds : Board → Position → Position → Bool
both_in_bounds b source dest = is_in_bounds b source && is_in_bounds b dest

-- The outcomes of a move on the board.
pub data Outcome (h : Heap) (b : Board) (source dest : Position) : MoveResult → Type 0 where
  outside : both_in_bounds b source dest ≡ false → Outcome h b source dest (throws out_of_bounds)
  nobody :
      both_in_bounds b source dest ≡ true
      → get_piece_at b source ≡ none
      → Outcome h b source dest (throws no_piece_at_source)
  moves :
      (r : Ref) (b' : Board)
      → get_piece_at b source ≡ some r
      → ((q : Position)
          → get_piece_at b' q ≡ (
              if pos_eq dest q then some r else if pos_eq source q then none else get_piece_at b q))
      → IsGrid b'
      → Outcome h b source dest (moved (set_cell h r dest) b')

move_from-Outcome :
    (h : Heap) (b : Board) (source dest : Position) (o : Option Ref)
    → IsGrid b
    → both_in_bounds b source dest ≡ true
    → get_piece_at b source ≡ o
    → Outcome h b source dest (move_from h b source dest o)
unfolding move_from
move_from-Outcome h b source dest none g inb at = nobody inb at
move_from-Outcome h b source dest (some r) g inb at =
    let cleared = assign b source none in
    let source_in : is_in_bounds b source ≡ true = ground arith in
    let dest_in : is_in_bounds b dest ≡ true = ground arith in
    moves r (assign cleared dest (some r)) at
      (λ q.
        get_piece_at-assign cleared dest q (some r) (assign-IsGrid b source none g)
          (is_in_bounds-assign b source dest none ∙ dest_in)
        ∙ rw (get_piece_at-assign b source q none g source_in) refl)
      (assign-IsGrid cleared dest (some r) (assign-IsGrid b source none g))

-- On a grid of the right length: `move_piece` throws if a cell is off the board, or if there is no
-- piece at the source; otherwise the piece of the source stands at the destination, the source is
-- empty, and no other cell changes.
pub move_piece-Outcome :
    (h : Heap) (b : Board) (source dest : Position)
    → IsGrid b
    → Outcome h b source dest (move_piece h b source dest)
unfolding move_piece
move_piece-Outcome h b source dest g = elim (Bool-cases (both_in_bounds b source dest)) [
  | inr out ↦ rw out (outside out)
  | inl inb ↦
      let source_in : is_in_bounds b source ≡ true = ground arith in
      rw inb (
        move_from-Outcome h b source dest (grid_at b (index b source)) g inb
          (get_piece_at_inside b source source_in))
]
