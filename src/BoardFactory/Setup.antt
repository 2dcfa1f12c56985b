-- ===== src/BoardFactory/Setup.antt =====
-- Setting up a board piece by piece keeps board and pieces in agreement.
use ctd_project.Base.{ℕ, suc, ◌<◌, ◌≡◌, some, List, [], ◌∷◌, arith, Str}
use ctd_project.Piece.{Position, Ref, Piece, PieceKind, Heap, make_shared}
use ctd_project.Piece.Laws.{pos_eq_iff}
use ctd_project.Board.{Board, new_board, get_piece_at}
use ctd_project.Board.Laws.{add_piece-Added, new_board-IsGrid, get_piece_at-new_board}
use ctd_project.Coherence.{Coherent}
use ctd_project.Engine.{new_engine, Request, play}
use ctd_project.Engine.Safety.{IsSafe, play-new_engine-IsSafe}
use ctd_project.BoardFactory.{
  empty_heap, place, place_column, place_columns, back_rank, create_default_board,
}

-- Board and pieces agree, and the pieces on the board are allocated.
pub record IsBuilt (s : Heap × Board) : Type 0 where
  pub coherent : Coherent s.0 s.1
  pub allocated : (p : Position) (r : Ref) → get_piece_at s.1 p ≡ some r → r < s.0.next

pub new_board-IsBuilt : (h : Heap) (w n : ℕ) → IsBuilt (h, new_board w n)
new_board-IsBuilt h w n = record {
  coherent = record {
    is_grid = new_board-IsGrid w n;
    cells = λ p r e. absurd (cc (get_piece_at-new_board w n p, e));
  };
  allocated = λ p r e. absurd (cc (get_piece_at-new_board w n p, e));
}

placed_cells :
    (h : Heap) (b : Board) (x : Piece) (q : Position) (r : Ref)
    → IsBuilt (h, b)
    → get_piece_at (place (h, b) x).1 q ≡ some r
    → ((make_shared h x).piece r).cell ≡ q
placed_cells h b x q r v e = ground (
  arith,
  (add_piece-Added (make_shared h x) b h.next v.coherent.is_grid).cells q,
  v.coherent.cells q r,
  v.allocated q r,
  pos_eq_iff ((make_shared h x).piece h.next).cell q,
)

placed_allocated :
    (h : Heap) (b : Board) (x : Piece) (q : Position) (r : Ref)
    → IsBuilt (h, b)
    → get_piece_at (place (h, b) x).1 q ≡ some r
    → r < suc h.next
placed_allocated h b x q r v e = ground (
  arith,
  (add_piece-Added (make_shared h x) b h.next v.coherent.is_grid).cells q,
  v.allocated q r,
)

pub place-IsBuilt : (s : Heap × Board) (x : Piece) → IsBuilt s → IsBuilt (place s x)
place-IsBuilt (h, b) x v = record {
  coherent = record {
    is_grid = (add_piece-Added (make_shared h x) b h.next v.coherent.is_grid).is_grid;
    cells = λ q r e. placed_cells h b x q r v e;
  };
  allocated = λ q r e. placed_allocated h b x q r v e;
}

place_column-IsBuilt :
    (col : ℕ) (k : PieceKind) (id : Str) (s : Heap × Board)
    → IsBuilt s
    → IsBuilt (place_column col k id s)
unfolding place_column
place_column-IsBuilt col k id s v =
    place-IsBuilt _ _ (place-IsBuilt _ _ (place-IsBuilt _ _ (place-IsBuilt s _ v)))

place_columns-IsBuilt :
    (col : ℕ) (l : List (PieceKind × Str)) (s : Heap × Board)
    → IsBuilt s
    → IsBuilt (place_columns col l s)
unfolding place_columns
place_columns-IsBuilt col [] s v = v
place_columns-IsBuilt col ((k, id) ∷ l) s v =
    place_columns-IsBuilt (suc col) l (place_column col k id s) (place_column-IsBuilt col k id s v)

pub create_default_board-IsBuilt : IsBuilt create_default_board
unfolding create_default_board
create_default_board-IsBuilt =
    place_columns-IsBuilt 0 back_rank _ (new_board-IsBuilt empty_heap 8 8)

-- The game that the server sets up is safe after any requests and any lapses of time: board and
-- pieces agree, every motion carries a piece that is off the board, and no piece is in two motions.
pub play-create_default_board-IsSafe :
    (qs : List Request)
    → IsSafe (play (new_engine create_default_board.0 create_default_board.1) qs)
play-create_default_board-IsSafe qs =
    play-new_engine-IsSafe create_default_board.0 create_default_board.1 qs
      create_default_board-IsBuilt.coherent
