-- ===== src/Coherence.antt =====
-- Board and pieces agree: what must hold between the grid and the piece objects, and the changes of
-- a world that keep it.
use ctd_project.Base.{◌≡◌, ◌∙◌, ◌≢◌, some, arith}
use ctd_project.Piece.{Position, Ref, Heap, set_cell}
use ctd_project.Piece.Laws.{pos_eq_iff}
use ctd_project.Board.{Board, get_piece_at, add_piece, remove_piece, clear_cell}
use ctd_project.Board.Cells.{IsGrid}
use ctd_project.Board.Laws.{add_piece-Added, remove_piece-Removed, clear_cell_lem}
use ctd_project.GameState.{World}

-- The grid has a slot for each cell, and each piece on it knows its own cell. So no piece stands
-- on two cells.
pub record Coherent (h : Heap) (b : Board) : Type 0 where
  pub is_grid : IsGrid b
  pub cells : (p : Position) (r : Ref) → get_piece_at b p ≡ some r → (h.piece r).cell ≡ p

-- The piece is not on the board.
abbrev pub Off : Board → Ref → Type 0
Off b r = (p : Position) → get_piece_at b p ≢ some r

-- The board and the cells of the pieces stay as they are.
pub record Harmless (w w' : World) : Type 0 where
  pub board : w'.board ≡ w.board
  pub cells : (r : Ref) → (w'.heap.piece r).cell ≡ (w.heap.piece r).cell

pub Harmless-trans : {u v w : World} → Harmless u v → Harmless v w → Harmless u w
Harmless-trans f g = record { board = g.board ∙ f.board; cells = λ r. g.cells r ∙ f.cells r }

-- A change of the world that moves at most the piece `r`, which must be off the board before.
pub record Moves (r : Ref) (w w' : World) : Type 0 where
  pub coherent : Coherent w.heap w.board → Off w.board r → Coherent w'.heap w'.board
  pub off :
      Coherent w.heap w.board → Off w.board r → (q : Ref) → q ≢ r → Off w.board q → Off w'.board q

pub Harmless-Coherent :
    {w w' : World} → Harmless w w' → Coherent w.heap w.board → Coherent w'.heap w'.board
Harmless-Coherent f c = record {
  is_grid = rw f.board c.is_grid;
  cells = λ p r e. f.cells r ∙ c.cells p r (rw f.board at e);
}

pub Harmless-Moves : {w w' : World} (r : Ref) → Harmless w w' → Moves r w w'
Harmless-Moves r f = record {
  coherent = λ c o. Harmless-Coherent f c;
  off = λ c o q n far p e. far p (rw f.board at e);
}

pub Moves-Harmless : {u v w : World} {r : Ref} → Moves r u v → Harmless v w → Moves r u w
Moves-Harmless m f = record {
  coherent = λ c o. Harmless-Coherent f (m.coherent c o);
  off = λ c o q n far p e. m.off c o q n far p (rw f.board at e);
}

module _ (h : Heap) (b : Board) (c : Coherent h b) where
  -- Writing to the cell of a piece that is off the board, and adding the piece.
  added_cells :
      (r : Ref) (p q : Position) (s : Ref)
      → Off b r
      → get_piece_at (add_piece (set_cell h r p) b (some r)).0 q ≡ some s
      → ((set_cell h r p).piece s).cell ≡ q
  added_cells r p q s off e =
      let added = add_piece-Added (set_cell h r p) b r c.is_grid in
      ground
        (arith, added.cells q, c.cells q s, off q, pos_eq_iff ((set_cell h r p).piece r).cell q)

  pub add_piece-Coherent :
      (r : Ref) (p : Position)
      → Off b r
      → Coherent (set_cell h r p) (add_piece (set_cell h r p) b (some r)).0
  add_piece-Coherent r p off = record {
    is_grid = (add_piece-Added (set_cell h r p) b r c.is_grid).is_grid;
    cells = λ q s e. added_cells r p q s off e;
  }

  pub add_piece-Off :
      (r q : Ref) (p : Position) → q ≢ r → Off b q → Off (add_piece (set_cell h r p) b (some r)).0 q
  add_piece-Off r q p n far s e =
      let added = add_piece-Added (set_cell h r p) b r c.is_grid in
      ground (arith, added.cells s, far s)

  removed_cells :
      (p q : Position) (s : Ref)
      → get_piece_at (remove_piece h b p).1 q ≡ some s
      → ((remove_piece h b p).0.piece s).cell ≡ q
  removed_cells p q s e =
      let removed = remove_piece-Removed h b p c.is_grid in
      ground (arith, removed.cells q, removed.heap, c.cells q s)

  pub remove_piece-Coherent :
      (p : Position) → Coherent (remove_piece h b p).0 (remove_piece h b p).1
  remove_piece-Coherent p = record {
    is_grid = (remove_piece-Removed h b p c.is_grid).is_grid;
    cells = λ q s e. removed_cells p q s e;
  }

  pub remove_piece-Off : (p : Position) (q : Ref) → Off b q → Off (remove_piece h b p).1 q
  remove_piece-Off p q far s e =
      ground (arith, (remove_piece-Removed h b p c.is_grid).cells s, far s)

  pub clear_cell-Coherent : (p : Position) → Coherent h (clear_cell b p)
  clear_cell-Coherent p = record {
    is_grid = (clear_cell_lem b p p c.is_grid).1;
    cells = λ q s e. ground (arith, (clear_cell_lem b p q c.is_grid).0, c.cells q s);
  }

  -- The piece that stood on the cell is off the board, and none has come.
  pub clear_cell-Off : (p : Position) (r : Ref) → get_piece_at b p ≡ some r → Off (clear_cell b p) r
  clear_cell-Off p r here s e =
      ground
        (arith, (clear_cell_lem b p s c.is_grid).0, c.cells p r here, c.cells s r, pos_eq_iff p s)

  pub clear_cell-Off_other : (p : Position) (q : Ref) → Off b q → Off (clear_cell b p) q
  clear_cell-Off_other p q far s e = ground (arith, (clear_cell_lem b p s c.is_grid).0, far s)
