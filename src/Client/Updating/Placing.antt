-- ===== src/Client/Updating/Placing.antt =====
-- src/network/socket_client.cpp, `parse_and_update_state`: the new board.
use ctd_project.Base.{◌≡◌, ℕ, Bool, true, ◌||◌, some, List, if◌then◌else◌, is_some, Str, get_elem?}
use ctd_project.Piece.{Position, Ref, Heap}
use ctd_project.Board.{Board, new_board, add_piece, get_piece_at, is_in_bounds}
use ctd_project.Board.Cells.{IsGrid}
use ctd_project.Board.Laws.{SameSize}
use ctd_project.Motion.{Motion, Jump}
use ctd_project.Arbiter.Starting.{SamePiece, NoMotion}
use ctd_project.Client.{Client}
use ctd_project.Client.Merging.{any_motion, any_jump}
use ctd_project.Client.Updating.{PieceMap}

abbrev pub NoJump : Heap → Ref → List Jump → Type 0
NoJump h r js = (i : ℕ) (j : Jump) → get_elem? js i ≡ some j → ¬ SamePiece h r j.piece

-- No motion and no jump is of a piece with the id of `r`.
abbrev pub Grounded : Heap → List Motion → List Jump → Ref → Type 0
Grounded h ms js r = NoMotion h r ms × NoJump h r js

-- What stands on the board stands on its own cell, and is on the ground.
pub record Stands (h : Heap) (ms : List Motion) (js : List Jump) (b : Board) : Type 0 where
  pub is_grid : IsGrid b
  pub size : SameSize (new_board 8 8) b
  pub own_cell : (q : Position) (r : Ref) → get_piece_at b q ≡ some r → (h.piece r).cell ≡ q
  pub grounded : (q : Position) (r : Ref) → get_piece_at b q ≡ some r → Grounded h ms js r

module _ (h : Heap) (ms : List Motion) (js : List Jump) where
  abbrev flies : Ref → Bool
  flies r = any_motion h (some r) ms || any_jump h (some r) js

  abbrev placed : Ref → Board → Board
  placed r b = if flies r then b else (add_piece h b (some r)).0

-- The board of a client after an update: the board has 8 by 8 cells, a piece stands on its own cell and
-- is neither under way nor in the air on the server, and the cell of each piece that the server has sent
-- and that is on the ground is taken, if it is on the board.
pub record IsUpToDate (h : Heap) (ms : List Motion) (js : List Jump) (pieces : PieceMap) (b : Board)
    : Type 0 where
  pub standing : Stands h ms js b
  pub taken :
      (i : ℕ) (id : Str) (r : Ref)
      → get_elem? pieces i ≡ some (id, r)
      → Grounded h ms js r
      → is_in_bounds (new_board 8 8) (h.piece r).cell ≡ true
      → is_some (get_piece_at b (h.piece r).cell) ≡ true
