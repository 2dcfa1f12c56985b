-- ===== src/Board/Laws.antt =====
-- What the board's operations do to each cell, on every branch.
use ctd_project.Base.{
  ◌≡◌, refl, ℕ, ◌*◌, Bool, true, false, not, ◌&&◌, Option, none, some, arith, if◌then◌else◌,
  is_some, Bool-cases, inl, inr, length-replicate, get_elem?-replicate, ◌∙◌, sym,
}
use ctd_project.Piece.{Position, pos_eq, Ref, Heap, captured, set_state}
use ctd_project.Piece.Laws.{pos_eq_iff}
use ctd_project.Board.{
  Board, new_board, is_in_bounds, get_piece_at, add_piece, capture_at, remove_piece, clear_cell,
  assign, index, grid_at,
}
use ctd_project.Board.Cells.{
  IsGrid, get_piece_at-assign, assign-IsGrid, get_piece_at_inside, get_piece_at_outside, index-lt,
}

-- A new board has a slot for each cell, and all are empty.
pub new_board-IsGrid : (w h : ℕ) → IsGrid (new_board w h)
unfolding new_board
new_board-IsGrid w h = length-replicate (w * h) none

grid_at-new_board :
    (w h : ℕ) (p : Position)
    → is_in_bounds (new_board w h) p ≡ true
    → grid_at (new_board w h) (index (new_board w h) p) ≡ none
unfolding new_board grid_at
grid_at-new_board w h p i =
    let slot = index-lt (new_board w h) p (new_board-IsGrid w h) i in
    rw (
      get_elem?-replicate {A = Option Ref} (w * h) (index (new_board w h) p) none
          (omega (arith, slot, length-replicate {0} {A = Option Ref} (w * h) none)),
      grid_at,
    )

pub get_piece_at-new_board : (w h : ℕ) (p : Position) → get_piece_at (new_board w h) p ≡ none
get_piece_at-new_board w h p = elim (Bool-cases (is_in_bounds (new_board w h) p)) [
  | inr out ↦ get_piece_at_outside _ p out
  | inl inb ↦ get_piece_at_inside _ p inb ∙ grid_at-new_board w h p inb
]

-- The board has the same dimensions, so the same positions are in bounds.
pub record SameSize (b b' : Board) : Type 0 where
  pub width : b'.width ≡ b.width
  pub height : b'.height ≡ b.height

pub is_in_bounds-SameSize :
    {b b' : Board} → SameSize b b' → (p : Position) → is_in_bounds b' p ≡ is_in_bounds b p
unfolding is_in_bounds
is_in_bounds-SameSize s p = rw (s.width, s.height)

-- Whether the piece behind `r` can be put on the board: its own cell is in bounds and empty.
unfoldable pub fits : Heap → Board → Ref → Bool
fits h b r = is_in_bounds b (h.piece r).cell && not (is_some (get_piece_at b (h.piece r).cell))

fits-in_bounds :
    (h : Heap) (b : Board) (r : Ref) → fits h b r ≡ true → is_in_bounds b (h.piece r).cell ≡ true
unfolding fits
fits-in_bounds h b r e = ground arith

add_piece-fits :
    (h : Heap) (b : Board) (r : Ref)
    → add_piece h b (some r)
      ≡ (if fits h b r then (assign b (h.piece r).cell (some r), true) else (b, false))
unfolding add_piece get_piece_at fits
add_piece-fits h b r = ground arith

assign-SameSize : (b : Board) (p : Position) (v : Option Ref) → SameSize b (assign b p v)
unfolding assign
assign-SameSize b p v = record { width = refl; height = refl }

-- What `add_piece` leaves behind.
pub record Added (h : Heap) (b : Board) (r : Ref) (res : Board × Bool) : Type 0 where
  pub result : res.1 ≡ fits h b r
  pub cells :
      (q : Position)
      → get_piece_at res.0 q
        ≡ (if fits h b r && pos_eq (h.piece r).cell q then some r else get_piece_at b q)
  pub is_grid : IsGrid res.0
  pub size : SameSize b res.0

-- On a grid of the right length `add_piece` succeeds exactly when the piece's own cell is in bounds and empty. It then fills
-- that cell and no other; otherwise it changes nothing.
pub add_piece-Added :
    (h : Heap) (b : Board) (r : Ref) → IsGrid b → Added h b r (add_piece h b (some r))
add_piece-Added h b r g = rw (add_piece-fits h b r) (elim (Bool-cases (fits h b r)) [
  | inr no_room ↦ rw no_room (record {
    result = sym no_room;
    cells = λ q. rw no_room;
    is_grid = g;
    size = record { width = refl; height = refl };
  })
  | inl room ↦ rw room (record {
    result = sym room;
    cells = λ q.
        rw room (get_piece_at-assign b (h.piece r).cell q (some r) g (fits-in_bounds h b r room));
    is_grid = assign-IsGrid b (h.piece r).cell (some r) g;
    size = assign-SameSize b (h.piece r).cell (some r);
  })
])

clear_outside :
    (b : Board) (p q : Position)
    → is_in_bounds b p ≡ false
    → get_piece_at b q ≡ (if pos_eq p q then none else get_piece_at b q)
clear_outside b p q out = ground (arith, get_piece_at_outside b q, pos_eq_iff p q)

-- On a grid of the right length `clear_cell` empties one cell, and changes no other cell and no size.
pub clear_cell_lem :
    (b : Board) (p q : Position)
    → IsGrid b
    → (get_piece_at (clear_cell b p) q ≡ (if pos_eq p q then none else get_piece_at b q))
      × IsGrid (clear_cell b p)
      × SameSize b (clear_cell b p)
unfolding clear_cell
clear_cell_lem b p q g = elim (Bool-cases (is_in_bounds b p)) [
  | inr out ↦ rw out (clear_outside b p q out, g, record { width = refl; height = refl })
  | inl inb ↦
      rw inb
        (get_piece_at-assign b p q none g inb, assign-IsGrid b p none g, assign-SameSize b p none)
]

-- `remove_piece` empties the cell and marks the piece that stood there as captured, and nothing
-- else changes.
pub record Removed (h : Heap) (b : Board) (p : Position) (res : Heap × Board) : Type 0 where
  pub cells :
      (q : Position) → get_piece_at res.1 q ≡ (if pos_eq p q then none else get_piece_at b q)
  pub heap : res.0 ≡ elim (get_piece_at b p) [ none ↦ h | some r ↦ set_state h r captured ]
  pub is_grid : IsGrid res.1
  pub size : SameSize b res.1

capture_at-eq :
    (h : Heap) (o : Option Ref)
    → capture_at h o ≡ elim o [ none ↦ h | some r ↦ set_state h r captured ]
unfolding capture_at
capture_at-eq h none = refl
capture_at-eq h (some r) = refl

-- On a grid of the right length `remove_piece` empties one cell, marks the piece that stood there as captured, and changes no
-- other cell and no other piece.
pub remove_piece-Removed :
    (h : Heap) (b : Board) (p : Position) → IsGrid b → Removed h b p (remove_piece h b p)
unfolding remove_piece
remove_piece-Removed h b p g = elim (Bool-cases (is_in_bounds b p)) [
  | inr out ↦ rw out (record {
    cells = λ q. clear_outside b p q out;
    heap = rw (get_piece_at_outside b p out);
    is_grid = g;
    size = record { width = refl; height = refl };
  })
  | inl inb ↦ rw inb (record {
    cells = λ q. get_piece_at-assign b p q none g inb;
    heap = rw (get_piece_at_inside b p inb) (capture_at-eq h (grid_at b (index b p)));
    is_grid = assign-IsGrid b p none g;
    size = assign-SameSize b p none;
  })
]
