-- ===== src/Board/Cells.antt =====
-- The cells of a grid that is stored row by row: where a position stands in the vector, and what a
-- write to one position does to the others.
use ctd_project.Base.{
  ℕ, zero, suc, ◌+◌, ◌*◌, ◌<◌, ◌≡◌, refl, ◌≢◌, inl, inr, true, false, Option, none, arith, ap, sym,
  ◌∙◌, if◌then◌else◌, Bool-cases, length, length-set, get_elem?-set_self, get_elem?-set_ne, ℤ, pos,
  negsuc, pos_part,
}
use ctd_project.Piece.{Position, position, pos_eq, Ref}
use ctd_project.Piece.Laws.{pos_eq_iff}
use ctd_project.Board.{Board, is_in_bounds, index, assign, get_piece_at, in_range, grid_at}

-- The vector has a slot for each cell.
abbrev pub IsGrid : Board → Type 0
IsGrid b = length b.grid ≡ b.width * b.height

in_range-pos : (x : ℤ) (k : ℕ) → in_range x k ≡ true → (x ≡ pos (pos_part x)) × (pos_part x < k)
unfolding in_range
in_range-pos (pos n) k h = (refl, ground arith)
in_range-pos (negsuc n) k h = absurd (cc h)

-- A position in bounds has coordinates that are natural numbers below the height and the width.
pub in_bounds_parts :
    (b : Board) (p : Position)
    → is_in_bounds b p ≡ true
    → (p ≡ position (pos (pos_part p.row)) (pos (pos_part p.col)))
      × (pos_part p.row < b.height)
      × (pos_part p.col < b.width)
unfolding is_in_bounds
in_bounds_parts b p i = ground (arith, in_range-pos p.row b.height, in_range-pos p.col b.width)

row_lt : (r c w h : ℕ) → r < h → c < w → r * w + c < w * h
row_lt r c w h p q = grind arith

-- Every access of the vector at a position in bounds is within the vector.
pub index-lt :
    (b : Board) (p : Position) → IsGrid b → is_in_bounds b p ≡ true → index b p < length b.grid
unfolding index
index-lt b p g i =
    let (_, r, c) = in_bounds_parts b p i in
    omega (arith, row_lt (pos_part p.row) (pos_part p.col) b.width b.height r c)

row_unique : (r r' c c' w : ℕ) → c < w → c' < w → r * w + c ≡ r' * w + c' → (r ≡ r') × (c ≡ c')
row_unique zero zero c c' w p q e = (refl, omega arith)
row_unique zero (suc r') c c' w p q e = absurd (grind arith)
row_unique (suc r) zero c c' w p q e = absurd (grind arith)
row_unique (suc r) (suc r') c c' w p q e =
    let (s, t) = row_unique r r' c c' w p q (grind arith) in (ap suc s, t)

-- Two positions in bounds share a slot only if they are the same position.
pub index_injective :
    (b : Board) (p q : Position)
    → is_in_bounds b p ≡ true
    → is_in_bounds b q ≡ true
    → index b p ≡ index b q
    → p ≡ q
unfolding index
index_injective b p q i j e =
    let (ep, _, pc) = in_bounds_parts b p i in
    let (eq, _, qc) = in_bounds_parts b q j in
    let (r, c) = row_unique _ _ _ _ b.width pc qc e in ep ∙ (ground arith) ∙ sym eq

pub assign-IsGrid : (b : Board) (p : Position) (v : Option Ref) → IsGrid b → IsGrid (assign b p v)
unfolding assign
assign-IsGrid b p v g = length-set b.grid (index b p) v ∙ g

pub is_in_bounds-assign :
    (b : Board) (p q : Position) (v : Option Ref) → is_in_bounds (assign b p v) q ≡ is_in_bounds b q
unfolding is_in_bounds assign
is_in_bounds-assign b p q v = refl

-- Off the board there is no piece.
pub get_piece_at_outside :
    (b : Board) (p : Position) → is_in_bounds b p ≡ false → get_piece_at b p ≡ none
unfolding get_piece_at
get_piece_at_outside b p h = ground arith

pub get_piece_at_inside :
    (b : Board) (p : Position) → is_in_bounds b p ≡ true → get_piece_at b p ≡ grid_at b (index b p)
unfolding get_piece_at
get_piece_at_inside b p h = ground arith

grid_at-assign_self :
    (b : Board) (p : Position) (v : Option Ref)
    → IsGrid b
    → is_in_bounds b p ≡ true
    → grid_at (assign b p v) (index b p) ≡ v
unfolding assign grid_at
grid_at-assign_self b p v g i =
    rw (get_elem?-set_self b.grid (index b p) v (index-lt b p g i), grid_at)

grid_at-assign_ne :
    (b : Board) (p : Position) (v : Option Ref) (i : ℕ)
    → index b p ≢ i
    → grid_at (assign b p v) i ≡ grid_at b i
unfolding assign grid_at
grid_at-assign_ne b p v i h = rw (get_elem?-set_ne b.grid (index b p) i v h, grid_at)

get_piece_at-assign_inside :
    (b : Board) (p q : Position) (v : Option Ref)
    → is_in_bounds b q ≡ true
    → get_piece_at (assign b p v) q ≡ grid_at (assign b p v) (index b q)
unfolding index assign
get_piece_at-assign_inside b p q v j =
    get_piece_at_inside (assign b p v) q (is_in_bounds-assign b p q v ∙ j)

get_piece_at-assign_self :
    (b : Board) (p q : Position) (v : Option Ref)
    → IsGrid b
    → is_in_bounds b p ≡ true
    → p ≡ q
    → get_piece_at (assign b p v) q ≡ v
get_piece_at-assign_self b p q v g i e =
    rw (← e) (get_piece_at-assign_inside b p p v i ∙ grid_at-assign_self b p v g i)

get_piece_at-assign_ne :
    (b : Board) (p q : Position) (v : Option Ref)
    → is_in_bounds b p ≡ true
    → is_in_bounds b q ≡ true
    → p ≢ q
    → get_piece_at (assign b p v) q ≡ get_piece_at b q
get_piece_at-assign_ne b p q v i j n =
    get_piece_at-assign_inside b p q v j
    ∙ grid_at-assign_ne b p v (index b q) (λ e. n (index_injective b p q i j e))
    ∙ sym (get_piece_at_inside b q j)

get_piece_at-assign_outside :
    (b : Board) (p q : Position) (v : Option Ref)
    → is_in_bounds b p ≡ true
    → is_in_bounds b q ≡ false
    → get_piece_at (assign b p v) q ≡ (if pos_eq p q then v else get_piece_at b q)
get_piece_at-assign_outside b p q v i out = ground (
  arith,
  get_piece_at_outside (assign b p v) q,
  get_piece_at_outside b q out,
  is_in_bounds-assign b p q v,
  pos_eq_iff p q,
)

-- A write changes the cell that is written and no other.
pub get_piece_at-assign :
    (b : Board) (p q : Position) (v : Option Ref)
    → IsGrid b
    → is_in_bounds b p ≡ true
    → get_piece_at (assign b p v) q ≡ (if pos_eq p q then v else get_piece_at b q)
get_piece_at-assign b p q v g i = elim (Bool-cases (is_in_bounds b q)) [
  | inr out ↦ get_piece_at-assign_outside b p q v i out
  | inl inb ↦ elim (Bool-cases (pos_eq p q)) [
    | inl same ↦ rw same (get_piece_at-assign_self b p q v g i ((pos_eq_iff p q).0 same))
    | inr other ↦
        rw other (get_piece_at-assign_ne b p q v i inb (λ e. ground (arith, (pos_eq_iff p q).1 e)))
  ]
]
