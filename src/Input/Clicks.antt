-- ===== src/Input/Clicks.antt =====
-- src/input/controller.cpp: where a click fails.
use ctd_project.Base.{◌≡◌, ◌↔◌, refl, Option, none, some, ℤ, Bool-cases, inl, inr}
use ctd_project.Piece.{Position, Ref}
use ctd_project.Board.{get_piece_at, get_width, get_height}
use ctd_project.Rules.{same_color}
use ctd_project.Input.{Controller, click, clicked, second_click, pixel_to_cell}

-- A piece is hit while a cell without one is selected.
abbrev pub Fault : Controller → Option Position → Option Position → Type 0
Fault k hit selected =
    (src : Position) × (cell : Position) × (r : Ref) × (selected ≡ some src)
    × (hit ≡ some cell)
    × (get_piece_at k.engine.world.board src ≡ none)
    × (get_piece_at k.engine.world.board cell ≡ some r)

second_fault :
    (k : Controller) (src cell : Position) (o p : Option Ref)
    → (second_click k src cell o p ≡ none) ↔ ((r : Ref) × (p ≡ none) × (o ≡ some r))
unfolding second_click
second_fault k src cell none p = (λ e. cc, λ (r, _, e). cc)
second_fault k src cell (some r) none = (λ e. (r, refl, refl), λ e. refl)
second_fault k src cell (some r) (some s) = elim (Bool-cases (same_color k.engine.world.heap r s)) [
  | inl e ↦ rw e (λ n. cc, λ (q, n, _). cc)
  | inr e ↦ rw e (λ n. cc, λ (q, n, _). cc)
]

clicked-Fault :
    (k : Controller) (hit selected : Option Position)
    → (clicked k hit selected ≡ none) ↔ Fault k hit selected
unfolding clicked
clicked-Fault k none selected = (λ e. cc, λ (src, cell, r, _, e, _, _). cc)
clicked-Fault k (some cell) none = (λ e. cc, λ (src, _, r, e, _, _, _). cc)
clicked-Fault k (some cell) (some src) =
    let at = get_piece_at k.engine.world.board in
    let (to, from) = second_fault k src cell (at cell) (at src) in
    (
      λ e. let (r, p, o) = to e in (src, cell, r, refl, refl, p, o),
      λ (src', cell', r, e, f, p, o). from (r, cc, cc),
    )

-- A click reads the colour of a piece that is not there exactly if it hits a cell with a piece while
-- a cell without one is selected.
pub click-Fault :
    (k : Controller) (x y : ℤ)
    → let b = k.engine.world.board in
      (click k x y ≡ none)
      ↔ Fault k (pixel_to_cell x y (get_width b) (get_height b)) k.selected_cell
unfolding click
click-Fault k x y =
    let b = k.engine.world.board in
    clicked-Fault k (pixel_to_cell x y (get_width b) (get_height b)) k.selected_cell
