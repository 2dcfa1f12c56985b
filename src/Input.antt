-- ===== src/Input.antt =====
-- src/input/board_mapper.cpp and src/input/controller.cpp: from a click on a pixel to a request.
pub mod Clicks
use ctd_project.Base.{ℕ, ◌/◌, ◌&&◌, Option, none, some, if◌then◌else◌, ltb, ℤ, pos, negsuc}
use ctd_project.Piece.{Position, position, Ref}
use ctd_project.Board.{get_piece_at, get_width, get_height}
use ctd_project.Rules.{same_color}
use ctd_project.Engine.{GameEngine, request_move}

abbrev pub cell_size : ℕ
cell_size = 100

unfoldable pub pixel_to_cell : ℤ → ℤ → ℕ → ℕ → Option Position
pixel_to_cell (pos x) (pos y) board_width board_height =
    let col = x / cell_size in
    let row = y / cell_size in
    if ltb row board_height && ltb col board_width
    then some (position (pos row) (pos col))
    else none
pixel_to_cell (negsuc x) y board_width board_height = none
pixel_to_cell (pos x) (negsuc y) board_width board_height = none

-- `board` is the board of `engine`.
pub record Controller : Type 0 where
  pub engine : GameEngine
  pub selected_cell : Option Position

select : Controller → Option Position → Controller
select k cell = record k { selected_cell = cell }

request : Controller → Position → Position → Controller
request k src dest = record { engine = request_move k.engine src dest; selected_cell = none }

-- A first click selects a piece.
first_click : Controller → Position → Option Ref → Controller
unfolding select
first_click k cell none = k
first_click k cell (some r) = select k (some cell)

-- A second click; the result is `none` where the code reads the colour of a piece that is not there.
second_click : Controller → Position → Position → Option Ref → Option Ref → Option Controller
unfolding select request
second_click k src cell none selected = some (request k src cell)
second_click k src cell (some r) none = none
second_click k src cell (some r) (some s) =
    if same_color k.engine.world.heap r s
    then some (select k (some cell))
    else some (request k src cell)

-- A click on no cell, or on a cell, with what is selected.
clicked : Controller → Option Position → Option Position → Option Controller
unfolding first_click second_click select
clicked k none selected = some (select k none)
clicked k (some cell) none = some (first_click k cell (get_piece_at k.engine.world.board cell))
clicked k (some cell) (some src) =
    let at = get_piece_at k.engine.world.board in second_click k src cell (at cell) (at src)

pub click : Controller → ℤ → ℤ → Option Controller
unfolding clicked
click k x y =
    let b = k.engine.world.board in
    clicked k (pixel_to_cell x y (get_width b) (get_height b)) k.selected_cell
