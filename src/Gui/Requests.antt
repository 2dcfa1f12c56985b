-- ===== src/Gui/Requests.antt =====
-- The mouse on the board.
pub mod Waiting
pub mod Sending
use ctd_project.Base.{
  ℕ, ◌-◌, ◌+◌, Bool, true, false, ◌&&◌, ◌||◌, not, Option, none, some, List, [], ◌∷◌, if◌then◌else◌,
  ltb, leb, is_some, ℤ, pos, negsuc, sub_ℕ, Str, codes, str_eq,
}
use ctd_project.Piece.{Position, position, PieceColor, white, black, color_eq, pos_eq, Ref, Heap}
use ctd_project.Board.{Board, get_piece_at, get_width, get_height}
use ctd_project.MessageBus.{sound}
use ctd_project.GameState.{World, emit, board_cells}
use ctd_project.Rules.{validate_move, same_color}
use ctd_project.Arbiter.{is_piece_cooling_down}
use ctd_project.Engine.{GameEngine, request_move, request_jump}
use ctd_project.Server.{is_empty}
use ctd_project.Input.{pixel_to_cell}
use ctd_project.Client.{Client, is_positive}
use ctd_project.Client.Messages.{send_move, send_jump}
use ctd_project.Gui.{
  Game, socket_client, game_engine, GuiState, world_of, set_world, heap_of, board_of, MouseEvent,
  left_down, left_up, right_down, mouse_move, other, is_left_down, handle_opening_click,
}

-- `!get_disconnect_user().empty() && get_disconnect_countdown() > 0`
abbrev pub is_waiting : Client → Bool
is_waiting c = not (is_empty c.disconnect_user) && is_positive c.disconnect_countdown

abbrev pub color_text : PieceColor → Str
color_text white = codes "WHITE"
color_text black = codes "BLACK"

-- While the client waits for a player, no piece can be taken; with a client, only pieces of the
-- player's colour.
unfoldable pub may_touch : Game → Ref → Bool
may_touch (socket_client c) r =
    not (is_waiting c) && str_eq c.assigned_color (color_text (c.world.heap.piece r).color)
may_touch (game_engine g) r = true

rests : Game → Ref → Bool
rests (socket_client c) r = is_piece_cooling_down c.world.heap c.arbiter (some r)
rests (game_engine g) r = is_piece_cooling_down g.world.heap g.arbiter (some r)

is_enemy : Heap → Ref → Option Ref → Bool
is_enemy h r none = false
is_enemy h r (some q) = not (same_color h q r)

is_valid : Option Bool → Bool
is_valid none = false
is_valid (some b) = b

-- The piece could take another one.
threatens : Heap → Board → Ref → Position → List Position → Bool
unfolding is_enemy is_valid
threatens h b r cell [] = false
threatens h b r cell (p ∷ ps) =
    (not (pos_eq p cell)
      && (is_valid (validate_move h b cell p) && is_enemy h r (get_piece_at b p)))
    || threatens h b r cell ps

take_up : GuiState → Position → Ref → ℤ → ℤ → GuiState
unfolding threatens
take_up gs cell r x y =
    let b = board_of gs in
    let heard = set_world gs.game (emit (world_of gs.game) (sound (codes "capture"))) in
    record gs {
      game = if threatens (heap_of gs) b r cell (board_cells b) then heard else gs.game;
      selected_cell = some cell;
      dragged_piece = some r;
      drag_x = x;
      drag_y = y;
    }

abbrev pub release : GuiState → GuiState
release gs = record gs { selected_cell = none; dragged_piece = none }

-- A move goes to the server, or to the engine.
unfoldable pub ask_move : Game → Position → Position → Game
ask_move (socket_client c) src dst = socket_client (send_move c src.row src.col dst.row dst.col)
ask_move (game_engine g) src dst = game_engine (request_move g src dst)

unfoldable pub ask_jump : Game → Position → Game
ask_jump (socket_client c) at = socket_client (send_jump c at.row at.col)
ask_jump (game_engine g) at = game_engine (request_jump g at)

-- The second click of a move; while the client waits, nothing is sent.
unfoldable pub move_selected : Game → Position → Position → Game
move_selected (socket_client c) src dst =
    if is_waiting c then socket_client c else ask_move (socket_client c) src dst
move_selected (game_engine g) src dst = ask_move (game_engine g) src dst

-- The piece on the selected cell, if there is one.
abbrev pub selected_piece : GuiState → Option Ref
selected_piece gs = elim gs.selected_cell [
  | none ↦ none
  | some cell ↦ get_piece_at (board_of gs) cell
]

picks : Heap → Ref → Option Ref → Bool
picks h r none = true
picks h r (some s) = same_color h r s

second_click : GuiState → Position → Option Position → GuiState
second_click gs cell none = gs
second_click gs cell (some src) = release (record gs { game = move_selected gs.game src cell })

left_click : GuiState → Position → ℤ → ℤ → Option Ref → GuiState
unfolding picks second_click take_up rests
left_click gs cell x y none = second_click gs cell gs.selected_cell
left_click gs cell x y (some r) =
    if picks (heap_of gs) r (selected_piece gs)
    then (if may_touch gs.game r && not (rests gs.game r) then take_up gs cell r x y else gs)
    else second_click gs cell gs.selected_cell

unfoldable pub handle_left_click_down : GuiState → Position → ℤ → ℤ → GuiState
unfolding left_click
handle_left_click_down gs cell x y = left_click gs cell x y (get_piece_at (board_of gs) cell)

-- The dragged piece is dropped on another cell than the one it says it stands on.
drop_piece : GuiState → Position → Option Ref → GuiState
drop_piece gs cell none = gs
drop_piece gs cell (some r) =
    let src = ((heap_of gs).piece r).cell in
    if pos_eq src cell
    then record gs { dragged_piece = none }
    else release (record gs { game = ask_move gs.game src cell })

unfoldable pub handle_left_click_up : GuiState → Position → GuiState
unfolding drop_piece
handle_left_click_up gs cell = drop_piece gs cell gs.dragged_piece

right_click : GuiState → Position → Option Ref → GuiState
right_click gs cell none = gs
right_click gs cell (some r) =
    if may_touch gs.game r then release (record gs { game = ask_jump gs.game cell }) else gs

unfoldable pub handle_right_click_down : GuiState → Position → GuiState
unfolding right_click
handle_right_click_down gs cell = right_click gs cell (get_piece_at (board_of gs) cell)

-- `x - 100`
abbrev pub board_x : ℤ → ℤ
board_x (pos x) = sub_ℕ x 100
board_x (negsuc x) = negsuc (x + 100)

-- The cell under the mouse; the board is drawn on 800 by 800 pixels.
abbrev pub drawn : ℤ → Bool
drawn (pos n) = ltb n 800
drawn (negsuc n) = false

unfoldable pub cell_under : GuiState → ℤ → ℤ → Option Position
cell_under gs x y =
    let b = board_of gs in
    if drawn (board_x x) && drawn y
    then pixel_to_cell (board_x x) y (get_width b) (get_height b)
    else none

on_cell : GuiState → MouseEvent → ℤ → ℤ → Option Position → GuiState
on_cell gs event x y none = if is_left_down event then release gs else gs
on_cell gs event x y (some cell) = elim event [
  | left_down ↦ handle_left_click_down gs cell x y
  | left_up ↦ handle_left_click_up gs cell
  | right_down ↦ handle_right_click_down gs cell
  | mouse_move ↦ gs
  | other ↦ gs
]

on_board : GuiState → MouseEvent → ℤ → ℤ → GuiState
unfolding on_cell
on_board gs mouse_move x y =
    if is_some gs.dragged_piece then record gs { drag_x = x; drag_y = y } else gs
on_board gs left_down x y = on_cell gs left_down x y (cell_under gs x y)
on_board gs left_up x y = on_cell gs left_up x y (cell_under gs x y)
on_board gs right_down x y = on_cell gs right_down x y (cell_under gs x y)
on_board gs other x y = on_cell gs other x y (cell_under gs x y)

unfoldable pub on_mouse : GuiState → MouseEvent → ℤ → ℤ → GuiState
unfolding on_board
on_mouse gs event x y =
    let (gs1, handled) = handle_opening_click gs event x y in
    if handled then gs1 else on_board gs event x y
