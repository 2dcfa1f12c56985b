-- ===== src/Gui.antt =====
-- include/input/gui_controller.h and src/input/gui_controller.cpp: the mouse and the keys of the
-- window.
pub mod Dialog
pub mod Requests
use ctd_project.Base.{
  ℕ, ◌-◌, Bool, true, false, ◌&&◌, ◌||◌, not, Option, none, some, List, [], ◌∷◌, ◌++◌,
  if◌then◌else◌, ltb, leb, ◌==◌, is_some, ℤ, pos, negsuc, sub_ℕ, int_leb, Str, codes, str_eq,
  length,
}
use ctd_project.Piece.{Position, position, PieceColor, white, black, color_eq, pos_eq, Ref, Heap}
use ctd_project.Board.{Board, get_piece_at, get_width, get_height}
use ctd_project.MessageBus.{sound}
use ctd_project.GameState.{World, emit, board_cells}
use ctd_project.Rules.{validate_move, same_color}
use ctd_project.Arbiter.{is_piece_cooling_down}
use ctd_project.Engine.{GameEngine, request_move, request_jump}
use ctd_project.Server.{is_empty}
use ctd_project.Input.{pixel_to_cell}
use ctd_project.Client.{
  Client, MatchState, idle, searching, matched, timeout, dismiss_popup, is_positive,
}
use ctd_project.Client.Messages.{
  send_move, send_jump, send_find_match, send_cancel_match, send_create_room, send_join_room,
}

-- The main program sets one of `socket_client` and `game_engine`.
pub data Game : Type 0 where
  socket_client : Client → Game
  game_engine : GameEngine → Game

-- `board` is a board that the client had; with an engine, it is the engine's.
pub record GuiState : Type 0 where
  pub game : Game
  pub board : Board
  pub selected_cell : Option Position
  pub dragged_piece : Option Ref
  pub drag_x : ℤ
  pub drag_y : ℤ
  pub in_opening_screen : Bool
  pub show_room_dialog : Bool
  pub room_input_text : Str

abbrev pub world_of : Game → World
world_of (socket_client c) = c.world
world_of (game_engine g) = g.world

abbrev pub set_world : Game → World → Game
set_world (socket_client c) w = socket_client (record c { world = w })
set_world (game_engine g) w = game_engine (record g { world = w })

abbrev pub heap_of : GuiState → Heap
heap_of gs = (world_of gs.game).heap

abbrev pub board_of : GuiState → Board
board_of gs = elim gs.game [ socket_client c ↦ gs.board | game_engine g ↦ g.world.board ]

-- `EVENT_LBUTTONDOWN` and the others of OpenCV.
pub data MouseEvent : Type 0 where
  left_down left_up right_down mouse_move other : MouseEvent

abbrev pub is_left_down : MouseEvent → Bool
is_left_down left_down = true
is_left_down _ = false

-- `x >= x1 && x <= x2 && y >= y1 && y <= y2`
abbrev pub inside : (x y : ℤ) → (x1 x2 y1 y2 : ℕ) → Bool
inside x y x1 x2 y1 y2 =
    (int_leb (pos x1) x && int_leb x (pos x2)) && (int_leb (pos y1) y && int_leb y (pos y2))

abbrev pub hide_dialog : GuiState → GuiState
hide_dialog gs = record gs { show_room_dialog = false }

-- What is done with the client, if there is one.
abbrev pub on_client : (Client → Client) → Game → Game
on_client f (socket_client c) = socket_client (f c)
on_client f (game_engine g) = game_engine g

abbrev pub with_client : (Client → Client) → GuiState → GuiState
with_client f gs = record gs { game = on_client f gs.game }

create_named : GuiState → GuiState
create_named gs =
    let name = if is_empty gs.room_input_text then codes "Battle Room" else gs.room_input_text in
    hide_dialog (with_client (λ c. send_create_room c name) gs)

join_named : GuiState → GuiState
join_named gs =
    let joined = with_client (λ c. send_join_room c gs.room_input_text) gs in
    hide_dialog (if is_empty gs.room_input_text then gs else joined)

dialog_click : GuiState → ℤ → ℤ → GuiState
unfolding create_named join_named
dialog_click gs x y =
    if inside x y 260 400 460 505
    then create_named gs
    else if inside x y 430 570 460 505
    then join_named gs
    else if inside x y 600 740 460 505
    then hide_dialog gs
    else gs

-- The large button searches for a match, or stops the search.
toggle_search : Client → Client
toggle_search c = elim c.match_state [
  | idle ↦ send_find_match c
  | timeout ↦ send_find_match c
  | searching ↦ send_cancel_match c
  | matched ↦ c
]

client_click : GuiState → Client → ℤ → ℤ → GuiState
unfolding toggle_search
client_click gs c x y =
    let dismissed = if c.show_popup then dismiss_popup c else c in
    if inside x y 220 780 555 615
    then record gs { game = socket_client dismissed; show_room_dialog = true; room_input_text = [] }
    else if c.show_popup
    then record gs { game = socket_client dismissed }
    else if inside x y 220 780 470 545
    then record gs { game = socket_client (toggle_search c) }
    else gs

opening_click : GuiState → ℤ → ℤ → GuiState
unfolding dialog_click client_click
opening_click gs x y = if gs.show_room_dialog then dialog_click gs x y else elim gs.game [
  | socket_client c ↦ client_click gs c x y
  | game_engine g ↦
      if inside x y 220 780 470 545 then record gs { in_opening_screen = false } else gs
]

-- Whether the click was for the opening screen.
unfoldable pub handle_opening_click : GuiState → MouseEvent → ℤ → ℤ → GuiState × Bool
unfolding opening_click
handle_opening_click gs event x y =
    if gs.in_opening_screen
    then (if is_left_down event then opening_click gs x y else gs, true)
    else (gs, false)

abbrev pub max_room_input_length : ℕ
max_room_input_length = 20

-- `pop_back`
unfoldable pub pop_back : Str → Str
pop_back [] = []
pop_back (c ∷ []) = []
pop_back (c ∷ d ∷ s) = c ∷ pop_back (d ∷ s)

type_char : GuiState → ℕ → GuiState
type_char gs key =
    let typed : GuiState = record gs { room_input_text = gs.room_input_text ++ key ∷ [] } in
    if ltb (length gs.room_input_text) max_room_input_length then typed else gs

dialog_key : ℕ → GuiState → GuiState × Bool
unfolding join_named type_char
dialog_key key gs =
    if key == 8
    then (record gs { room_input_text = pop_back gs.room_input_text }, true)
    else if (key == 13) || (key == 10)
    then (join_named gs, true)
    else if leb 32 key && leb key 126
    then (type_char gs key, true)
    else (gs, false)

-- Keys are for the room's name while it is asked for.
unfoldable pub on_key : ℤ → GuiState → GuiState × Bool
unfolding dialog_key
on_key (pos key) gs = if gs.show_room_dialog then dialog_key key gs else (gs, false)
on_key (negsuc key) gs = (gs, false)
