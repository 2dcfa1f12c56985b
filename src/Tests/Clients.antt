-- ===== src/Tests/Clients.antt =====
-- The client, its messages and the window.
use ctd_project.Base.{
  List, Str, ◌≡◌, refl, true, false, none, some, [], ◌∷◌, ◌||◌, ◌++◌, ◌==◌, if◌then◌else◌, pos,
  negsuc, codes, map, arith, str_eq,
}
use ctd_project.Piece.{position}
use ctd_project.Board.{get_piece_at, is_in_bounds, in_range, index, grid_at}
use ctd_project.GameState.{is_game_over, board_cells, new_game_state}
use ctd_project.MessageBus.{sound}
use ctd_project.Arbiter.{
  cooldown_of, is_piece_cooling_down, get_piece_cooldown_remaining_ms, get_piece_cooldown_total_ms,
}
use ctd_project.Engine.{GameEngine}
use ctd_project.Server.{Room, ClientInfo, ClientRef}
use ctd_project.Server.Play.{move}
use ctd_project.Server.Commands.{on_message}
use ctd_project.Server.Commands.Sent.{on_message-move_text}
use ctd_project.Server.State.{
  serialize_room_state, pieces_to_serialize, motions_with_piece, jumps_with_piece, room_fields,
  disconnect_countdown,
}
use ctd_project.Client.{Client, new_client}
use ctd_project.Client.Messages.{move_text}
use ctd_project.Client.Reading.{PieceEntry, JumpEntry, StateFields}
use ctd_project.Client.RoomFields.{fields_of}
use ctd_project.Client.FromServer.{Reads, serialize_room_state-Reads}
use ctd_project.Client.Merging.{any_motion, final_motions}
use ctd_project.Client.Merging.UnderWay.{any_running, any_motion-final_motions}
use ctd_project.Client.Animations.{advance_animations}
use ctd_project.Client.Animations.Ending.{advance_animations-is_game_over}
use ctd_project.Gui.{GuiState, socket_client, on_key}
use ctd_project.Gui.Dialog.{IsShort, on_key-IsShort}
use ctd_project.Gui.Requests.{handle_left_click_down, handle_right_click_down}
use ctd_project.Gui.Requests.Sending.{HasSent, on_message-left_click}
use ctd_project.Gui.Requests.Waiting.{click-is_waiting}
use ctd_project.Users.{User, new_user}
use ctd_project.Users.File.{load, save}
use ctd_project.Users.File.RoundTrip.{stored, load-save}
use ctd_project.Tests.Fixtures.{at, three_pieces, world_on, board_without_rook, rook_to, king_above}
use ctd_project.Tests.Servers.{client, room, server}

-- The rook is under way and the king in the air.
abbrev busy_engine : GameEngine
busy_engine = record {
  world = world_on board_without_rook;
  arbiter = record {
    active_motions = rook_to (at 0 1) ∷ [];
    active_jumps = king_above (at 0 2) ∷ [];
    active_cooldowns =
        record { piece = some 2; remaining_ms = 400; total_ms = 1000; is_long_rest = false } ∷ [];
  };
}

abbrev busy_room : Room
busy_room = record room { game_engine = busy_engine }

abbrev named : ClientRef → ClientInfo
named c = record (client c) { username = if c == 0 then codes "anna" else codes "bert" }

serialize_room_state-Reads_example :
    Reads (serialize_room_state named 5000 busy_room (codes "move" ∷ [])) named 5000 busy_room
unfolding pieces_to_serialize motions_with_piece jumps_with_piece room_fields disconnect_countdown
    str_eq board_cells get_piece_at is_in_bounds in_range index grid_at is_piece_cooling_down
    get_piece_cooldown_remaining_ms get_piece_cooldown_total_ms cooldown_of
serialize_room_state-Reads_example =
    serialize_room_state-Reads named 5000 busy_room (codes "move" ∷ []) (
      (refl, refl, refl, refl, refl, refl, refl, refl, refl, refl),
      refl,
      refl,
      (
        ((refl, refl, refl, refl, refl), refl),
        (((refl, refl, refl, refl, refl), refl), (((refl, refl, refl, refl, refl), refl), refl)),
      ),
      (((refl, refl, refl, refl, refl, refl, refl, refl), refl, refl), refl),
      (((refl, refl, refl, refl, refl), refl), refl),
    )

-- The client's move of the rook.
on_message-move_text_example :
    on_message server 10 5000 (move_text 1 (pos 0) (pos 0) (pos 0) (negsuc 1))
    ≡ some (move server 10 (pos 1) (at 0 0) (position (pos 0) (negsuc 1)))
on_message-move_text_example =
    on_message-move_text server 10 5000 1 (at 0 0) (position (pos 0) (negsuc 1)) refl (refl, refl)
      (refl, refl)

-- The server has said that the game is over, and the rook has 500 milliseconds to go.
abbrev losing_client : Client
losing_client = record (new_client three_pieces) {
  server_game_over = true;
  delayed_sounds = codes "game_over" ∷ [];
  arbiter = busy_engine.arbiter;
}

advance_animations-is_game_over_example :
    (is_game_over (advance_animations 600 losing_client).world ≡ true)
    × ((advance_animations 600 losing_client).world.events
        ≡ losing_client.world.events ++ map sound losing_client.delayed_sounds)
    × ((advance_animations 600 losing_client).delayed_sounds ≡ [])
unfolding new_game_state
advance_animations-is_game_over_example =
    advance_animations-is_game_over 600 losing_client refl refl refl

abbrev window_of : Client → GuiState
window_of c = record {
  game = socket_client c;
  board = board_without_rook;
  selected_cell = none;
  dragged_piece = none;
  drag_x = pos 0;
  drag_y = pos 0;
  in_opening_screen = true;
  show_room_dialog = true;
  room_input_text = codes "a room of 20 letters";
}

on_key-IsShort_example : IsShort (on_key (pos b'!') (window_of losing_client)).0
on_key-IsShort_example = on_key-IsShort (pos b'!') (window_of losing_client) (omega arith)

-- A player has left with 12 seconds to come back.
abbrev waiting_client : Client
waiting_client = record losing_client {
  disconnect_user = codes "bert";
  disconnect_countdown = pos 12;
}

click-is_waiting_example :
    ((handle_left_click_down (window_of waiting_client) (at 0 2) (pos 350) (pos 50)).game
      ≡ socket_client waiting_client)
    × ((handle_right_click_down (window_of waiting_client) (at 0 2)).game
        ≡ socket_client waiting_client)
click-is_waiting_example =
    click-is_waiting waiting_client (window_of waiting_client) (at 0 2) refl (pos 350) (pos 50)

abbrev anna : User
anna = record (new_user (codes "anna") (codes "secret")) { wins = 3 }

abbrev bert : User
bert = record (new_user (codes "bert") []) { elo = 987 }

load-save_example : load (save (anna ∷ bert ∷ [])) ≡ some (stored (λ n. none) (anna ∷ bert ∷ []))
unfolding str_eq
load-save_example =
    load-save (anna ∷ bert ∷ [])
      ((refl, refl, refl, refl, refl, refl), ((refl, refl, refl, refl, refl, refl), refl))

-- The king is selected, and the cell below it is clicked.
abbrev playing_client : Client
playing_client = record (new_client three_pieces) { assigned_color = codes "BLACK" }

on_message-left_click_example :
    (text : Str) × HasSent playing_client
      (window_of playing_client)
      (handle_left_click_down
        (record (window_of playing_client) {
          game = socket_client playing_client;
          selected_cell = some (at 0 2);
        })
        (at 1 2)
        (pos 350)
        (pos 150))
      text
      1
    × (on_message server 11 5000 text ≡ some (move server 11 (pos 1) (at 0 2) (at 1 2)))
unfolding get_piece_at is_in_bounds in_range index grid_at
on_message-left_click_example =
    on_message-left_click playing_client (window_of playing_client) (at 0 2) (at 1 2) (pos 350)
      (pos 150) server 11 5000 refl refl refl (refl, refl) (refl, refl)

-- The client's rook is still under way; the server has sent nothing.
any_motion-final_motions_example :
    any_motion three_pieces (some 0) (final_motions three_pieces (rook_to (at 0 1) ∷ []) []) ≡ (
      any_motion three_pieces (some 0) []
      || any_running three_pieces (some 0) (rook_to (at 0 1) ∷ []))
any_motion-final_motions_example =
    any_motion-final_motions three_pieces (some 0) (rook_to (at 0 1) ∷ []) []

-- A rook on its cell, and a king that the server says is in the air.
abbrev sent_pieces : List PieceEntry
sent_pieces =
    record { piece = three_pieces.piece 0; cooldown = none }
    ∷ record { piece = three_pieces.piece 1; cooldown = none }
    ∷ []

abbrev sent_jumps : List JumpEntry
sent_jumps =
    record { piece_id = codes "bK"; spot = at 0 2; total_ms = 1000; remaining_ms = 700 } ∷ []

abbrev sent_fields : StateFields
sent_fields = fields_of named 5000 busy_room
