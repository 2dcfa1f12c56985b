-- ===== src/Server/Play.antt =====
-- src/network/socket_server.cpp: the branches MOVE and JUMP of `on_message` and
-- `broadcast_room_state`.
pub mod Numbers
use ctd_project.Base.{
  Bool, true, false, not, ◌&&◌, ◌||◌, Option, none, some, List, [], ◌∷◌, ◌++◌, map, if◌then◌else◌,
  is_some, ℤ, int_leb, Str, codes, str_eq, leb,
}
use ctd_project.Piece.{Position, PieceColor, white, black, Ref}
use ctd_project.Board.{get_piece_at}
use ctd_project.GameState.{World, is_game_over}
use ctd_project.Engine.{GameEngine, request_move, request_jump}
use ctd_project.Server.{
  Server, Room, ClientInfo, ClientRef, Hdl, Seat, white_seat, black_seat, viewer, set_info, Message,
  room_state, find_client, find_room, update_room, has_id, sounds_of, quiet, is_empty,
}

-- The sounds that end a game are another one for each player.
unfoldable pub end_sounds : Bool → Bool → List Str → List Str
end_sounds is_over is_winner sounds =
    if is_over
    then map
        (λ s.
          if str_eq s (codes "game_win") || str_eq s (codes "game_over")
          then (if is_winner then codes "game_win" else codes "game_over")
          else s)
        sounds
    else sounds

abbrev pub white_won : World → Bool
white_won w = leb w.game.black_score w.game.white_score

abbrev pub is_winner_seat : Seat → Bool → Bool
is_winner_seat white_seat won = won
is_winner_seat black_seat won = not won
is_winner_seat viewer won = false

send_state : Room → ClientInfo → Hdl × Message
send_state r i =
    let w = r.game_engine.world in
    let sounds =
      end_sounds (is_game_over w) (is_winner_seat i.color (white_won w)) r.pending_sounds in
    (i.hdl, room_state r sounds)

in_seat : Option ClientRef → List ClientRef
in_seat none = []
in_seat (some p) = p ∷ []

-- `broadcast_room_state`: everyone in the room is sent its state, and its sounds are used up.
unfoldable pub broadcast_room_state : Server → Room → Server
unfolding send_state in_seat
broadcast_room_state s r =
    let recipients = in_seat r.white_player ++ in_seat r.black_player ++ r.viewers in
    record s {
      sent = s.sent ++ map (λ c. send_state r (s.info c)) recipients;
      rooms = update_room (has_id r.id) (λ r. record r { pending_sounds = [] }) s.rooms;
    }

-- The engine that plays for a client, which is none while a player of the room is missing.
abbrev pub engine_of_room : Server → Option Room → Option GameEngine
engine_of_room s none = some s.game_engine
engine_of_room s (some r) =
    if r.is_disconnected || not (is_some r.white_player) || not (is_some r.black_player)
    then none
    else some r.game_engine

unfoldable pub target_engine : Server → Str → Option GameEngine
target_engine s [] = some s.game_engine
target_engine s (a ∷ id) = engine_of_room s (find_room (has_id (a ∷ id)) s.rooms)

unfoldable pub put_in_room : Server → Str → GameEngine → Option Room → Server
put_in_room s id g none = record s { game_engine = quiet g }
put_in_room s id g (some q) =
    let change : Room → Room = λ r. record r {
      game_engine = quiet g;
      pending_sounds = r.pending_sounds ++ sounds_of g.world.events;
    } in
    record s { rooms = update_room (has_id id) change s.rooms }

-- The engine after a request; its sounds are added to those of the room whose id is
-- `tls_current_room_id`, or to those of the server.
unfoldable pub put_engine : Server → Str → GameEngine → Server
unfolding put_in_room
put_engine s [] g = record s {
  game_engine = quiet g;
  pending_sounds = s.pending_sounds ++ sounds_of g.world.events;
}
put_engine s (a ∷ id) g = put_in_room s (a ∷ id) g (find_room (has_id (a ∷ id)) s.rooms)

-- The client sits at the pieces of the colour.
abbrev pub plays : Seat → PieceColor → Bool
plays white_seat white = true
plays black_seat black = true
plays _ _ = false

owns : GameEngine → Seat → Option Ref → Bool
owns g color none = false
owns g color (some p) = plays color (g.world.heap.piece p).color

-- What MOVE and JUMP share: the request is made by a player for a piece of its colour.
on_piece : (GameEngine → GameEngine) → Position → Server → ClientInfo → GameEngine → Server
unfolding owns
on_piece request at s i g =
    let piece = get_piece_at g.world.board at in
    if not i.is_viewer && owns g i.color piece
    then put_engine s i.room_id (request (quiet g))
    else s

-- The state of the room of a client is sent after a move that was requested.
broadcast_found : Server → Option Room → Server
broadcast_found s none = s
broadcast_found s (some r) = broadcast_room_state s r

broadcast_move : Position → ClientInfo → GameEngine → Server → Server
unfolding owns broadcast_found
broadcast_move at i g s =
    if not i.is_viewer && owns g i.color (get_piece_at g.world.board at) && not (is_empty i.room_id)
    then broadcast_found s (find_room (has_id i.room_id) s.rooms)
    else s

command :
    (GameEngine → GameEngine) → Bool → Position → Server → ClientInfo → Option GameEngine → Server
unfolding on_piece broadcast_move
command request broadcasts at s i none = s
command request broadcasts at s i (some g) =
    let s' = on_piece request at s i g in if broadcasts then broadcast_move at i g s' else s'

-- The check of the number of the command; a command that is taken up leaves its number.
numbered : (GameEngine → GameEngine) → Bool → Position → ℤ → Server → Option ClientRef → Server
unfolding command
numbered request broadcasts at seq s none = s
numbered request broadcasts at seq s (some c) =
    let i = record (s.info c) { last_seq = seq } in
    if int_leb seq (s.info c).last_seq
    then s
    else command request broadcasts at (set_info s c i) i (target_engine s i.room_id)

-- MOVE
pub move : Server → Hdl → ℤ → Position → Position → Server
unfolding numbered
move s hdl seq src dest =
    numbered (λ g. request_move g src dest) true src seq s (find_client s.info hdl s.clients)

-- JUMP
unfoldable pub jump : Server → Hdl → ℤ → Position → Server
unfolding numbered
jump s hdl seq at =
    numbered (λ g. request_jump g at) false at seq s (find_client s.info hdl s.clients)
