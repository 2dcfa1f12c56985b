-- ===== src/Tests/Servers.antt =====
-- The server, the clicks and the texts.
use ctd_project.Base.{
  inl, ◌≡◌, ◌↔◌, refl, true, false, not, ◌&&◌, ◌||◌, none, some, [], ◌∷◌, ◌==◌, if◌then◌else◌, pos,
  codes, arith, ◌+◌, ◌-◌, ◌++◌, to_string, str_eq,
}
use ctd_project.GameState.{is_game_over}
use ctd_project.Server.{
  has_id, find_room, find_client, Server, Room, ClientInfo, ClientRef, new_client, white_seat,
  black_seat,
}
use ctd_project.Server.Lobby.{has_name_or_id, new_room, create_room, find_last_room}
use ctd_project.Server.Lobby.Rooms.{create_room_found}
use ctd_project.Server.Sessions.{leave_room, is_seat_of}
use ctd_project.Server.Sessions.Leaving.{one_left, leave_room_lem}
use ctd_project.Server.Play.Numbers.{moves, jumps, obeyed, obeyed-obeyed}
use ctd_project.Server.Loop.{settle_room, room_round}
use ctd_project.Server.Loop.Forfeits.{Has, IsOver, room_round-forfeit}
use ctd_project.Server.Loop.Once.{settle_room-settle_room}
use ctd_project.Server.Matchmaking.{match_all}
use ctd_project.Server.Matchmaking.Pairs.{fits, match_all-Settled}
use ctd_project.Users.{User, Users, Rate, new_user, store_user}
use ctd_project.Users.File.{save}
use ctd_project.Users.File.RoundTrip.{stored}
use ctd_project.Users.Manager.{UserManager, update_elo_after_game, authenticate_or_register}
use ctd_project.Users.Login.{LoggedIn, authenticate_or_register_lem}
use ctd_project.Users.Ratings.{rerated, update_elo_after_game_lem}
use ctd_project.BoardText.{token_piece, cell_token, parsed}
use ctd_project.BoardText.Tokens.{reread, token_piece-cell_token}
use ctd_project.Input.{Controller, click, pixel_to_cell}
use ctd_project.Input.Clicks.{Fault, click-Fault}
use ctd_project.Tests.Fixtures.{at, three_pieces, duel}

abbrev pub client : ClientRef → ClientInfo
client c = record (new_client (c + 10)) {
  is_searching = true;
  color = if c == 0 then white_seat else black_seat;
  room_id = codes "RM-1001";
}

abbrev pub room : Room
room = record {
  id = codes "RM-1001";
  name = codes "Battle Room";
  white_player = some 0;
  black_player = some 1;
  viewers = [];
  game_engine = duel;
  elo_updated = false;
  pending_sounds = [];
  is_disconnected = false;
  disconnected_username = [];
  disconnect_start_time = 0;
}

abbrev pub server : Server
server = record {
  info = client;
  next_client = 2;
  clients = 0 ∷ 1 ∷ [];
  rooms = room ∷ [];
  room_counter = 1001;
  game_engine = duel;
  elo_updated_for_game = false;
  pending_sounds = [];
  users = record { users = λ n. none; file = none; listing = λ users. [] };
  sent = [];
}

abbrev left : Room
left = leave_room client 10 (codes "ann") 5000 room

leave_room_lem_example :
    (is_seat_of client 10 left.white_player ≡ false)
    × (is_seat_of client 10 left.black_player ≡ false)
    × (is_game_over left.game_engine.world
        ≡ (is_game_over room.game_engine.world || not (one_left left)))
    × (left.is_disconnected ≡ (
        one_left left
        && (((is_seat_of client 10 room.white_player || is_seat_of client 10 room.black_player)
              && not (is_game_over room.game_engine.world))
            || room.is_disconnected)))
leave_room_lem_example = leave_room_lem client 10 (codes "ann") 5000 room

obeyed-obeyed_example :
    obeyed (obeyed server 10 (pos 2) (moves (at 0 0) (at 0 1))) 10 (pos 1) (jumps (at 0 2))
    ≡ obeyed server 10 (pos 2) (moves (at 0 0) (at 0 1))
obeyed-obeyed_example =
    obeyed-obeyed server 10 (pos 2) (pos 1) (moves (at 0 0) (at 0 1)) (jumps (at 0 2)) refl

match_all-Settled_example : fits (match_all server (0 ∷ 1 ∷ [])).info 0 1 ≡ false
match_all-Settled_example = match_all-Settled server (0 ∷ 1 ∷ []) 0 1 0 1 (omega arith) refl refl

token_piece-cell_token_example :
    token_piece (cell_token three_pieces (some 0)) (at 0 0)
    ≡ parsed (reread three_pieces (at 0 0) (some 0))
token_piece-cell_token_example = token_piece-cell_token three_pieces (at 0 0) (some 0)

abbrev controller : Controller
controller = record { engine = duel; selected_cell = some (at 1 1) }

click-Fault_example :
    (click controller (pos 250) (pos 50) ≡ none)
    ↔ Fault controller (pixel_to_cell (pos 250) (pos 50) 3 3) (some (at 1 1))
click-Fault_example = click-Fault controller (pos 250) (pos 50)

abbrev ann : User
ann = new_user (codes "a") (codes "pw")

abbrev bob : User
bob = new_user (codes "bo") (codes "pw")

abbrev two_users : Users
two_users = store_user (store_user (λ n. none) (codes "a") ann) (codes "bo") bob

abbrev ten_points : Rate
ten_points own other is_draw won = if won then own + 10 else own - 10

abbrev two_accounts : UserManager
two_accounts = record { users = two_users; file = none; listing = λ users. ann ∷ bob ∷ [] }

abbrev rated : UserManager
rated = update_elo_after_game ten_points two_accounts (codes "a") (codes "bo") false

update_elo_after_game_lem_example :
    (rated.users (codes "a") ≡ some (rerated ann 1210 1 0))
    × (rated.users (codes "bo") ≡ some (rerated bob 1190 0 1))
    × (rated.users [] ≡ two_users [])
    × (rated.file ≡ some (save (ann ∷ bob ∷ [])))
unfolding str_eq
update_elo_after_game_lem_example =
    update_elo_after_game_lem ten_points two_accounts (codes "a") (codes "bo") [] false ann bob refl
      refl (λ e. cc) (λ e. cc) (λ e. cc)

abbrev saved_accounts : UserManager
saved_accounts = record two_accounts { file = some (save (ann ∷ bob ∷ [])) }

authenticate_or_register_lem_example :
    (m' : UserManager) × (user : User) × (authenticate_or_register saved_accounts
        (codes "bo")
        (codes "new")
      ≡ some (m', user, true))
    × LoggedIn
        (stored (λ n. none) (ann ∷ bob ∷ []))
        (codes "bo")
        (codes "new")
        saved_accounts
        m'
        user
unfolding str_eq
authenticate_or_register_lem_example =
    authenticate_or_register_lem saved_accounts (ann ∷ bob ∷ []) (codes "bo") (codes "new") refl
      ((refl, refl, refl, refl, refl, refl), ((refl, refl, refl, refl, refl, refl), refl))

abbrev left_by_ann : Room
left_by_ann = leave_room client 10 (codes "a") 5000 room

abbrev back_again : Room
back_again = record left_by_ann { is_disconnected = false; disconnected_username = [] }

abbrev arena : Room
arena = new_room (codes "RM-" ++ to_string (pos 1002)) (codes "Arena") 0

create_room_found_example :
    (find_room (has_name_or_id (codes "Arena")) (create_room server 10 (codes "Arena")).rooms
      ≡ some arena)
    × (find_last_room (has_name_or_id (codes "Arena")) (create_room server 10 (codes "Arena")).rooms
        ≡ some arena)
unfolding find_client
create_room_found_example = create_room_found server 10 (codes "Arena") 0 refl

settle_room-settle_room_example :
    (find_room (has_id (codes "RM-1001")) (settle_room ten_points server room).rooms ≡ some room)
    × (settle_room ten_points (settle_room ten_points server room) room
        ≡ settle_room ten_points server room)
unfolding find_room str_eq
settle_room-settle_room_example = settle_room-settle_room ten_points server room refl

-- The player of the white pieces left 21 seconds ago.
abbrev deserted : Room
deserted = record room {
  white_player = none;
  is_disconnected = true;
  disconnected_username = codes "ann";
  disconnect_start_time = 5000;
}

abbrev deserted_server : Server
deserted_server = record server { rooms = deserted ∷ [] }

room_round-forfeit_example :
    Has (room_round ten_points 26000 deserted_server deserted.id (some deserted)) deserted.id IsOver
    × ((room_round ten_points 26000 deserted_server deserted.id (some deserted)).users
        ≡ deserted_server.users)
unfolding find_room str_eq
room_round-forfeit_example =
    room_round-forfeit ten_points 26000 deserted_server deserted refl
      (record { empty = inl refl; away = refl; since = omega arith })
