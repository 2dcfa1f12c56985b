-- ===== src/Server/Loop.antt =====
-- src/network/socket_server.cpp: one round of `game_loop`, and `broadcast_state`. A message
-- carries the state and the sounds; Server/State has its text.
pub mod Once
pub mod Forfeits
use ctd_project.Base.{
  ℕ, Bool, true, false, not, ◌&&◌, Option, none, some, List, [], ◌∷◌, ◌++◌, map, if◌then◌else◌, Str,
  codes, str_eq, leb,
}
use ctd_project.GameState.{is_game_over, set_game_over}
use ctd_project.Engine.{GameEngine, update}
use ctd_project.Users.{Rate, get_user}
use ctd_project.Users.Manager.{update_elo_after_game}
use ctd_project.Server.{
  Server, Room, ClientInfo, ClientRef, Hdl, Seat, white_seat, black_seat, viewer, set_info, Message,
  game_state, find_room, update_room, has_id, quiet, is_empty, elapsed_sec,
}
use ctd_project.Server.Play.{broadcast_room_state, put_engine, white_won, is_winner_seat}
use ctd_project.Server.Matchmaking.{process_matchmaking}

abbrev pub is_seat : Seat → Seat → Bool
is_seat white_seat white_seat = true
is_seat black_seat black_seat = true
is_seat viewer viewer = true
is_seat _ _ = false

-- The last client without a room that has the colour.
unfoldable pub last_with : (ClientRef → ClientInfo) → Seat → List ClientRef → Option ClientRef
last_with info seat [] = none
last_with info seat (c ∷ cs) = elim (last_with info seat cs) [
  | some d ↦ some d
  | none ↦ if is_seat (info c).color seat && is_empty (info c).room_id then some c else none
]

-- The ratings of two clients are read anew.
refresh : Server → ClientRef → Server
refresh s c =
    set_info s c (record (s.info c) { elo = (get_user s.users.users (s.info c).username).elo })

-- The accounts of two players, and their ratings, after a game that `white` has won or lost.
unfoldable pub settle_game : Rate → Server → Bool → ClientRef → ClientRef → Server
unfolding refresh
settle_game rate s won white black =
    let w = (s.info white).username in
    let b = (s.info black).username in
    let users' =
      if won
      then update_elo_after_game rate s.users w b false
      else update_elo_after_game rate s.users b w false in
    refresh (refresh (record s { users = users' }) white) black

settle_seats : Rate → Server → Bool → Option ClientRef → Option ClientRef → Server
settle_seats rate s won (some white) (some black) = settle_game rate s won white black
settle_seats rate s won (some white) none = s
settle_seats rate s won none black = s

-- The first sound that ends a game is the other one for those who have not won.
unfoldable pub replace_first : List Str → List Str
replace_first [] = []
replace_first (x ∷ xs) =
    let rest = replace_first xs in
    if str_eq x (codes "game_win") then codes "game_over" ∷ xs else x ∷ rest

state_for : GameEngine → List Str → ClientInfo → Hdl × Message
state_for g sounds i =
    let w = g.world in
    let lost = is_game_over w && not (is_winner_seat i.color (white_won w)) in
    (i.hdl, game_state g (if lost then replace_first sounds else sounds))

send_to_lobby : Server → List Str → List ClientRef → Server
unfolding state_for
send_to_lobby s sounds [] = s
send_to_lobby s sounds (c ∷ cs) =
    let i = s.info c in
    let s' = record s { sent = s.sent ++ state_for s.game_engine sounds i ∷ [] } in
    send_to_lobby (if is_empty i.room_id then s' else s) sounds cs

unfoldable pub broadcast_state : Server → Server
unfolding send_to_lobby
broadcast_state s = send_to_lobby (record s { pending_sounds = [] }) s.pending_sounds s.clients

-- The part of the round for the game without a room.
unfoldable pub lobby_round : Rate → Server → Server
unfolding settle_seats
lobby_round rate s =
    let s1 = put_engine s [] (update (quiet s.game_engine) 30) in
    let w = s1.game_engine.world in
    let s2 : Server = record s1 { elo_updated_for_game = true } in
    let ended =
      settle_seats rate s2 (white_won w) (last_with s2.info white_seat s2.clients)
        (last_with s2.info black_seat s2.clients) in
    broadcast_state (if is_game_over w && not s1.elo_updated_for_game then ended else s1)

-- A player who has been away for 20 seconds loses the game.
unfoldable pub forfeit : ℕ → Room → Room
forfeit now r =
    let g = r.game_engine in
    let ended = record g { world = set_game_over g.world true } in
    if not (is_game_over g.world)
      && (r.is_disconnected && leb 20 (elapsed_sec r.disconnect_start_time now))
    then record r {
      game_engine = ended;
      pending_sounds = r.pending_sounds ++ codes "game_win" ∷ [];
    }
    else r

name_of : Server → Option ClientRef → Option Str
name_of s none = none
name_of s (some c) = some (s.info c).username

is_name : Str → Option Str → Bool
is_name n none = false
is_name n (some m) = str_eq n m

-- White has won by points, or because black has left.
room_won : Server → Room → Bool
unfolding name_of is_name
room_won s r =
    if r.is_disconnected
    then not (is_name r.disconnected_username (name_of s r.white_player))
    else white_won r.game_engine.world

-- The ratings change once for a room, when its game has ended.
unfoldable pub settle_room : Rate → Server → Room → Server
unfolding settle_seats room_won
settle_room rate s r =
    let s1 : Server = record s {
      rooms = update_room (has_id r.id) (λ q. record q { elo_updated = true }) s.rooms;
    } in
    if is_game_over r.game_engine.world && not r.elo_updated
    then settle_seats rate s1 (room_won s1 r) r.white_player r.black_player
    else s

broadcast_again : Server → Option Room → Server
broadcast_again s none = s
broadcast_again s (some r) = broadcast_room_state s r

after_update : Rate → ℕ → Server → Str → Option Room → Server
unfolding broadcast_again
after_update rate now s id none = s
after_update rate now s id (some r) =
    let s1 : Server = record s { rooms = update_room (has_id id) (forfeit now) s.rooms } in
    let s2 = settle_room rate s1 (forfeit now r) in
    broadcast_again s2 (find_room (has_id id) s2.rooms)

unfoldable pub room_round : Rate → ℕ → Server → Str → Option Room → Server
unfolding after_update
room_round rate now s id none = s
room_round rate now s id (some r) =
    let s1 = put_engine s id (update (quiet r.game_engine) 30) in
    after_update rate now s1 id (find_room (has_id id) s1.rooms)

-- The rooms in turn. They are told apart by their ids, which the counter makes different.
unfoldable pub rooms_round : Rate → ℕ → Server → List Str → Server
unfolding room_round
rooms_round rate now s [] = s
rooms_round rate now s (id ∷ ids) =
    rooms_round rate now (room_round rate now s id (find_room (has_id id) s.rooms)) ids

room_id_of : Room → Str
room_id_of r = r.id

-- One round of the loop, at the time `now`.
unfoldable pub game_round : Rate → Server → ℕ → Server
unfolding room_id_of
game_round rate s now =
    let s1 = lobby_round rate (process_matchmaking s now) in
    rooms_round rate now s1 (map room_id_of s1.rooms)
