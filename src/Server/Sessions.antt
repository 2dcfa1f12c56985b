-- ===== src/Server/Sessions.antt =====
-- src/network/socket_server.cpp: `on_open`, `on_close` and the branch LOGIN of `on_message`.
pub mod Leaving
use ctd_project.Base.{
  ℕ, suc, Bool, true, false, not, ◌&&◌, ◌||◌, Option, none, some, List, [], ◌∷◌, ◌++◌, ◌>>=◌, pos,
  if◌then◌else◌, is_some, Str, codes, str_eq, to_string,
}
use ctd_project.GameState.{is_game_over, set_game_over}
use ctd_project.Engine.{GameEngine}
use ctd_project.Users.{User}
use ctd_project.Users.Manager.{UserManager, authenticate_or_register}
use ctd_project.Server.{
  Server, Room, ClientInfo, ClientRef, Hdl, Seat, white_seat, black_seat, viewer, seat_text,
  new_client, set_info, send, is_same_connection, find_client, erase_client, find_room, update_room,
  has_id, is_empty,
}

-- Spaces between the words of a reply.
words : List Str → Str
words [] = []
words (w ∷ ws) = codes " " ++ w ++ words ws

unfoldable pub on_open : Server → Hdl → Server
on_open s hdl =
    let c = s.next_client in
    let s' = record (set_info s c (new_client hdl)) {
      next_client = suc c;
      clients = s.clients ++ c ∷ [];
    } in
    send s' hdl (codes "COLOR " ++ seat_text viewer)

-- The player of a seat has the connection.
unfoldable pub is_seat_of : (ClientRef → ClientInfo) → Hdl → Option ClientRef → Bool
is_seat_of info hdl none = false
is_seat_of info hdl (some p) = is_same_connection (info p).hdl hdl

abbrev pub vacate : Bool → Option ClientRef → Option ClientRef
vacate leaves seat = if leaves then none else seat

abbrev pub end_engine : GameEngine → GameEngine
end_engine g = record g { world = set_game_over g.world true }

-- What a closed connection does to the room that its client is in.
unfoldable pub leave_room : (ClientRef → ClientInfo) → Hdl → Str → ℕ → Room → Room
leave_room info hdl username now r =
    let is_white = is_seat_of info hdl r.white_player in
    let is_black = is_seat_of info hdl r.black_player in
    let r' : Room = record r {
      white_player = vacate is_white r.white_player;
      black_player = vacate is_black r.black_player;
    } in
    if not (is_some r'.white_player || is_some r'.black_player)
    then record r' { game_engine = end_engine r.game_engine; is_disconnected = false }
    else if (is_white || is_black) && not (is_game_over r.game_engine.world)
    then record r' {
      is_disconnected = true;
      disconnected_username = username;
      disconnect_start_time = now;
    }
    else r'

close_client : Server → Hdl → ℕ → Option ClientRef → Server
close_client s hdl now none = s
close_client s hdl now (some c) =
    let i = s.info c in
    let rooms' =
      if is_empty i.room_id
      then s.rooms
      else update_room (has_id i.room_id) (leave_room s.info hdl i.username now) s.rooms in
    record s { rooms = rooms'; clients = erase_client s.info hdl s.clients }

unfoldable pub on_close : Server → Hdl → ℕ → Server
unfolding close_client
on_close s hdl now = close_client s hdl now (find_client s.info hdl s.clients)

-- The player of a seat has the name.
unfoldable pub is_named : (ClientRef → ClientInfo) → Str → Option ClientRef → Bool
is_named info name none = false
is_named info name (some p) = str_eq (info p).username name

-- The room that waits for the player `name`.
abbrev pub waits_for : Str → Room → Bool
waits_for name r = r.is_disconnected && str_eq r.disconnected_username name

-- The room with the client in the seat that has its name, and the colour of the client.
pub reseat : Server → ClientRef → Str → Room → Room × Seat
reseat s c name r =
    if is_named s.info name r.white_player
    then (record r { white_player = some c }, white_seat)
    else if is_named s.info name r.black_player
    then (record r { black_player = some c }, black_seat)
    else (r, (s.info c).color)

auth_ok : Str → User → Str
auth_ok color user =
    codes "AUTH_OK" ++ words (color ∷ user.username ∷ to_string (pos user.elo) ∷ [])

unfoldable pub rejoin : Server → Hdl → ClientRef → User → Room → Server
unfolding words auth_ok reseat is_named
rejoin s hdl c user r =
    let (r1, color) = reseat s c user.username r in
    let r2 : Room = record r1 { is_disconnected = false; disconnected_username = [] } in
    let s1 = set_info s c (record (s.info c) { color = color; room_id = r.id; in_game = true }) in
    let s2 : Server = record s1 {
      rooms = update_room (waits_for user.username) (λ _. r2) s1.rooms;
    } in
    let s3 = send s2 hdl (auth_ok (seat_text color) user) in
    send s3 hdl (codes "ROOM_JOINED" ++ words (r.id ∷ r.name ∷ seat_text color ∷ []))

greet : Server → Hdl → ClientRef → User → Server
unfolding words auth_ok
greet s hdl c user = send s hdl (auth_ok (seat_text (s.info c).color) user)

-- The first room that waits for the player, whether or not its game is over.
enter : Server → Hdl → ClientRef → User → Option Room → Server
unfolding rejoin greet
enter s hdl c user none = greet s hdl c user
enter s hdl c user (some r) =
    if is_game_over r.game_engine.world then greet s hdl c user else rejoin s hdl c user r

logged_in : Server → Hdl → User → Option ClientRef → Server
unfolding enter words auth_ok
logged_in s hdl user none = send s hdl (auth_ok (seat_text viewer) user)
logged_in s hdl user (some c) =
    let i = record (s.info c) { username = user.username; elo = user.elo } in
    enter (set_info s c i) hdl c user (find_room (waits_for user.username) s.rooms)

-- What is done with the answer of the `UserManager`.
authenticated : Server → Hdl → UserManager × User × Bool → Server
unfolding logged_in
authenticated s hdl (users', user, true) =
    logged_in (record s { users = users' }) hdl user (find_client s.info hdl s.clients)
authenticated s hdl (users', user, false) =
    send (record s { users = users' }) hdl (codes "AUTH_FAIL Incorrect_Password")

-- LOGIN. There is no result where the file of the accounts has a number that cannot be read.
unfoldable pub login : Server → Hdl → Str → Str → Option Server
unfolding authenticated
login s hdl user_name pass_word = do
  answer ← authenticate_or_register s.users user_name pass_word
  some (authenticated s hdl answer)
