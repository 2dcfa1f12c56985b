-- ===== src/Server/Lobby.antt =====
-- src/network/socket_server.cpp: the branches FIND_MATCH, CANCEL_MATCH, CREATE_ROOM and JOIN_ROOM of
-- `on_message`. The time that a session lives in the store of sessions is not part of the model.
pub mod Rooms
use ctd_project.Base.{
  ℕ, suc, Bool, true, false, not, ◌||◌, Option, none, some, List, [], ◌∷◌, ◌++◌, pos, if◌then◌else◌,
  is_some, Str, codes, str_eq, to_string,
}
use ctd_project.BoardFactory.{create_default_board}
use ctd_project.Engine.{new_engine}
use ctd_project.Server.{
  Server, Room, ClientInfo, ClientRef, Hdl, white_seat, black_seat, viewer, set_info, send,
  find_client,
}

-- The loops that change the client with the connection.
unfoldable pub on_client : (Server → ClientRef → Server) → Server → Option ClientRef → Server
on_client f s none = s
on_client f s (some c) = f s c

-- FIND_MATCH
unfoldable pub find_match : Server → Hdl → ℕ → Server
find_match s hdl now =
    let search : Server → ClientRef → Server = λ s c.
      let i = record (s.info c) { is_searching = true; search_start_time = now; in_game = false } in
      send (set_info s c i) hdl (codes "SEARCHING") in
    on_client search s (find_client s.info hdl s.clients)

-- CANCEL_MATCH
unfoldable pub cancel_match : Server → Hdl → Server
cancel_match s hdl =
    let cancel : Server → ClientRef → Server = λ s c.
      let i = record (s.info c) { is_searching = false } in
      send (set_info s c i) hdl (codes "SEARCH_CANCELLED") in
    on_client cancel s (find_client s.info hdl s.clients)

abbrev pub has_name_or_id : Str → Room → Bool
has_name_or_id name r = str_eq r.name name || str_eq r.id name

-- `std::remove_if`
unfoldable pub erase_rooms : (Room → Bool) → List Room → List Room
erase_rooms test [] = []
erase_rooms test (r ∷ rs) = if test r then erase_rooms test rs else r ∷ erase_rooms test rs

abbrev pub or_default : Str → Str
or_default [] = codes "Battle Room"
or_default (a ∷ name) = a ∷ name

-- The room that a player has just created; the static counter starts at 1000.
abbrev pub new_room : Str → Str → ClientRef → Room
new_room id name c =
    let (h, b) = create_default_board in
    record {
      id = id;
      name = name;
      white_player = some c;
      black_player = none;
      viewers = [];
      game_engine = new_engine h b;
      elo_updated = false;
      pending_sounds = [];
      is_disconnected = false;
      disconnected_username = [];
      disconnect_start_time = 0;
    }

open_room : Str → Hdl → Server → ClientRef → Server
open_room name hdl s c =
    let n = suc s.room_counter in
    let id = codes "RM-" ++ to_string (pos n) in
    let i = record (s.info c) {
      room_id = id;
      color = white_seat;
      in_game = false;
      is_viewer = false;
      is_searching = false;
    } in
    let s1 : Server = record (set_info s c i) {
      rooms = erase_rooms (has_name_or_id name) s.rooms ++ new_room id name c ∷ [];
      room_counter = n;
    } in
    send s1 hdl (codes "ROOM_CREATED " ++ id ++ codes " " ++ name ++ codes " WHITE")

-- CREATE_ROOM, with the rest of the line as the name.
unfoldable pub create_room : Server → Hdl → Str → Server
unfolding open_room
create_room s hdl room_name =
    on_client (open_room (or_default room_name) hdl) s (find_client s.info hdl s.clients)

-- The loop from the last room to the first that stops at the first that passes a test.
unfoldable pub find_last_room : (Room → Bool) → List Room → Option Room
find_last_room test [] = none
find_last_room test (r ∷ rs) = elim (find_last_room test rs) [
  | some q ↦ some q
  | none ↦ if test r then some r else none
]

unfoldable pub update_last_room : (Room → Bool) → (Room → Room) → List Room → List Room
update_last_room test f [] = []
update_last_room test f (r ∷ rs) =
    if is_some (find_last_room test rs) || not (test r)
    then r ∷ update_last_room test f rs
    else f r ∷ rs

start_game : Server → Option ClientRef → Server
start_game s none = s
start_game s (some w) = set_info s w (record (s.info w) { in_game = true })

players_text : Option ClientInfo → ClientInfo → Str
players_text none b = codes "WHITE 1200 " ++ b.username ++ codes " " ++ to_string (pos b.elo)
players_text (some w) b =
    w.username
    ++ codes " "
    ++ to_string (pos w.elo)
    ++ codes " "
    ++ b.username
    ++ codes " "
    ++ to_string (pos b.elo)

tell_white : Server → Option ClientRef → ClientInfo → Server
unfolding players_text
tell_white s none b = s
tell_white s (some w) b =
    let i = s.info w in send s i.hdl (codes "MATCH_FOUND WHITE " ++ players_text (some i) b)

info_of : Server → Option ClientRef → Option ClientInfo
info_of s none = none
info_of s (some w) = some (s.info w)

join_as_black : Str → Hdl → Server → ClientRef → Room → Server
unfolding start_game tell_white players_text info_of
join_as_black id hdl s c r =
    let s1 : Server = record s {
      rooms =
          update_last_room (has_name_or_id id) (λ r. record r { black_player = some c }) s.rooms;
    } in
    let s2 =
      set_info s1 c (record (s1.info c) { room_id = r.id; color = black_seat; in_game = true }) in
    let s3 = start_game s2 r.white_player in
    let s4 = set_info s3 c (record (s3.info c) { is_viewer = false; is_searching = false }) in
    let s5 = send s4 hdl (codes "ROOM_JOINED " ++ r.id ++ codes " " ++ r.name ++ codes " BLACK") in
    let s6 = tell_white s5 r.white_player (s5.info c) in
    send s6 hdl (codes "MATCH_FOUND BLACK " ++ players_text (info_of s6 r.white_player) (s6.info c))

join_as_viewer : Str → Hdl → Server → ClientRef → Room → Server
join_as_viewer id hdl s c r =
    let i = record (s.info c) {
      room_id = r.id;
      color = viewer;
      is_viewer = true;
      in_game = true;
    } in
    let s1 : Server = record (set_info s c i) {
      rooms =
          update_last_room (has_name_or_id id) (λ r. record r { viewers = r.viewers ++ c ∷ [] })
            s.rooms;
    } in
    send s1 hdl (codes "ROOM_JOINED " ++ r.id ++ codes " " ++ r.name ++ codes " VIEWER")

join_found : Str → Hdl → ClientRef → Server → Option Room → Server
unfolding join_as_black join_as_viewer
join_found id hdl c s none = send s hdl (codes "ROOM_ERROR Room_Not_Found")
join_found id hdl c s (some r) =
    if is_some r.black_player then join_as_viewer id hdl s c r else join_as_black id hdl s c r

-- JOIN_ROOM
unfoldable pub join_room : Server → Hdl → Str → Server
unfolding join_found
join_room s hdl id =
    on_client (λ s c. join_found id hdl c s (find_last_room (has_name_or_id id) s.rooms)) s
      (find_client s.info hdl s.clients)
