-- ===== src/Server.antt =====
-- include/network/socket_server.h: the state of the server. `ClientInfo` objects are shared between
-- the list of clients and the rooms, so they stand in a store. A connection is a number; what is
-- sent and what is logged is recorded. The clock is an argument, in milliseconds.
pub mod Sessions
pub mod Lobby
pub mod Play
pub mod Matchmaking
pub mod Loop
pub mod State
pub mod Commands
use ctd_project.Base.{
  ℕ, ◌-◌, ◌/◌, Bool, true, false, Option, none, some, List, [], ◌∷◌, ◌++◌, ◌==◌, if◌then◌else◌, ℤ,
  pos, Str, codes, str_eq,
}
use ctd_project.MessageBus.{Event, score, log, sound, status}
use ctd_project.Engine.{GameEngine}
use ctd_project.Users.Manager.{UserManager}

-- The values of the field `color`: "WHITE", "BLACK", "VIEWER".
pub data Seat : Type 0 where
  white_seat black_seat viewer : Seat

abbrev pub seat_text : Seat → Str
seat_text white_seat = codes "WHITE"
seat_text black_seat = codes "BLACK"
seat_text viewer = codes "VIEWER"

abbrev pub Hdl : Type 0
Hdl = ℕ

pub record ClientInfo : Type 0 where
  pub hdl : Hdl
  pub color : Seat
  pub username : Str
  pub elo : ℕ
  pub is_searching : Bool
  pub search_start_time : ℕ
  pub in_game : Bool
  pub room_id : Str
  pub is_viewer : Bool
  pub last_seq : ℤ

-- The default member initialisers.
abbrev pub new_client : Hdl → ClientInfo
new_client hdl = record {
  hdl = hdl;
  color = viewer;
  username = codes "Guest";
  elo = 1200;
  is_searching = false;
  search_start_time = 0;
  in_game = false;
  room_id = [];
  is_viewer = false;
  last_seq = pos 0;
}

-- A `shared_ptr<ClientInfo>`.
abbrev pub ClientRef : Type 0
ClientRef = ℕ

-- `board` is the board of `game_engine`.
pub record Room : Type 0 where
  pub id : Str
  pub name : Str
  pub white_player : Option ClientRef
  pub black_player : Option ClientRef
  pub viewers : List ClientRef
  pub game_engine : GameEngine
  pub elo_updated : Bool
  pub pending_sounds : List Str
  pub is_disconnected : Bool
  pub disconnected_username : Str
  pub disconnect_start_time : ℕ

-- What the server sends: a text, or the state of a room, or of the game without a room, with some
-- sounds.
pub data Message : Type 0 where
  text : Str → Message
  room_state : Room → List Str → Message
  game_state : GameEngine → List Str → Message

pub record Server : Type 0 where
  pub info : ClientRef → ClientInfo
  pub next_client : ClientRef
  pub clients : List ClientRef
  pub rooms : List Room
  pub room_counter : ℕ
  pub game_engine : GameEngine
  pub elo_updated_for_game : Bool
  pub pending_sounds : List Str
  pub users : UserManager
  pub sent : List (Hdl × Message)

-- `std::string::empty`
abbrev pub is_empty : Str → Bool
is_empty [] = true
is_empty (a ∷ s) = false

-- `is_same_connection`
abbrev pub is_same_connection : Hdl → Hdl → Bool
is_same_connection h1 h2 = h1 == h2

abbrev pub send : Server → Hdl → Str → Server
send s h t = record s { sent = s.sent ++ (h, text t) ∷ [] }

abbrev pub set_info : Server → ClientRef → ClientInfo → Server
set_info s c i = record s { info = λ d. if d == c then i else s.info d }

-- The loops over the clients that stop at the one with the connection.
unfoldable pub find_client : (ClientRef → ClientInfo) → Hdl → List ClientRef → Option ClientRef
find_client info h [] = none
find_client info h (c ∷ cs) =
    if is_same_connection (info c).hdl h then some c else find_client info h cs

-- `m_clients.erase(it)` at the same client.
unfoldable pub erase_client : (ClientRef → ClientInfo) → Hdl → List ClientRef → List ClientRef
erase_client info h [] = []
erase_client info h (c ∷ cs) =
    if is_same_connection (info c).hdl h then cs else c ∷ erase_client info h cs

-- The loops over the rooms that stop at the first that passes a test.
unfoldable pub find_room : (Room → Bool) → List Room → Option Room
find_room test [] = none
find_room test (r ∷ rs) = if test r then some r else find_room test rs

unfoldable pub update_room : (Room → Bool) → (Room → Room) → List Room → List Room
update_room test f [] = []
update_room test f (r ∷ rs) = if test r then f r ∷ rs else r ∷ update_room test f rs

abbrev pub has_id : Str → Room → Bool
has_id id r = str_eq r.id id

-- The sounds that an engine has published during a call.
unfoldable pub sounds_of : List Event → List Str
sounds_of [] = []
sounds_of (sound name ∷ es) = name ∷ sounds_of es
sounds_of (score c n ∷ es) = sounds_of es
sounds_of (log t ∷ es) = sounds_of es
sounds_of (status t ∷ es) = sounds_of es

-- An engine that has published nothing yet.
abbrev pub quiet : GameEngine → GameEngine
quiet g = record g { world = record (g.world) { events = [] } }

-- Whole seconds between two times.
abbrev pub elapsed_sec : ℕ → ℕ → ℕ
elapsed_sec start now = (now - start) / 1000
