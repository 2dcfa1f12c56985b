-- ===== src/Client.antt =====
-- include/network/socket_client.h: the state of a client. What it sends is recorded. The connection,
-- the thread that receives, and the lock around every operation are not modelled: the operations are
-- the steps.
pub mod Reading
pub mod Merging
pub mod Animations
pub mod Updating
pub mod Messages
pub mod Spans
pub mod Arrays
pub mod FromServer
pub mod RoomFields
pub mod ObjectFields
pub mod FlightFields
use ctd_project.Base.{
  ℕ, zero, Bool, true, false, not, ◌&&◌, ◌||◌, Option, none, some, List, [], ◌∷◌, ◌++◌,
  if◌then◌else◌, ℤ, pos, negsuc, Str, codes, str_eq,
}
use ctd_project.Piece.{Piece, Heap, new_piece, white, pawn, position}
use ctd_project.Board.{new_board}
use ctd_project.Motion.{RealTimeArbiter, new_arbiter}
use ctd_project.GameState.{World, new_game_state}
use ctd_project.Server.{is_empty}

pub data MatchState : Type 0 where
  idle searching matched timeout : MatchState

-- `board` and `game_state` stand in the world, with the pieces and what is published.
pub record Client : Type 0 where
  pub world : World
  pub arbiter : RealTimeArbiter
  pub assigned_color : Str
  pub username : Str
  pub elo : ℤ
  pub logged_in : Bool
  pub white_user : Str
  pub white_elo : ℤ
  pub black_user : Str
  pub black_elo : ℤ
  pub match_state : MatchState
  pub popup_msg : Str
  pub show_popup : Bool
  pub room_id : Str
  pub room_name : Str
  pub is_viewer : Bool
  pub seq_counter : ℕ
  pub server_game_over : Bool
  pub delayed_sounds : List Str
  pub disconnect_user : Str
  pub disconnect_countdown : ℤ
  pub state_updated : Bool
  pub sent : List Str

-- The constructor and the default member initialisers, on a heap of pieces.
abbrev pub new_client : Heap → Client
new_client h = record {
  world = record {
    heap = h;
    board = new_board 8 8;
    game = new_game_state h (new_board 8 8);
    events = [];
  };
  arbiter = new_arbiter;
  assigned_color = codes "VIEWER";
  username = codes "Guest";
  elo = pos 1200;
  logged_in = false;
  white_user = codes "WHITE";
  white_elo = pos 1200;
  black_user = codes "BLACK";
  black_elo = pos 1200;
  match_state = idle;
  popup_msg = [];
  show_popup = false;
  room_id = [];
  room_name = [];
  is_viewer = false;
  seq_counter = 0;
  server_game_over = false;
  delayed_sounds = [];
  disconnect_user = [];
  disconnect_countdown = pos 0;
  state_updated = false;
  sent = [];
}

-- `z > 0`
abbrev pub is_positive : ℤ → Bool
is_positive (pos zero) = false
is_positive (pos n) = true
is_positive (negsuc n) = false

-- The name shown for a colour: the player's own name while the server has not named another.
shown_name : Client → (user color placeholder : Str) → Str
shown_name c user color placeholder =
    let unknown = is_empty user || (str_eq user placeholder || str_eq user (codes "Guest")) in
    if unknown && (str_eq c.assigned_color color && not (is_empty c.username))
    then c.username
    else if is_empty user
    then placeholder
    else user

unfoldable pub get_white_username : Client → Str
unfolding shown_name
get_white_username c = shown_name c c.white_user (codes "WHITE") (codes "White")

unfoldable pub get_black_username : Client → Str
unfolding shown_name
get_black_username c = shown_name c c.black_user (codes "BLACK") (codes "Black")

unfoldable pub get_white_elo : Client → ℤ
get_white_elo c = if is_positive c.white_elo then c.white_elo else pos 1200

unfoldable pub get_black_elo : Client → ℤ
get_black_elo c = if is_positive c.black_elo then c.black_elo else pos 1200

unfoldable pub dismiss_popup : Client → Client
dismiss_popup c = record c { show_popup = false; match_state = idle }

-- The result of `wait_for_update` when the wait is over.
unfoldable pub wait_for_update : Client → Client × Bool
wait_for_update c = (record c { state_updated = false }, c.state_updated)
