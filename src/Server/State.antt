-- ===== src/Server/State.antt =====
-- src/network/socket_server.cpp: `serialize_room_state` and `serialize_game_state`, the texts that
-- stand for the messages of a state.
use ctd_project.Base.{
  ℕ, ◌-◌, Bool, false, ◌||◌, Option, none, some, List, [], ◌∷◌, ◌++◌, ◌==◌, if◌then◌else◌, map, ℤ,
  pos, Str, codes, is_some,
}
use ctd_project.Piece.{
  Position, PieceColor, white, black, PieceKind, king, queen, rook, bishop, knight, pawn,
  PieceState, idle, moving, captured, Ref, Heap,
}
use ctd_project.Board.{Board, get_piece_at}
use ctd_project.Motion.{Motion, Jump, RealTimeArbiter}
use ctd_project.GameState.{World, board_cells}
use ctd_project.Arbiter.{
  is_piece_cooling_down, get_piece_cooldown_remaining_ms, get_piece_cooldown_total_ms,
  is_piece_on_long_rest,
}
use ctd_project.Engine.{GameEngine}
use ctd_project.Server.{
  Server, Room, ClientInfo, ClientRef, Seat, white_seat, black_seat, elapsed_sec, Message, text,
  room_state, game_state,
}
use ctd_project.Server.Loop.{is_seat}
use ctd_project.Json.{
  Field, string_field, int_field, bool_field, fields_text, object_text, array_text, quoted,
}

-- `static_cast<int>` of the enumerations.
abbrev pub kind_int : PieceKind → ℕ
kind_int king = 0
kind_int queen = 1
kind_int rook = 2
kind_int bishop = 3
kind_int knight = 4
kind_int pawn = 5

abbrev pub color_int : PieceColor → ℕ
color_int white = 0
color_int black = 1

abbrev pub state_int : PieceState → ℕ
state_int idle = 0
state_int moving = 1
state_int captured = 2

-- `SerializedPiece`
pub record SerializedPiece : Type 0 where
  pub piece : Ref
  pub row : ℤ
  pub col : ℤ

placed_at : Option Ref → Position → List SerializedPiece → List SerializedPiece
placed_at none p rest = rest
placed_at (some r) p rest = record { piece = r; row = p.row; col = p.col } ∷ rest

on_cells : Board → List Position → List SerializedPiece
unfolding placed_at
on_cells b [] = []
on_cells b (p ∷ ps) = placed_at (get_piece_at b p) p (on_cells b ps)

exists : Ref → List SerializedPiece → Bool
exists r [] = false
exists r (sp ∷ sps) = (sp.piece == r) || exists r sps

-- A piece that is not there yet is added behind the others.
push_back : Option Ref → Position → List SerializedPiece → List SerializedPiece
unfolding exists
push_back none p sps = sps
push_back (some r) p sps =
    if exists r sps then sps else sps ++ record { piece = r; row = p.row; col = p.col } ∷ []

push_motions : List Motion → List SerializedPiece → List SerializedPiece
unfolding push_back
push_motions [] sps = sps
push_motions (m ∷ ms) sps = push_motions ms (push_back m.piece m.source sps)

push_jumps : List Jump → List SerializedPiece → List SerializedPiece
unfolding push_back
push_jumps [] sps = sps
push_jumps (j ∷ js) sps = push_jumps js (push_back j.piece j.spot sps)

-- The pieces on the board, row by row, then those under way, then those in the air.
unfoldable pub pieces_to_serialize : World → RealTimeArbiter → List SerializedPiece
unfolding on_cells push_motions push_jumps
pieces_to_serialize w a =
    push_jumps a.active_jumps
      (push_motions a.active_motions (on_cells w.board (board_cells w.board)))

abbrev pub piece_fields : Heap → RealTimeArbiter → SerializedPiece → List Field
piece_fields h a sp =
    let p = h.piece sp.piece in
    string_field (codes "id") p.id
    ∷ int_field (codes "kind") (pos (kind_int p.kind))
    ∷ int_field (codes "color") (pos (color_int p.color))
    ∷ int_field (codes "row") sp.row
    ∷ int_field (codes "col") sp.col
    ∷ int_field (codes "state") (pos (state_int p.state))
    ∷ bool_field (codes "on_cooldown") (is_piece_cooling_down h a (some sp.piece))
    ∷ int_field (codes "cooldown_remaining")
        (pos (get_piece_cooldown_remaining_ms h a (some sp.piece)))
    ∷ int_field (codes "cooldown_total") (pos (get_piece_cooldown_total_ms h a (some sp.piece)))
    ∷ []

unfoldable pub piece_text : Heap → RealTimeArbiter → SerializedPiece → Str
piece_text h a sp =
    object_text (piece_fields h a sp)
      (bool_field (codes "is_long_rest") (is_piece_on_long_rest h a (some sp.piece)))

-- `p ? p->id : ""`
abbrev pub id_or_empty : Heap → Option Ref → Str
id_or_empty h none = []
id_or_empty h (some r) = (h.piece r).id

unfoldable pub motion_text : Heap → Motion → Str
motion_text h m =
    object_text
      (string_field (codes "piece_id") (id_or_empty h m.piece)
        ∷ int_field (codes "src_row") m.source.row
        ∷ int_field (codes "src_col") m.source.col
        ∷ int_field (codes "dest_row") m.dest.row
        ∷ int_field (codes "dest_col") m.dest.col
        ∷ int_field (codes "total_ms") (pos m.total_ms)
        ∷ int_field (codes "remaining_ms") (pos m.remaining_ms)
        ∷ [])
      (string_field (codes "victim_id") (id_or_empty h m.captured_piece))

unfoldable pub jump_text : Heap → Jump → Str
jump_text h j =
    object_text
      (string_field (codes "piece_id") (id_or_empty h j.piece)
        ∷ int_field (codes "row") j.spot.row
        ∷ int_field (codes "col") j.spot.col
        ∷ int_field (codes "total_ms") (pos j.total_ms)
        ∷ [])
      (int_field (codes "remaining_ms") (pos j.remaining_ms))

-- `if (!m.piece) continue;`
unfoldable pub motions_with_piece : List Motion → List Motion
motions_with_piece [] = []
motions_with_piece (m ∷ ms) =
    if is_some m.piece then m ∷ motions_with_piece ms else motions_with_piece ms

unfoldable pub jumps_with_piece : List Jump → List Jump
jumps_with_piece [] = []
jumps_with_piece (j ∷ js) = if is_some j.piece then j ∷ jumps_with_piece js else jumps_with_piece js

-- The arrays behind the fields, and the end.
abbrev pub arrays_text : List Str → List Str → List Str → List Str → Str
arrays_text sounds pieces motions jumps =
    array_text (codes "sounds") (map quoted sounds)
    ++ b','
      ∷ (array_text (codes "pieces") pieces
          ++ b','
            ∷ (array_text (codes "motions") motions
                ++ b',' ∷ (array_text (codes "jumps") jumps ++ b'}' ∷ [])))

-- A player's name and rating, with the values that stand for an empty seat.
abbrev pub name_or : (ClientRef → ClientInfo) → Str → Option ClientRef → Str
name_or info default none = default
name_or info default (some c) = (info c).username

abbrev pub elo_or : (ClientRef → ClientInfo) → Option ClientRef → ℕ
elo_or info none = 1200
elo_or info (some c) = (info c).elo

-- What is left of the 20 seconds.
unfoldable pub disconnect_countdown : ℕ → Room → ℕ
disconnect_countdown now r =
    if r.is_disconnected then 20 - elapsed_sec r.disconnect_start_time now else 0

abbrev pub disconnect_user : Room → Str
disconnect_user r = if r.is_disconnected then r.disconnected_username else []

abbrev pub game_fields : World → List Field
game_fields w =
    bool_field (codes "game_over") w.game.game_over_flag
    ∷ int_field (codes "white_score") (pos w.game.white_score)
    ∷ int_field (codes "black_score") (pos w.game.black_score)
    ∷ []

abbrev pub player_fields : Str → ℕ → Str → ℕ → List Field
player_fields w_user w_elo b_user b_elo =
    string_field (codes "white_user") w_user
    ∷ int_field (codes "white_elo") (pos w_elo)
    ∷ string_field (codes "black_user") b_user
    ∷ int_field (codes "black_elo") (pos b_elo)
    ∷ []

unfoldable pub room_fields : (ClientRef → ClientInfo) → ℕ → Room → List Field
room_fields info now r =
    game_fields r.game_engine.world
    ++ (player_fields (name_or info (codes "White") r.white_player) (elo_or info r.white_player)
          (name_or info (codes "Black") r.black_player) (elo_or info r.black_player)
        ++ (string_field (codes "room_id") r.id
            ∷ string_field (codes "room_name") r.name
            ∷ string_field (codes "disconnect_user") (disconnect_user r)
            ∷ int_field (codes "disconnect_countdown") (pos (disconnect_countdown now r))
            ∷ []))

-- The pieces, motions and jumps of a game. The pieces of motions and jumps in a room are not tested,
-- they are never null.
unfoldable pub engine_text : List Str → GameEngine → Str
unfolding motions_with_piece jumps_with_piece
engine_text sounds g =
    let w = g.world in
    let a = g.arbiter in
    arrays_text sounds (map (piece_text w.heap a) (pieces_to_serialize w a))
      (map (motion_text w.heap) (motions_with_piece a.active_motions))
      (map (jump_text w.heap) (jumps_with_piece a.active_jumps))

-- `sounds_override.empty() ? room->pending_sounds : sounds_override`
abbrev pub sounds_to_use : Room → List Str → List Str
sounds_to_use r [] = r.pending_sounds
sounds_to_use r (x ∷ xs) = x ∷ xs

unfoldable pub serialize_room_state : (ClientRef → ClientInfo) → ℕ → Room → List Str → Str
unfolding engine_text
serialize_room_state info now r sounds_override =
    b'{'
    ∷ (fields_text (room_fields info now r)
        ++ engine_text (sounds_to_use r sounds_override) r.game_engine)

-- The last client with the colour, whatever room it is in.
last_of_color :
    (ClientRef → ClientInfo) → Seat → List ClientRef → Option ClientRef → Option ClientRef
last_of_color info seat [] found = found
last_of_color info seat (c ∷ cs) found =
    last_of_color info seat cs (if is_seat (info c).color seat then some c else found)

unfoldable pub serialize_game_state : Server → GameEngine → List Str → Str
unfolding last_of_color engine_text
serialize_game_state s g sounds =
    let w_player = last_of_color s.info white_seat s.clients none in
    let b_player = last_of_color s.info black_seat s.clients none in
    let fields =
      game_fields g.world
      ++ player_fields (name_or s.info (codes "White") w_player) (elo_or s.info w_player)
          (name_or s.info (codes "Black") b_player) (elo_or s.info b_player) in
    b'{' ∷ (fields_text fields ++ engine_text sounds g)

-- What is sent for a message at the time `now`.
unfoldable pub message_text : Server → ℕ → Message → Str
message_text s now (text t) = t
message_text s now (room_state r sounds) = serialize_room_state s.info now r sounds
message_text s now (game_state g sounds) = serialize_game_state s g sounds
