-- ===== src/GameState.antt =====
-- include/model/game_state.h and src/model/game_state.cpp. The board that a game state points to,
-- the pieces and the events published so far stand beside it in a `World`.
pub mod Kings
use ctd_project.Base.{
  ℕ, zero, suc, ◌+◌, Bool, true, false, not, ◌&&◌, ◌||◌, Option, none, some, List, [], ◌∷◌, ◌++◌,
  ltb, ◌==◌, if◌then◌else◌, pos, codes,
}
use ctd_project.Piece.{
  Position, position, PieceColor, white, black, color_eq, is_king, is_captured, Ref, Heap,
}
use ctd_project.Board.{Board, get_piece_at}
use ctd_project.MessageBus.{Event, score, sound, status}
use ctd_project.Motion.{Motion, Jump, RealTimeArbiter}

pub record GameState : Type 0 where
  pub game_over_flag : Bool
  pub initial_w_kings : ℕ
  pub initial_b_kings : ℕ
  pub white_score : ℕ
  pub black_score : ℕ

pub record World : Type 0 where
  pub heap : Heap
  pub board : Board
  pub game : GameState
  pub events : List Event

-- `MessageBus::get_instance().publish`
abbrev pub emit : World → Event → World
emit w e = record w { events = w.events ++ e ∷ [] }

-- The cells that the loops over rows and columns visit, in order.
row_cells : ℕ → ℕ → ℕ → List Position
row_cells r c zero = []
row_cells r c (suc n) = position (pos r) (pos c) ∷ row_cells r (c + 1) n

cells_from : ℕ → ℕ → ℕ → List Position
cells_from w r zero = []
cells_from w r (suc n) = row_cells r 0 w ++ cells_from w (r + 1) n

unfoldable pub board_cells : Board → List Position
unfolding row_cells cells_from
board_cells b = cells_from b.width 0 b.height

-- `piece && piece->kind == PieceKind::KING`, of the given color
pub is_king_of : Heap → PieceColor → Option Ref → Bool
is_king_of h c none = false
is_king_of h c (some r) = is_king (h.piece r).kind && color_eq (h.piece r).color c

count_if : Bool → ℕ → ℕ
count_if true n = suc n
count_if false n = n

pub count_kings_at : Heap → Board → PieceColor → List Position → ℕ
unfolding count_if
count_kings_at h b c [] = 0
count_kings_at h b c (p ∷ ps) =
    count_if (is_king_of h c (get_piece_at b p)) (count_kings_at h b c ps)

-- The constructor counts the kings on the board.
unfoldable pub new_game_state : Heap → Board → GameState
new_game_state h b = record {
  game_over_flag = false;
  initial_w_kings = count_kings_at h b white (board_cells b);
  initial_b_kings = count_kings_at h b black (board_cells b);
  white_score = 0;
  black_score = 0;
}

-- A king under way or in the air counts unless it is captured.
unfoldable pub is_live_king : Heap → PieceColor → Option Ref → Bool
is_live_king h c none = false
is_live_king h c (some r) = is_king_of h c (some r) && not (is_captured (h.piece r).state)

pub count_motion_kings : Heap → PieceColor → List Motion → ℕ
unfolding count_if
count_motion_kings h c [] = 0
count_motion_kings h c (m ∷ ms) = count_if (is_live_king h c m.piece) (count_motion_kings h c ms)

pub count_jump_kings : Heap → PieceColor → List Jump → ℕ
unfolding count_if
count_jump_kings h c [] = 0
count_jump_kings h c (j ∷ js) = count_if (is_live_king h c j.piece) (count_jump_kings h c js)

pub count_kings : World → RealTimeArbiter → PieceColor → ℕ
count_kings w a c =
    count_kings_at w.heap w.board c (board_cells w.board)
    + count_motion_kings w.heap c a.active_motions
    + count_jump_kings w.heap c a.active_jumps

abbrev pub is_game_over : World → Bool
is_game_over w = w.game.game_over_flag

unfoldable pub set_game_over : World → Bool → World
set_game_over w state = record w { game = record (w.game) { game_over_flag = state } }

unfoldable pub check_game_status : World → RealTimeArbiter → World
unfolding set_game_over
check_game_status w a =
    let white_lost = ltb 0 w.game.initial_w_kings && (count_kings w a white == 0) in
    let black_lost = ltb 0 w.game.initial_b_kings && (count_kings w a black == 0) in
    if is_game_over w
    then w
    else if white_lost || black_lost
    then emit (emit (set_game_over w true) (status (codes "game_over"))) (sound (codes "game_win"))
    else w

unfoldable pub set_white_score : World → ℕ → World
set_white_score w n =
    emit (record w { game = record (w.game) { white_score = n } }) (score (codes "WHITE") n)

unfoldable pub set_black_score : World → ℕ → World
set_black_score w n =
    emit (record w { game = record (w.game) { black_score = n } }) (score (codes "BLACK") n)

unfoldable pub add_to_white_score : World → ℕ → World
add_to_white_score w pts =
    let n = w.game.white_score + pts in
    emit (record w { game = record (w.game) { white_score = n } }) (score (codes "WHITE") n)

unfoldable pub add_to_black_score : World → ℕ → World
add_to_black_score w pts =
    let n = w.game.black_score + pts in
    emit (record w { game = record (w.game) { black_score = n } }) (score (codes "BLACK") n)
