-- ===== src/Engine.antt =====
-- include/engine/game_engine.h and src/engine/game_engine.cpp: the requests of the players and the
-- clock. The engine's state, its board and its pieces are one `World`.
pub mod Safety
pub mod Requests
use ctd_project.Base.{
  ℕ, ◌*◌, Bool, true, false, ◌||◌, Option, none, some, List, [], ◌∷◌, if◌then◌else◌, codes,
}
use ctd_project.Piece.{Position, Ref, Heap}
use ctd_project.Board.{Board, get_piece_at}
use ctd_project.MessageBus.{sound}
use ctd_project.Motion.{RealTimeArbiter, new_arbiter}
use ctd_project.GameState.{World, emit, new_game_state, is_game_over, check_game_status}
use ctd_project.Rules.{validate_move, distance}
use ctd_project.Arbiter.{
  start_motion, start_jump, advance_time, is_piece_moving, is_piece_cooling_down,
}

pub record GameEngine : Type 0 where
  pub world : World
  pub arbiter : RealTimeArbiter

abbrev pub base_move_time_ms : ℕ
base_move_time_ms = 500

-- The constructor.
pub new_engine : Heap → Board → GameEngine
new_engine h b = record {
  world = record { heap = h; board = b; game = new_game_state h b; events = [] };
  arbiter = new_arbiter;
}

illegal : GameEngine → GameEngine
illegal g = record g { world = emit g.world (sound (codes "illegal_move")) }

-- `piece` is moving or cooling down.
unfoldable pub is_busy : GameEngine → Option Ref → Bool
is_busy g piece =
    is_piece_moving g.world.heap g.arbiter piece
    || is_piece_cooling_down g.world.heap g.arbiter piece

begin_move : GameEngine → Ref → Position → Position → GameEngine
begin_move g r src dest =
    let (w, a) =
      start_motion g.world g.arbiter (some r) src dest (distance src dest * base_move_time_ms)
        true in
    record { world = w; arbiter = a }

-- The verdict of the rules; without one, `validate_move` would not have returned.
on_verdict : GameEngine → Ref → Position → Position → Option Bool → GameEngine
unfolding begin_move illegal
on_verdict g r src dest none = g
on_verdict g r src dest (some false) = illegal g
on_verdict g r src dest (some true) = begin_move g r src dest

move_piece_of : GameEngine → Position → Position → Option Ref → GameEngine
unfolding on_verdict illegal
move_piece_of g src dest none = illegal g
move_piece_of g src dest (some r) =
    if is_busy g (some r)
    then illegal g
    else on_verdict g r src dest (validate_move g.world.heap g.world.board src dest)

pub request_move : GameEngine → Position → Position → GameEngine
unfolding move_piece_of
request_move g src dest =
    if is_game_over g.world then g else move_piece_of g src dest (get_piece_at g.world.board src)

jump_piece_of : GameEngine → Position → Option Ref → GameEngine
jump_piece_of g spot none = g
jump_piece_of g spot (some r) =
    let (w, a) = start_jump g.world g.arbiter (some r) spot 1000 in
    if is_busy g (some r) then g else record { world = w; arbiter = a }

pub request_jump : GameEngine → Position → GameEngine
unfolding jump_piece_of
request_jump g spot =
    if is_game_over g.world then g else jump_piece_of g spot (get_piece_at g.world.board spot)

pub update : GameEngine → ℕ → GameEngine
update g ms =
    let (w, a) = advance_time ms true g.world g.arbiter in
    record { world = check_game_status w a; arbiter = a }

-- What the players and the clock ask of the engine.
pub data Request : Type 0 where
  move : Position → Position → Request
  jump : Position → Request
  elapse : ℕ → Request

pub serve : GameEngine → Request → GameEngine
serve g (move src dest) = request_move g src dest
serve g (jump spot) = request_jump g spot
serve g (elapse ms) = update g ms

pub play : GameEngine → List Request → GameEngine
play g [] = g
play g (q ∷ qs) = play (serve g q) qs
