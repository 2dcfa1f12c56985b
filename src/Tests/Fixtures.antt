-- ===== src/Tests/Fixtures.antt =====
-- Small positions that the examples share.
use ctd_project.Base.{ℕ, none, some, [], ◌∷◌, ◌==◌, if◌then◌else◌, false, pos, codes}
use ctd_project.Piece.{Position, position, new_piece, Heap, white, black, rook, king, pawn}
use ctd_project.Board.{Board}
use ctd_project.Motion.{Motion, Jump, Cooldown, RealTimeArbiter, new_arbiter}
use ctd_project.GameState.{GameState, World}
use ctd_project.Arrival.{Sweep}
use ctd_project.Engine.{GameEngine}

abbrev pub at : ℕ → ℕ → Position
at r c = position (pos r) (pos c)

-- A white rook, a black king and a white pawn.
abbrev pub three_pieces : Heap
three_pieces = record {
  next = 3;
  piece = λ r.
      if r == 0
      then new_piece (codes "wR") white rook (at 0 0)
      else if r == 1
      then new_piece (codes "bK") black king (at 0 2)
      else new_piece (codes "wP") white pawn (at 2 1);
}

-- The king and the pawn stand on it.
abbrev pub board_without_rook : Board
board_without_rook = record {
  width = 3;
  height = 3;
  grid = none ∷ none ∷ some 1 ∷ none ∷ none ∷ none ∷ none ∷ some 2 ∷ none ∷ [];
}

abbrev pub board_with_rook : Board
board_with_rook = record {
  width = 3;
  height = 3;
  grid = some 0 ∷ none ∷ some 1 ∷ none ∷ none ∷ none ∷ none ∷ some 2 ∷ none ∷ [];
}

abbrev pub kings_game : GameState
kings_game = record {
  game_over_flag = false;
  initial_w_kings = 0;
  initial_b_kings = 1;
  white_score = 0;
  black_score = 0;
}

abbrev pub world_on : Board → World
world_on b = record { heap = three_pieces; board = b; game = kings_game; events = [] }

abbrev pub sweep_on : Board → Sweep
sweep_on b = record { world = world_on b; cooldowns = []; handled_motions = []; handled_jumps = [] }

abbrev pub rook_to : Position → Motion
rook_to p = record {
  piece = some 0;
  source = at 0 0;
  dest = p;
  remaining_ms = 500;
  total_ms = 1000;
  captured_piece = none;
}

abbrev pub king_above : Position → Jump
king_above p = record { piece = some 1; spot = p; remaining_ms = 700; total_ms = 1000 }

abbrev pub king_in_air : Position → RealTimeArbiter
king_in_air p = record {
  active_motions = [];
  active_jumps = king_above p ∷ [];
  active_cooldowns = [];
}

abbrev pub rook_under_way : RealTimeArbiter
rook_under_way = record {
  active_motions = rook_to (at 0 2) ∷ [];
  active_jumps = [];
  active_cooldowns = [];
}

abbrev pub rook_rests : Cooldown
rook_rests = record { piece = some 0; remaining_ms = 3000; total_ms = 3000; is_long_rest = false }

abbrev pub duel : GameEngine
duel = record { world = world_on board_with_rook; arbiter = new_arbiter }
