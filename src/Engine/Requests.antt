-- ===== src/Engine/Requests.antt =====
-- What a request does, on every branch.
use ctd_project.Base.{◌*◌, ◌++◌, [], ◌∷◌, ◌≡◌, refl, true, false, some, codes, max, abs, ◌-ℤ◌}
use ctd_project.Piece.{Ref, Position}
use ctd_project.Board.{get_piece_at}
use ctd_project.MessageBus.{sound}
use ctd_project.GameState.{is_game_over}
use ctd_project.Rules.Geometry.{Allowed}
use ctd_project.Arbiter.Starting.{set_off, under_way, NoMotion, NoCooldown}
use ctd_project.Engine.{GameEngine, request_move, request_jump}

-- The requests that the engine grants: a piece of the board that is neither in a motion nor in a
-- cooldown, and a move that the rules allow.
pub record MayMove (g : GameEngine) (src dest : Position) (r : Ref) : Type 0 where
  pub there : get_piece_at g.world.board src ≡ some r
  pub still : NoMotion g.world.heap r g.arbiter.active_motions
  pub rested : NoCooldown g.world.heap r g.arbiter.active_cooldowns
  pub allowed : Allowed g.world.heap g.world.board src dest

-- Only a sound is heard.
abbrev pub refused : GameEngine → GameEngine
refused g = record {
  world = record (g.world) { events = g.world.events ++ sound (codes "illegal_move") ∷ [] };
  arbiter = g.arbiter;
}

-- The piece leaves its cell and is under way to its destination, for 500 ms a cell.
abbrev pub granted : GameEngine → Ref → Position → Position → GameEngine
granted g r src dest =
    let cells = max (abs (dest.row -ℤ src.row)) (abs (dest.col -ℤ src.col)) in
    record {
      world = set_off g.world r src;
      arbiter = under_way g.world g.arbiter r src dest (cells * 500);
    }

-- The outcomes of a request for a move.
pub data MoveOutcome (g : GameEngine) (src dest : Position) : GameEngine → Type 0 where
  ignores : is_game_over g.world ≡ true → MoveOutcome g src dest g
  grants :
      is_game_over g.world ≡ false
      → (r : Ref) → MayMove g src dest r
      → MoveOutcome g src dest (granted g r src dest)
  refuses :
      is_game_over g.world ≡ false
      → ((r : Ref) → MayMove g src dest r → ⊥)
      → MoveOutcome g src dest (refused g)

-- Once the game is over no request has any effect.
pub request_over :
    (g : GameEngine) (src dest : Position)
    → is_game_over g.world ≡ true
    → (request_move g src dest ≡ g) × (request_jump g src ≡ g)
unfolding request_move request_jump
request_over g src dest over = simp over (refl, refl)
