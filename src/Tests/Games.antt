-- ===== src/Tests/Games.antt =====
-- Requests, and whole games.
use ctd_project.Base.{true, List, [], ◌∷◌}
use ctd_project.Engine.{GameEngine, new_engine, Request, move, jump, elapse, play}
use ctd_project.Engine.Safety.{IsSafe, play-new_engine-IsSafe}
use ctd_project.Arbiter.{advance_time}
use ctd_project.Arbiter.Invariant.{Inv, advance_time-Inv}
use ctd_project.BoardFactory.{create_default_board}
use ctd_project.BoardFactory.Setup.{create_default_board-IsBuilt, play-create_default_board-IsSafe}
use ctd_project.Tests.Fixtures.{at}

pawn_out : List Request
pawn_out =
    move (at 6 4) (at 4 4) ∷ elapse 1000 ∷ move (at 1 3) (at 3 3) ∷ elapse 500 ∷ jump (at 7 0) ∷ []

play-create_default_board-IsSafe_example :
    IsSafe (play (new_engine create_default_board.0 create_default_board.1) pawn_out)
play-create_default_board-IsSafe_example = play-create_default_board-IsSafe pawn_out

play-new_engine-IsSafe_example :
    IsSafe (play (new_engine create_default_board.0 create_default_board.1) pawn_out)
play-new_engine-IsSafe_example =
    play-new_engine-IsSafe create_default_board.0 create_default_board.1 pawn_out
      create_default_board-IsBuilt.coherent

started : GameEngine
started =
    play (new_engine create_default_board.0 create_default_board.1) (move (at 6 4) (at 4 4) ∷ [])

advance_time-Inv_example :
    Inv
      (advance_time 1000 true started.world started.arbiter).0
      (advance_time 1000 true started.world started.arbiter).1
unfolding started
advance_time-Inv_example =
    advance_time-Inv 1000 true started.world started.arbiter
      (play-create_default_board-IsSafe (move (at 6 4) (at 4 4) ∷ []))
