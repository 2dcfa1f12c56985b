-- ===== src/Tests/Boards.antt =====
-- The board, the rules and the pieces.
use ctd_project.Base.{ℕ, suc, ◌≡◌, ◌-ℤ◌, refl, inl, some, if◌then◌else◌, codes}
use ctd_project.Board.{move_piece, add_piece, remove_piece}
use ctd_project.Board.Moves.{Outcome, move_piece-Outcome}
use ctd_project.Board.Laws.{Added, add_piece-Added, Removed, remove_piece-Removed}
use ctd_project.MessageBus.{
  Event, sound, play_sound, new_bus, subscribe, publish, type_eq, event_type,
}
use ctd_project.MessageBus.Laws.{publish-subscribe}
use ctd_project.Rules.{validate_move, distance}
use ctd_project.Rules.Path.{Finding, toward, path_walk, path_walk-Finding}
use ctd_project.Rules.Geometry.{Verdict, validate_move-Verdict}
use ctd_project.Tests.Fixtures.{at, three_pieces, board_without_rook, board_with_rook}

add_piece-Added_example :
    Added three_pieces board_without_rook 0 (add_piece three_pieces board_without_rook (some 0))
add_piece-Added_example = add_piece-Added three_pieces board_without_rook 0 refl

remove_piece-Removed_example :
    Removed three_pieces board_with_rook
      (at 0 2)
      (remove_piece three_pieces board_with_rook (at 0 2))
remove_piece-Removed_example = remove_piece-Removed three_pieces board_with_rook (at 0 2) refl

path_walk-Finding_example :
    Finding board_with_rook
      (toward (at 0 0) (at 0 2))
      1
      (distance (at 0 0) (at 0 2))
      (path_walk board_with_rook (at 0 0) (at 0 2))
unfolding ◌-ℤ◌
path_walk-Finding_example = path_walk-Finding board_with_rook (at 0 0) (at 0 2) (inl refl)

validate_move-Verdict_example :
    Verdict three_pieces board_with_rook
      (at 0 0)
      (at 0 2)
      (validate_move three_pieces board_with_rook (at 0 0) (at 0 2))
validate_move-Verdict_example = validate_move-Verdict three_pieces board_with_rook (at 0 0) (at 0 2)

counter : Event → ℕ → ℕ
counter e n = suc n

publish-subscribe_example :
    publish (subscribe new_bus play_sound counter) (sound (codes "jump")) 0 ≡ (
      if type_eq play_sound (event_type (sound (codes "jump")))
      then counter (sound (codes "jump")) (publish new_bus (sound (codes "jump")) 0)
      else publish new_bus (sound (codes "jump")) 0)
publish-subscribe_example = publish-subscribe new_bus play_sound counter (sound (codes "jump")) 0

move_piece-Outcome_example :
    Outcome three_pieces board_with_rook
      (at 0 0)
      (at 1 0)
      (move_piece three_pieces board_with_rook (at 0 0) (at 1 0))
move_piece-Outcome_example = move_piece-Outcome three_pieces board_with_rook (at 0 0) (at 1 0) refl
