-- ===== src/Tests/Arrivals.antt =====
-- Motions that end, and the clock.
use ctd_project.Base.{
  ◌≡◌, refl, ◌↔◌, ℕ, ◌<◌, true, false, none, some, [], ◌∷◌, arith, ap, zero, suc, Option, get_elem?,
  ◌≤◌,
}
use ctd_project.Piece.{white, black}
use ctd_project.Board.{new_board, get_piece_at, is_in_bounds, index, grid_at, in_range}
use ctd_project.Board.Laws.{new_board-IsGrid, get_piece_at-new_board}
use ctd_project.Motion.{Cooldown, new_arbiter}
use ctd_project.Due.{motion_due, jump_due, events_of}
use ctd_project.Due.Timing.{AllTimed}
use ctd_project.Due.Sorting.{IsSorted, count_due, motion_ends, jump_ends, events_of_lem}
use ctd_project.GameState.{check_game_status}
use ctd_project.GameState.Kings.{Alive, check_game_status_lem}
use ctd_project.Coherence.{Off}
use ctd_project.Arrival.{arrive, jumper_at, is_escaping}
use ctd_project.Arrival.Outcomes.{Landed, arrive_empty, arrive_outside, arrive_friend}
use ctd_project.Arrival.Captures.{Captured, ShotDown, arrive_enemy, arrive-ShotDown}
use ctd_project.Arbiter.{advance_time, tick_cooldowns, cooldown_of, same_id}
use ctd_project.Arbiter.Cooldowns.{cooled_down}
use ctd_project.Arbiter.Handled.{fly_on, stay_up, advance_time_under_way}
use ctd_project.Tests.Fixtures.{
  at, three_pieces, board_without_rook, world_on, sweep_on, rook_to, king_in_air, rook_under_way,
  rook_rests,
}

arrive_empty_example :
    Landed 0
      (at 1 0)
      (sweep_on board_without_rook)
      (arrive 500 true new_arbiter 500 (rook_to (at 1 0)) (some 0) (sweep_on board_without_rook))
unfolding get_piece_at is_in_bounds in_range index grid_at jumper_at
arrive_empty_example =
    arrive_empty 500 true new_arbiter 500 (rook_to (at 1 0)) 0 (sweep_on board_without_rook) refl
      refl refl refl refl

arrive_friend_example :
    Landed 0
      (at 0 0)
      (sweep_on board_without_rook)
      (arrive 500 true new_arbiter 500 (rook_to (at 2 1)) (some 0) (sweep_on board_without_rook))
unfolding get_piece_at is_in_bounds in_range index grid_at jumper_at is_escaping
arrive_friend_example =
    arrive_friend 500 true new_arbiter 500 (rook_to (at 2 1)) 0 (sweep_on board_without_rook) refl 2
      refl refl refl refl refl refl refl

arrive_enemy_example :
    Captured 1 0
      (at 0 2)
      (sweep_on board_without_rook)
      (arrive 500 true new_arbiter 500 (rook_to (at 0 2)) (some 0) (sweep_on board_without_rook))
unfolding get_piece_at is_in_bounds in_range index grid_at jumper_at is_escaping
arrive_enemy_example =
    arrive_enemy 500 new_arbiter 500 (rook_to (at 0 2)) 0 (sweep_on board_without_rook) refl 1 refl
      refl refl refl refl refl

arrive-ShotDown_example : ShotDown black 0 (sweep_on board_without_rook) (
    arrive 500 true
      (king_in_air (at 0 2))
      500
      (rook_to (at 0 2))
      (some 0)
      (sweep_on board_without_rook))
unfolding jumper_at
arrive-ShotDown_example =
    arrive-ShotDown 500 (king_in_air (at 0 2)) 500 (rook_to (at 0 2)) 0
      (sweep_on board_without_rook) refl 1 refl refl

check_game_status_lem_example :
    ((check_game_status (world_on board_without_rook) new_arbiter).game.game_over_flag ≡ false) ↔ (
      (0 < 0 → Alive (world_on board_without_rook) new_arbiter white)
      × (0 < 1 → Alive (world_on board_without_rook) new_arbiter black))
check_game_status_lem_example = check_game_status_lem (world_on board_without_rook) new_arbiter refl

advance_time_under_way_example :
    ((advance_time 100 true (world_on board_without_rook) rook_under_way).1.active_motions
      ≡ fly_on 100 (rook_to (at 0 2) ∷ []))
    × ((advance_time 100 true (world_on board_without_rook) rook_under_way).1.active_jumps
        ≡ stay_up 100 [])
advance_time_under_way_example =
    advance_time_under_way 100 true (world_on board_without_rook) rook_under_way

cooled_down_example : cooldown_of three_pieces 0 (tick_cooldowns 3000 (rook_rests ∷ [])) ≡ none
cooled_down_example = cooled_down three_pieces 0 3000 (rook_rests ∷ []) all_end
  where
    remaining : Option Cooldown → ℕ
    remaining none = 0
    remaining (some c) = c.remaining_ms

    all_end :
        (i : ℕ) (c : Cooldown)
        → get_elem? (rook_rests ∷ []) i ≡ some c
        → same_id three_pieces 0 c.piece ≡ true
        → c.remaining_ms ≤ 3000
    all_end zero c e own = omega (arith, ap (λ (o : Option Cooldown). remaining o) e)
    all_end (suc i) c e own = absurd (cc e)

arrive_outside_example :
    Off
      (arrive 500 true new_arbiter 500
        (rook_to (at 3 0))
        (some 0)
        (sweep_on (new_board 3 3))).world.board
      0
unfolding is_in_bounds in_range jumper_at new_board
arrive_outside_example =
    arrive_outside 500 true new_arbiter 500 (rook_to (at 3 0)) 0 (sweep_on (new_board 3 3)) refl
      (new_board-IsGrid 3 3) refl refl (λ p e. cc (get_piece_at-new_board 3 3 p, e))

events_of_lem_example :
    IsSorted (events_of 600 rook_under_way)
    × (count_due motion_due 0 (events_of 600 rook_under_way)
        ≡ motion_ends 600 (some (rook_to (at 0 2))))
    × (count_due jump_due 0 (events_of 600 rook_under_way) ≡ jump_ends 600 none)
    × AllTimed rook_under_way (events_of 600 rook_under_way)
events_of_lem_example = events_of_lem 600 rook_under_way 0
