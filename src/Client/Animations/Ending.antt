-- ===== src/Client/Animations/Ending.antt =====
-- How a game ends on the client's screen.
use ctd_project.Base.{
  ◌≡◌, refl, ℕ, ◌-◌, Bool, true, false, ◌&&◌, ◌||◌, List, [], ◌∷◌, ◌++◌, map, leb, ltb, arith,
  and_left, and_right,
}
use ctd_project.Piece.{Heap}
use ctd_project.MessageBus.{sound}
use ctd_project.Motion.{Motion}
use ctd_project.GameState.{is_game_over, set_game_over}
use ctd_project.Client.{Client}
use ctd_project.Client.Merging.{king_capture}
use ctd_project.Client.Animations.{advance_motions, advance_animations, publish_sounds}

-- Every motion ends within the time.
abbrev pub all_within : ℕ → List Motion → Bool
all_within ms [] = true
all_within ms (m ∷ rest) = leb m.remaining_ms ms && all_within ms rest

spent : (a ms : ℕ) → leb a ms ≡ true → ltb 0 (a - ms) ≡ false
spent a ms e = ground arith

none_or : (k : Bool) {l r : Bool} → l ≡ false → r ≡ false → ((k && l) || r) ≡ false
none_or true e f = ground (arith, e, f)
none_or false e f = f

king_capture-advance_motions :
    (h : Heap) (ms : ℕ) (motions : List Motion)
    → all_within ms motions ≡ true
    → king_capture h (advance_motions ms motions) ≡ false
unfolding king_capture advance_motions
king_capture-advance_motions h ms [] e = refl
king_capture-advance_motions h ms (m ∷ rest) e =
    none_or _ (spent m.remaining_ms ms (and_left _ _ e))
      (king_capture-advance_motions h ms rest (and_right _ _ e))

-- Once the server has said that the game is over, and all motions have had the time to end, the game
-- is over on the client too, and the sounds that waited for it are heard, in order.
pub advance_animations-is_game_over :
    (ms : ℕ) (c : Client)
    → c.server_game_over ≡ true
    → is_game_over c.world ≡ false
    → all_within ms c.arbiter.active_motions ≡ true
    → (is_game_over (advance_animations ms c).world ≡ true)
      × ((advance_animations ms c).world.events ≡ c.world.events ++ map sound c.delayed_sounds)
      × ((advance_animations ms c).delayed_sounds ≡ [])
unfolding advance_animations publish_sounds set_game_over
advance_animations-is_game_over ms c over before within =
    let quiet = king_capture-advance_motions c.world.heap ms c.arbiter.active_motions within in
    rw over (rw before (rw quiet (refl, refl, refl)))
