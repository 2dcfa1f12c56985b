-- ===== src/Client/Animations.antt =====
-- src/network/socket_client.cpp: `advance_animations`, by which the client moves on between two
-- states of the server.
pub mod Ending
use ctd_project.Base.{
  ℕ, ◌-◌, Bool, true, false, ◌&&◌, not, List, [], ◌∷◌, ◌++◌, map, if◌then◌else◌, Str, ltb,
}
use ctd_project.Piece.{Heap}
use ctd_project.MessageBus.{sound}
use ctd_project.Motion.{Motion, Jump, Cooldown}
use ctd_project.GameState.{World, is_game_over, set_game_over}
use ctd_project.Client.{Client}
use ctd_project.Client.Merging.{any_motion, king_capture}

-- No time that remains falls below zero.
unfoldable pub advance_motions : ℕ → List Motion → List Motion
advance_motions ms [] = []
advance_motions ms (m ∷ rest) =
    record m { remaining_ms = m.remaining_ms - ms } ∷ advance_motions ms rest

unfoldable pub advance_jumps : ℕ → List Jump → List Jump
advance_jumps ms [] = []
advance_jumps ms (j ∷ rest) =
    record j { remaining_ms = j.remaining_ms - ms } ∷ advance_jumps ms rest

-- A cooldown waits while its piece is under way. One with nothing left is dropped.
unfoldable pub advance_cooldowns : Heap → List Motion → ℕ → List Cooldown → List Cooldown
advance_cooldowns h motions ms [] = []
advance_cooldowns h motions ms (c ∷ rest) =
    let later = advance_cooldowns h motions ms rest in
    let left = if any_motion h c.piece motions then c.remaining_ms else c.remaining_ms - ms in
    if ltb 0 left then record c { remaining_ms = left } ∷ later else later

-- The sounds that were held back.
unfoldable pub publish_sounds : World → List Str → World
publish_sounds w names = record w { events = w.events ++ map sound names }

unfoldable pub advance_animations : ℕ → Client → Client
advance_animations ms c =
    let h = c.world.heap in
    let motions = advance_motions ms c.arbiter.active_motions in
    let c1 : Client = record c {
      arbiter = record {
        active_motions = motions;
        active_jumps = advance_jumps ms c.arbiter.active_jumps;
        active_cooldowns = advance_cooldowns h motions ms c.arbiter.active_cooldowns;
      };
    } in
    let ended : Client = record c1 {
      world = publish_sounds (set_game_over c.world true) c.delayed_sounds;
      delayed_sounds = [];
    } in
    if c.server_game_over && (not (is_game_over c.world) && not (king_capture h motions))
    then ended
    else c1
