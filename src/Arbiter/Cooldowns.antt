-- ===== src/Arbiter/Cooldowns.antt =====
-- How the clock runs down the cooldowns.
use ctd_project.Base.{
  ℕ, zero, suc, ◌≤◌, ◌<◌, ◌≡◌, refl, true, none, some, List, [], ◌∷◌, arith, is_some, get_elem?,
}
use ctd_project.Piece.{Ref, Heap}
use ctd_project.Motion.{Cooldown}
use ctd_project.Arbiter.{tick_cooldowns, same_id, cooldown_of}

-- A piece is cooling down as long as one of its cooldowns has more to go than has passed.
pub still_cooling :
    (h : Heap) (r : Ref) (ms : ℕ) (cs : List Cooldown) (i : ℕ) (c : Cooldown)
    → get_elem? cs i ≡ some c
    → same_id h r c.piece ≡ true
    → ms < c.remaining_ms
    → is_some (cooldown_of h r (tick_cooldowns ms cs)) ≡ true
unfolding tick_cooldowns cooldown_of
still_cooling h r ms [] i c at own more = absurd (cc at)
still_cooling h r ms (d ∷ cs) zero c at own more = ground arith
still_cooling h r ms (d ∷ cs) (suc i) c at own more =
    ground (arith, still_cooling h r ms cs i c at own more)

-- A piece is not cooling down once at least the time of all its cooldowns has passed.
pub cooled_down :
    (h : Heap) (r : Ref) (ms : ℕ) (cs : List Cooldown)
    → ((i : ℕ) (c : Cooldown)
        → get_elem? cs i ≡ some c
        → same_id h r c.piece ≡ true
        → c.remaining_ms ≤ ms)
    → cooldown_of h r (tick_cooldowns ms cs) ≡ none
unfolding tick_cooldowns cooldown_of
cooled_down h r ms [] all = refl
cooled_down h r ms (d ∷ cs) all =
    ground (arith, all 0 d refl, cooled_down h r ms cs (λ i. all (suc i)))
