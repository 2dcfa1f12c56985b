-- ===== src/Arbiter/Starting.antt =====
-- src/realtime/real_time_arbiter.cpp: what the start of a motion changes, and which pieces are busy.
use ctd_project.Base.{
  ◌↔◌, ◌≡◌, refl, ℕ, zero, suc, true, false, Option, none, some, List, [], ◌∷◌, ◌++◌, arith,
  is_some, Bool-cases, inl, inr, codes, str_eq_iff, get_elem?,
}
use ctd_project.Piece.{Position, Ref, Heap, moving, set_state}
use ctd_project.Board.{Board, is_in_bounds, get_piece_at, clear_cell, assign}
use ctd_project.MessageBus.{sound}
use ctd_project.Motion.{Motion, Cooldown, RealTimeArbiter}
use ctd_project.GameState.{World}
use ctd_project.Rules.{same_color}
use ctd_project.Arbiter.{
  start_motion, mark_moving, victim_of, any_motion_of, cooldown_of, same_id, is_piece_moving,
  is_piece_cooling_down,
}

-- The world after a piece has left its cell for a motion.
abbrev pub set_off : World → Ref → Position → World
set_off w r src = record {
  heap = set_state w.heap r moving;
  board = assign w.board src none;
  game = w.game;
  events = w.events ++ sound (codes "move") ∷ [];
}

-- The motion is the last one; whatever stands at its end is to be captured.
abbrev pub under_way : World → RealTimeArbiter → Ref → Position → Position → ℕ → RealTimeArbiter
under_way w a r src dest ms = record {
  active_motions =
      a.active_motions
      ++ record {
        piece = some r;
        source = src;
        dest = dest;
        remaining_ms = ms;
        total_ms = ms;
        captured_piece = get_piece_at w.board dest;
      }
        ∷ [];
  active_jumps = a.active_jumps;
  active_cooldowns = a.active_cooldowns;
}

clear_cell-assign :
    (b : Board) (p : Position) → is_in_bounds b p ≡ true → clear_cell b p ≡ assign b p none
unfolding clear_cell
clear_cell-assign b p i = rw i refl

victim_of-enemy :
    (h : Heap) (r : Ref) (o : Option Ref)
    → ((v : Ref) → o ≡ some v → same_color h v r ≡ false)
    → victim_of (mark_moving h (some r)) (some r) o ≡ o
unfolding victim_of mark_moving
victim_of-enemy h r none enemy = refl
victim_of-enemy h r (some v) enemy = ground (arith, enemy v refl)

pub start_motion_lem :
    (w : World) (a : RealTimeArbiter) (r : Ref) (src dest : Position) (ms : ℕ)
    → is_in_bounds w.board src ≡ true
    → ((v : Ref) → get_piece_at w.board dest ≡ some v → same_color w.heap v r ≡ false)
    → start_motion w a (some r) src dest ms true ≡ (set_off w r src, under_way w a r src dest ms)
unfolding start_motion mark_moving
start_motion_lem w a r src dest ms i enemy =
    rw (clear_cell-assign w.board src i)
      (rw (victim_of-enemy w.heap r (get_piece_at w.board dest) enemy) refl)

-- Both pointers are to pieces of one id.
abbrev pub SamePiece : Heap → Ref → Option Ref → Type 0
SamePiece h r none = ⊥
SamePiece h r (some q) = (h.piece q).id ≡ (h.piece r).id

pub SamePiece-same_id :
    (h : Heap) (r : Ref) (o : Option Ref) → SamePiece h r o → same_id h r o ≡ true
SamePiece-same_id h r none e = absurd e
SamePiece-same_id h r (some q) e = (str_eq_iff (h.piece q).id (h.piece r).id).1 e

pub same_id-SamePiece :
    (h : Heap) (r : Ref) (o : Option Ref) → same_id h r o ≡ true → SamePiece h r o
same_id-SamePiece h r none e = cc
same_id-SamePiece h r (some q) e = (str_eq_iff (h.piece q).id (h.piece r).id).0 e

abbrev pub NoMotion : Heap → Ref → List Motion → Type 0
NoMotion h r ms = (i : ℕ) (m : Motion) → get_elem? ms i ≡ some m → ¬ SamePiece h r m.piece

abbrev pub NoCooldown : Heap → Ref → List Cooldown → Type 0
NoCooldown h r cs = (i : ℕ) (c : Cooldown) → get_elem? cs i ≡ some c → ¬ SamePiece h r c.piece

any_motion_of-NoMotion :
    (h : Heap) (r : Ref) (ms : List Motion) → any_motion_of h r ms ≡ false → NoMotion h r ms
unfolding any_motion_of
any_motion_of-NoMotion h r [] e i m at same = cc
any_motion_of-NoMotion h r (n ∷ ms) e zero m at same =
    ground (arith, SamePiece-same_id h r m.piece same)
any_motion_of-NoMotion h r (n ∷ ms) e (suc i) m at same =
    any_motion_of-NoMotion h r ms (ground arith) i m at same

NoMotion-any_motion_of :
    (h : Heap) (r : Ref) (ms : List Motion) → NoMotion h r ms → any_motion_of h r ms ≡ false
unfolding any_motion_of
NoMotion-any_motion_of h r [] free = refl
NoMotion-any_motion_of h r (n ∷ ms) free = elim (Bool-cases (same_id h r n.piece)) [
  | inl e ↦ absurd (free 0 n refl (same_id-SamePiece h r n.piece e))
  | inr e ↦ rw e (NoMotion-any_motion_of h r ms (λ i. free (suc i)))
]

cooldown_of-NoCooldown :
    (h : Heap) (r : Ref) (cs : List Cooldown)
    → is_some (cooldown_of h r cs) ≡ false
    → NoCooldown h r cs
unfolding cooldown_of
cooldown_of-NoCooldown h r [] e i c at same = cc
cooldown_of-NoCooldown h r (d ∷ cs) e zero c at same =
    ground (arith, SamePiece-same_id h r c.piece same)
cooldown_of-NoCooldown h r (d ∷ cs) e (suc i) c at same =
    cooldown_of-NoCooldown h r cs (ground arith) i c at same

NoCooldown-cooldown_of :
    (h : Heap) (r : Ref) (cs : List Cooldown)
    → NoCooldown h r cs
    → is_some (cooldown_of h r cs) ≡ false
unfolding cooldown_of
NoCooldown-cooldown_of h r [] free = refl
NoCooldown-cooldown_of h r (d ∷ cs) free = elim (Bool-cases (same_id h r d.piece)) [
  | inl e ↦ absurd (free 0 d refl (same_id-SamePiece h r d.piece e))
  | inr e ↦ rw e (NoCooldown-cooldown_of h r cs (λ i. free (suc i)))
]

module _ (h : Heap) (a : RealTimeArbiter) (r : Ref) where
  pub is_piece_moving-NoMotion :
      (is_piece_moving h a (some r) ≡ false) ↔ NoMotion h r a.active_motions
  unfolding is_piece_moving
  is_piece_moving-NoMotion =
      (any_motion_of-NoMotion h r a.active_motions, NoMotion-any_motion_of h r a.active_motions)

  pub is_piece_cooling_down-NoCooldown :
      (is_piece_cooling_down h a (some r) ≡ false) ↔ NoCooldown h r a.active_cooldowns
  unfolding is_piece_cooling_down
  is_piece_cooling_down-NoCooldown =
      (cooldown_of-NoCooldown h r a.active_cooldowns, NoCooldown-cooldown_of h r a.active_cooldowns)
