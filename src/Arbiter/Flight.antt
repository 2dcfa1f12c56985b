-- ===== src/Arbiter/Flight.antt =====
-- Pieces under way are off the board, each in one motion only, while the clock advances.
use ctd_project.Base.{
  ℕ, zero, suc, ◌≡◌, refl, sym, ap, ◌∙◌, ◌≢◌, ◌⊎◌, Bool, true, false, Option, none, some, List, [],
  ◌∷◌, arith, get_elem?, set, get_elem?-set_ne, subst,
}
use ctd_project.Piece.{Ref}
use ctd_project.Board.{Board}
use ctd_project.Motion.{Motion, Jump, RealTimeArbiter}
use ctd_project.GameState.{World}
use ctd_project.Due.{DueType, motion_due, jump_due, Due}
use ctd_project.Due.Sorting.{count_due}
use ctd_project.Coherence.{Coherent, Off, Harmless-Coherent, Moves}
use ctd_project.Arrival.{Sweep, arrive}
use ctd_project.Arrival.Keeping.{arrive-Keeps, land_jump-Harmless}
use ctd_project.Arbiter.{end_motion, end_jump, handle_type, handle, handle_all}
use ctd_project.Arbiter.Handled.{marks-handle}

-- No two motions carry the same piece.
abbrev pub Distinct : List Motion → Type 0
Distinct l =
    (i j : ℕ) (m n : Motion) (r : Ref)
    → get_elem? l i ≡ some m
    → get_elem? l j ≡ some n
    → m.piece ≡ some r
    → n.piece ≡ some r
    → i ≡ j

-- The motion carries a piece that is off the board.
abbrev pub IsAirborne : Board → Motion → Type 0
IsAirborne b m = (r : Ref) × (m.piece ≡ some r) × Off b r

-- What holds while the loop runs: the pieces of the motions that are not handled yet are off the
-- board.
pub record InFlight (l : List Motion) (s : Sweep) : Type 0 where
  pub coherent : Coherent s.world.heap s.world.board
  pub airborne :
      (i : ℕ) (m : Motion)
      → get_elem? l i ≡ some m
      → get_elem? s.handled_motions i ≡ some false
      → IsAirborne s.world.board m

-- An event that may be handled: its motion has not been.
abbrev Ready : Due → Sweep → Type 0
Ready e s = e.type ≡ motion_due → get_elem? s.handled_motions e.index_in_vec ≡ some false

unmark :
    (xs : List Bool) (i j : ℕ)
    → get_elem? (set xs i true) j ≡ some false
    → (get_elem? xs j ≡ some false) × (i ≢ j)
unmark [] i j e = absurd (cc e)
unmark (x ∷ xs) zero zero e = absurd (cc e)
unmark (x ∷ xs) zero (suc j) e = (e, λ p. absurd (omega arith))
unmark (x ∷ xs) (suc i) zero e = (e, λ p. absurd (omega arith))
unmark (x ∷ xs) (suc i) (suc j) e = let (f, n) = unmark xs i j e in (f, λ p. n (omega arith))

module _ (ms : ℕ) (t : Bool) (a : RealTimeArbiter) (distinct : Distinct a.active_motions) where
  others-IsAirborne :
      (i j : ℕ) (m n : Motion) (r : Ref) (s : Sweep) {v : World}
      → get_elem? a.active_motions i ≡ some m
      → m.piece ≡ some r
      → Off s.world.board r
      → InFlight a.active_motions s
      → Moves r s.world v
      → get_elem? a.active_motions j ≡ some n
      → get_elem? (set s.handled_motions i true) j ≡ some false
      → IsAirborne v.board n
  others-IsAirborne i j m n r s at carries off f moves there unhandled =
      let (before, other) = unmark s.handled_motions i j unhandled in
      let (q, holds, far) = f.airborne j n there before in
      let apart : q ≢ r = λ e. other (distinct i j m n r at there carries (holds ∙ ap some e)) in
      (q, holds, moves.off f.coherent off q apart far)

  after_arrival :
      (arrival i : ℕ) (m : Motion) (r : Ref) (s : Sweep)
      → get_elem? a.active_motions i ≡ some m
      → m.piece ≡ some r
      → Off s.world.board r
      → InFlight a.active_motions s
      → InFlight a.active_motions (
          arrive ms t a arrival m
            (some r)
            (record s { handled_motions = set s.handled_motions i true }))
  after_arrival arrival i m r s at carries off f =
      let s' : Sweep = record s { handled_motions = set s.handled_motions i true } in
      let k = arrive-Keeps ms t a arrival m r s' in
      record {
        coherent = k.moves.coherent f.coherent off;
        airborne = λ j n there unhandled.
            others-IsAirborne i j m n r s at carries off f k.moves there
              (subst (λ flags. get_elem? flags j ≡ some false) k.handled_motions unhandled);
      }

  missing_motion :
      (i : ℕ) (s : Sweep)
      → InFlight a.active_motions s
      → InFlight a.active_motions (record s { handled_motions = set s.handled_motions i true })
  missing_motion i s f = record {
    coherent = f.coherent;
    airborne =
        λ j n there unhandled. f.airborne j n there (unmark s.handled_motions i j unhandled).0;
  }

  motion_ended :
      (i arrival : ℕ) (o : Option Motion) (s : Sweep)
      → get_elem? a.active_motions i ≡ o
      → get_elem? s.handled_motions i ≡ some false
      → InFlight a.active_motions s
      → InFlight a.active_motions (
          end_motion ms t a arrival o (record s { handled_motions = set s.handled_motions i true }))
  unfolding end_motion
  motion_ended i arrival none s at ready f = missing_motion i s f
  motion_ended i arrival (some m) s at ready f =
      let (r, carries, off) = f.airborne i m at ready in
      subst
        (λ o.
          InFlight a.active_motions (
            arrive ms t a arrival m o
              (record s { handled_motions = set s.handled_motions i true })))
        (sym carries) (after_arrival arrival i m r s at carries off f)

  jump_ended :
      (o : Option Jump) (s : Sweep)
      → InFlight a.active_motions s
      → InFlight a.active_motions (end_jump o s)
  unfolding end_jump
  jump_ended none s f = f
  jump_ended (some j) s f =
      let (h, marks, _) = land_jump-Harmless s j.spot j.piece in
      record {
        coherent = Harmless-Coherent h f.coherent;
        airborne = λ i m there unhandled.
            subst (λ b. IsAirborne b m) (sym h.board)
              (f.airborne i m there (subst (λ l. get_elem? l i ≡ some false) marks unhandled));
      }

  handle-InFlight :
      (e : Due) (s : Sweep)
      → Ready e s
      → InFlight a.active_motions s
      → InFlight a.active_motions (handle ms t a e s)
  unfolding handle
  handle-InFlight e s ready f = go e.type refl
    where
      go :
          (u : DueType)
          → e.type ≡ u
          → InFlight a.active_motions (handle_type u ms t a e.index_in_vec e.arrival_time s)
      go motion_due is = motion_ended e.index_in_vec e.arrival_time _ s refl (ready is) f
      go jump_due is =
          jump_ended _ (record s { handled_jumps = set s.handled_jumps e.index_in_vec true })
            (record { coherent = f.coherent; airborne = f.airborne })

  -- Each motion among the events occurs once, and has not been handled.
  abbrev pub Fresh : List Due → Sweep → Type 0
  Fresh es s =
      (i : ℕ)
      → (count_due motion_due i es ≡ 0)
        ⊎ ((count_due motion_due i es ≡ 1) × (get_elem? s.handled_motions i ≡ some false))

  Fresh-Ready : (e : Due) (es : List Due) (s : Sweep) → Fresh (e ∷ es) s → Ready e s
  unfolding count_due
  Fresh-Ready e es s h is = ground (arith, h e.index_in_vec, is)

  Fresh-handle :
      (e : Due) (es : List Due) (s : Sweep) → Fresh (e ∷ es) s → Fresh es (handle ms t a e s)
  unfolding count_due
  Fresh-handle e es s h i = ground (
    arith,
    h i,
    marks-handle ms t a e s motion_due,
    get_elem?-set_ne s.handled_motions e.index_in_vec i true,
  )

  pub handle_all-InFlight :
      (es : List Due) (s : Sweep)
      → Fresh es s
      → InFlight a.active_motions s
      → InFlight a.active_motions (handle_all ms t a es s)
  unfolding handle_all
  handle_all-InFlight [] s h f = f
  handle_all-InFlight (e ∷ es) s h f =
      handle_all-InFlight es (handle ms t a e s) (Fresh-handle e es s h)
        (handle-InFlight e s (Fresh-Ready e es s h) f)
