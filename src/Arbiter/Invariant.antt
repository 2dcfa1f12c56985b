-- ===== src/Arbiter/Invariant.antt =====
-- The invariant of a world and its arbiter, kept while the clock advances.
use ctd_project.Base.{
  ℕ, zero, suc, ◌≡◌, refl, sym, ◌∙◌, ◌≢◌, ◌⊎◌, Bool, true, false, some, List, [], ◌∷◌, arith,
  get_elem?, ap,
}
use ctd_project.Piece.{Ref}
use ctd_project.Motion.{Motion, RealTimeArbiter}
use ctd_project.GameState.{World}
use ctd_project.Due.{motion_due, events_of}
use ctd_project.Due.Sorting.{count_due, events_of_lem}
use ctd_project.Coherence.{Coherent}
use ctd_project.Arbiter.{handle_all, advance_motions, sweep_start, sweep_end, advance_time}
use ctd_project.Arbiter.Handled.{unmarked}
use ctd_project.Arbiter.Flight.{Distinct, IsAirborne, InFlight, handle_all-InFlight}

-- Board and pieces agree; each motion carries a piece that is off the board; no piece is in two
-- motions.
pub record Inv (w : World) (a : RealTimeArbiter) : Type 0 where
  pub coherent : Coherent w.heap w.board
  pub airborne : (i : ℕ) (m : Motion) → get_elem? a.active_motions i ≡ some m → IsAirborne w.board m
  pub distinct : Distinct a.active_motions

-- A motion that goes on is one that was there and was not marked.
record Origin (flags : List Bool) (l : List Motion) (m' : Motion) : Type 0 where
  index : ℕ
  motion : Motion
  at : get_elem? l index ≡ some motion
  unmarked : get_elem? flags index ≡ some false
  same : m'.piece ≡ motion.piece

Origin-later :
    {f : Bool} {flags : List Bool} {m : Motion} {l : List Motion} {m' : Motion}
    → Origin flags l m'
    → Origin (f ∷ flags) (m ∷ l) m'
Origin-later o = record {
  index = suc o.index;
  motion = o.motion;
  at = o.at;
  unmarked = o.unmarked;
  same = o.same;
}

origin :
    (ms : ℕ) (flags : List Bool) (l : List Motion) (i : ℕ) (m' : Motion)
    → get_elem? (advance_motions ms flags l) i ≡ some m'
    → Origin flags l m'
unfolding advance_motions
origin ms [] l i m' e = absurd (cc e)
origin ms (f ∷ flags) [] i m' e = absurd (cc e)
origin ms (true ∷ flags) (m ∷ l) i m' e = Origin-later (origin ms flags l i m' e)
origin ms (false ∷ flags) (m ∷ l) zero m' e = record {
  index = 0;
  motion = m;
  at = refl;
  unmarked = refl;
  same = ground arith;
}
origin ms (false ∷ flags) (m ∷ l) (suc i) m' e = Origin-later (origin ms flags l i m' e)

pub Distinct-tail : (m : Motion) (l : List Motion) → Distinct (m ∷ l) → Distinct l
Distinct-tail m l d i j n o r at bt p q = omega (arith, d (suc i) (suc j) n o r at bt p q)

-- The head's piece is in no later motion.
abbrev pub Apart : Motion → List Motion → Type 0
Apart m l =
    (i : ℕ) (n : Motion) (r : Ref) → get_elem? l i ≡ some n → m.piece ≡ some r → n.piece ≢ some r

pub Distinct-Apart : (m : Motion) (l : List Motion) → Distinct (m ∷ l) → Apart m l
Distinct-Apart m l d i n r at p q = absurd (omega (arith, d 0 (suc i) m n r refl at p q))

pub Distinct-cons : (m : Motion) (l : List Motion) → Apart m l → Distinct l → Distinct (m ∷ l)
Distinct-cons m l apart d zero zero n o r at bt p q = refl
Distinct-cons m l apart d zero (suc j) n o r at bt p q = absurd (apart j o r bt (ground arith) q)
Distinct-cons m l apart d (suc i) zero n o r at bt p q = absurd (apart i n r at (ground arith) p)
Distinct-cons m l apart d (suc i) (suc j) n o r at bt p q = ap suc (d i j n o r at bt p q)

advance_motions-Distinct :
    (ms : ℕ) (flags : List Bool) (l : List Motion)
    → Distinct l
    → Distinct (advance_motions ms flags l)
unfolding advance_motions
advance_motions-Distinct ms [] l d = λ i j m n r at. absurd (cc at)
advance_motions-Distinct ms (f ∷ flags) [] d = λ i j m n r at. absurd (cc at)
advance_motions-Distinct ms (true ∷ flags) (m ∷ l) d =
    advance_motions-Distinct ms flags l (Distinct-tail m l d)
advance_motions-Distinct ms (false ∷ flags) (m ∷ l) d =
    Distinct-cons _ _
      (λ i n r at p q.
        let o = origin ms flags l i n at in
        Distinct-Apart m l d o.index o.motion r o.at p (sym o.same ∙ q))
      (advance_motions-Distinct ms flags l (Distinct-tail m l d))

start-InFlight :
    (ms : ℕ) (w : World) (a : RealTimeArbiter)
    → Inv w a
    → InFlight a.active_motions (sweep_start ms w a)
unfolding sweep_start
start-InFlight ms w a v = record {
  coherent = v.coherent;
  airborne = λ i m at unhandled. v.airborne i m at;
}

start-Fresh :
    (ms : ℕ) (w : World) (a : RealTimeArbiter) (i : ℕ)
    → (count_due motion_due i (events_of ms a) ≡ 0)
      ⊎ ((count_due motion_due i (events_of ms a) ≡ 1)
          × (get_elem? (sweep_start ms w a).handled_motions i ≡ some false))
unfolding sweep_start
start-Fresh ms w a i = ground (arith, (events_of_lem ms a i).1, unmarked a.active_motions i)

-- Time passing keeps the invariant, whatever arrives.
pub advance_time-Inv :
    (ms : ℕ) (t : Bool) (w : World) (a : RealTimeArbiter)
    → Inv w a
    → Inv (advance_time ms t w a).0 (advance_time ms t w a).1
unfolding advance_time sweep_end
advance_time-Inv ms t w a v =
    let s = handle_all ms t a (events_of ms a) (sweep_start ms w a) in
    let f =
      handle_all-InFlight ms t a v.distinct (events_of ms a) (sweep_start ms w a)
        (start-Fresh ms w a) (start-InFlight ms w a v) in
    record {
      coherent = f.coherent;
      airborne = λ i m at.
          let o = origin ms s.handled_motions a.active_motions i m at in
          let (r, carries, off) = f.airborne o.index o.motion o.at o.unmarked in
          (r, o.same ∙ carries, off);
      distinct = advance_motions-Distinct ms s.handled_motions a.active_motions v.distinct;
    }
