-- ===== src/Arbiter/Handled.antt =====
-- Which entries the loop of `advance_time` marks as handled, and so which motions and jumps go on.
use ctd_project.Base.{
  ℕ, zero, suc, ◌-◌, ◌≡◌, refl, ◌∙◌, inl, inr, Bool, true, false, ◌||◌, Option, none, some, List,
  [], ◌∷◌, arith, leb, ltb, ◌==◌, if◌then◌else◌, get_elem?, set, replicate, length, Option-cases,
}
use mathlib.Core.Option
use ctd_project.Motion.{Motion, Jump, RealTimeArbiter}
use ctd_project.GameState.{World}
use ctd_project.Due.{DueType, motion_due, jump_due, Due, events_of}
use ctd_project.Due.Sorting.{count_due, due_type_eq, events_of_lem}
use ctd_project.Arrival.{Sweep, arrive}
use ctd_project.Arrival.Keeping.{arrive-Keeps, land_jump-Harmless}
use ctd_project.Arbiter.{
  end_motion, end_jump, handle_type, handle, handle_all, advance_motions, advance_jumps,
  sweep_start, sweep_end, advance_time,
}

end_motion_handled :
    (ms : ℕ) (t : Bool) (a : RealTimeArbiter) (arrival : ℕ) (o : Option Motion) (s : Sweep)
    → ((end_motion ms t a arrival o s).handled_motions ≡ s.handled_motions)
      × ((end_motion ms t a arrival o s).handled_jumps ≡ s.handled_jumps)
unfolding end_motion arrive
end_motion_handled ms t a arrival none s = (refl, refl)
end_motion_handled ms t a arrival (some m) s = elim (Option-cases m.piece) [
  | inl e ↦ rw e (refl, refl)
  | inr (r, e) ↦
      let k = arrive-Keeps ms t a arrival m r s in rw e (k.handled_motions, k.handled_jumps)
]

end_jump_handled :
    (o : Option Jump) (s : Sweep)
    → ((end_jump o s).handled_motions ≡ s.handled_motions)
      × ((end_jump o s).handled_jumps ≡ s.handled_jumps)
unfolding end_jump
end_jump_handled none s = (refl, refl)
end_jump_handled (some j) s = let (_, m, n) = land_jump-Harmless s j.spot j.piece in (m, n)

-- The marks of one kind.
abbrev pub marks : DueType → Sweep → List Bool
marks motion_due s = s.handled_motions
marks jump_due s = s.handled_jumps

-- One event marks its own entry.
pub marks-handle :
    (ms : ℕ) (tracked : Bool) (a : RealTimeArbiter) (e : Due) (s : Sweep) (t : DueType)
    → marks t (handle ms tracked a e s)
      ≡ (if due_type_eq e.type t then set (marks t s) e.index_in_vec true else marks t s)
unfolding handle
marks-handle ms tracked a e s t = go e.type t
  where
    go :
        (u t : DueType)
        → marks t (handle_type u ms tracked a e.index_in_vec e.arrival_time s)
          ≡ (if due_type_eq u t then set (marks t s) e.index_in_vec true else marks t s)
    go motion_due motion_due = (end_motion_handled ms tracked a _ _ _).0
    go motion_due jump_due = (end_motion_handled ms tracked a _ _ _).1
    go jump_due motion_due = (end_jump_handled _ _).0
    go jump_due jump_due = (end_jump_handled _ _).1

abbrev mark : ℕ → Option Bool → Option Bool
mark n none = none
mark n (some b) = some (b || ltb 0 n)

get_elem?-set-true :
    (xs : List Bool) (i j : ℕ)
    → get_elem? (set xs i true) j ≡ (if i == j then mark 1 (get_elem? xs j) else get_elem? xs j)
get_elem?-set-true [] i j = ground arith
get_elem?-set-true (x ∷ xs) zero zero = ground arith
get_elem?-set-true (x ∷ xs) zero (suc j) = ground arith
get_elem?-set-true (x ∷ xs) (suc i) zero = ground arith
get_elem?-set-true (x ∷ xs) (suc i) (suc j) = ground (arith, get_elem?-set-true xs i j)

-- After the loop exactly the entries that occurred among the events are marked, and those that
-- were marked before.
pub marks-handle_all :
    (ms : ℕ) (tracked : Bool) (a : RealTimeArbiter) (es : List Due) (s : Sweep) (t : DueType)
    (i : ℕ)
    → get_elem? (marks t (handle_all ms tracked a es s)) i
      ≡ mark (count_due t i es) (get_elem? (marks t s) i)
unfolding handle_all count_due
marks-handle_all ms tracked a [] s t i = ground arith
marks-handle_all ms tracked a (e ∷ es) s t i =
    marks-handle_all ms tracked a es (handle ms tracked a e s) t i
    ∙ ground
        (arith, marks-handle ms tracked a e s t, get_elem?-set-true (marks t s) e.index_in_vec i)

-- The motions that have more than `ms` to go, with what is left of them.
pub fly_on : ℕ → List Motion → List Motion
fly_on ms [] = []
fly_on ms (m ∷ rest) =
    let later = fly_on ms rest in
    if leb m.remaining_ms ms then later else record m { remaining_ms = m.remaining_ms - ms } ∷ later

pub stay_up : ℕ → List Jump → List Jump
stay_up ms [] = []
stay_up ms (j ∷ rest) =
    let later = stay_up ms rest in
    if leb j.remaining_ms ms then later else record j { remaining_ms = j.remaining_ms - ms } ∷ later

advance_motions-fly_on :
    (ms : ℕ) (flags : List Bool) (l : List Motion)
    → ((i : ℕ)
        → get_elem? flags i ≡ Option.map (λ (m : Motion). leb m.remaining_ms ms) (get_elem? l i))
    → advance_motions ms flags l ≡ fly_on ms l
unfolding advance_motions fly_on
advance_motions-fly_on ms [] [] h = refl
advance_motions-fly_on ms [] (m ∷ l) h = absurd (cc (h 0))
advance_motions-fly_on ms (f ∷ flags) [] h = absurd (cc (h 0))
advance_motions-fly_on ms (f ∷ flags) (m ∷ l) h =
    let later = advance_motions-fly_on ms flags l (λ i. h (suc i)) in ground (arith, h 0, later)

advance_jumps-stay_up :
    (ms : ℕ) (flags : List Bool) (l : List Jump)
    → ((i : ℕ)
        → get_elem? flags i ≡ Option.map (λ (j : Jump). leb j.remaining_ms ms) (get_elem? l i))
    → advance_jumps ms flags l ≡ stay_up ms l
unfolding advance_jumps stay_up
advance_jumps-stay_up ms [] [] h = refl
advance_jumps-stay_up ms [] (m ∷ l) h = absurd (cc (h 0))
advance_jumps-stay_up ms (f ∷ flags) [] h = absurd (cc (h 0))
advance_jumps-stay_up ms (f ∷ flags) (m ∷ l) h =
    let later = advance_jumps-stay_up ms flags l (λ i. h (suc i)) in ground (arith, h 0, later)

pub unmarked {ℓ} :
    {A : Type ℓ} (l : List A) (i : ℕ)
    → get_elem? (replicate (length l) false) i ≡ Option.map (λ x. false) (get_elem? l i)
unmarked [] i = refl
unmarked (x ∷ l) zero = refl
unmarked (x ∷ l) (suc i) = unmarked l i

motion_marks :
    (ms : ℕ) (t : Bool) (w : World) (a : RealTimeArbiter) (i : ℕ)
    → get_elem? (handle_all ms t a (events_of ms a) (sweep_start ms w a)).handled_motions i
      ≡ Option.map (λ (m : Motion). leb m.remaining_ms ms) (get_elem? a.active_motions i)
unfolding sweep_start
motion_marks ms t w a i =
    marks-handle_all ms t a (events_of ms a) (sweep_start ms w a) motion_due i
    ∙ ground (arith, (events_of_lem ms a i).1, unmarked a.active_motions i)

jump_marks :
    (ms : ℕ) (t : Bool) (w : World) (a : RealTimeArbiter) (i : ℕ)
    → get_elem? (handle_all ms t a (events_of ms a) (sweep_start ms w a)).handled_jumps i
      ≡ Option.map (λ (j : Jump). leb j.remaining_ms ms) (get_elem? a.active_jumps i)
unfolding sweep_start
jump_marks ms t w a i =
    marks-handle_all ms t a (events_of ms a) (sweep_start ms w a) jump_due i
    ∙ ground (arith, (events_of_lem ms a i).2, unmarked a.active_jumps i)

-- After `ms` milliseconds exactly the motions and the jumps with more than `ms` to go are still
-- under way, in their order, each with `ms` less to go.
pub advance_time_under_way :
    (ms : ℕ) (t : Bool) (w : World) (a : RealTimeArbiter)
    → ((advance_time ms t w a).1.active_motions ≡ fly_on ms a.active_motions)
      × ((advance_time ms t w a).1.active_jumps ≡ stay_up ms a.active_jumps)
unfolding advance_time sweep_end
advance_time_under_way ms t w a = (
  advance_motions-fly_on ms _ a.active_motions (motion_marks ms t w a),
  advance_jumps-stay_up ms _ a.active_jumps (jump_marks ms t w a),
)
