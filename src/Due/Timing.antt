-- ===== src/Due/Timing.antt =====
-- src/realtime/real_time_arbiter.cpp: the arrival times of the events of `advance_time`.
use ctd_project.Base.{
  ℕ, suc, ◌+◌, ◌≡◌, sym, ap, ◌∙◌, Option, none, some, List, [], ◌∷◌, ◌++◌, arith, leb, if_cases,
  get_elem?,
}
use ctd_project.Motion.{Motion, Jump, RealTimeArbiter}
use ctd_project.Due.{
  DueType, motion_due, jump_due, Due, due_motions, due_jumps, insert_due, sort_events, events_of,
}

-- The time that the motion or the jump of an event has to go.
abbrev pub motion_time : Option Motion → Option ℕ
motion_time none = none
motion_time (some m) = some m.remaining_ms

abbrev pub jump_time : Option Jump → Option ℕ
jump_time none = none
jump_time (some j) = some j.remaining_ms

abbrev pub time_to_go : RealTimeArbiter → DueType → ℕ → Option ℕ
time_to_go a motion_due i = motion_time (get_elem? a.active_motions i)
time_to_go a jump_due i = jump_time (get_elem? a.active_jumps i)

-- An event comes when the time of its entry has run out.
abbrev pub IsTimed : RealTimeArbiter → Due → Type 0
IsTimed a e = time_to_go a e.type e.index_in_vec ≡ some e.arrival_time

abbrev pub AllTimed : RealTimeArbiter → List Due → Type 0
AllTimed a [] = Unit {0}
AllTimed a (e ∷ es) = IsTimed a e × AllTimed a es

AllTimed-append :
    (a : RealTimeArbiter) (es fs : List Due) → AllTimed a es → AllTimed a fs → AllTimed a (es ++ fs)
AllTimed-append a [] fs t u = u
AllTimed-append a (e ∷ es) fs (t, ts) u = (t, AllTimed-append a es fs ts u)

AllTimed-insert_due :
    (a : RealTimeArbiter) (e : Due) (es : List Due)
    → IsTimed a e
    → AllTimed a es
    → AllTimed a (insert_due e es)
unfolding insert_due
AllTimed-insert_due a e [] t ts = (t, tt)
AllTimed-insert_due a e (x ∷ es) t (u, ts) =
    if_cases (AllTimed a) (leb e.arrival_time x.arrival_time) (λ _. (t, (u, ts)))
      (λ _. (u, AllTimed-insert_due a e es t ts))

AllTimed-sort_events :
    (a : RealTimeArbiter) (es : List Due) → AllTimed a es → AllTimed a (sort_events es)
unfolding sort_events
AllTimed-sort_events a [] ts = tt
AllTimed-sort_events a (e ∷ es) (t, ts) =
    AllTimed-insert_due a e (sort_events es) t (AllTimed-sort_events a es ts)

due_motions-AllTimed :
    (a : RealTimeArbiter) (ms k : ℕ) (l : List Motion)
    → ((n : ℕ) → get_elem? l n ≡ get_elem? a.active_motions (k + n))
    → AllTimed a (due_motions ms k l)
unfolding due_motions
due_motions-AllTimed a ms k [] same = tt
due_motions-AllTimed a ms k (m ∷ l) same =
    let later : AllTimed a (due_motions ms (suc k) l) =
      due_motions-AllTimed a ms (suc k) l
        (λ n. same (suc n) ∙ ap (get_elem? a.active_motions) (omega arith)) in
    let here : motion_time (get_elem? a.active_motions k) ≡ some m.remaining_ms =
      ap motion_time (ap (get_elem? a.active_motions) (omega arith) ∙ sym (same 0)) in
    if_cases (AllTimed a) (leb m.remaining_ms ms) (λ _. (here, later)) (λ _. later)

due_jumps-AllTimed :
    (a : RealTimeArbiter) (ms k : ℕ) (l : List Jump)
    → ((n : ℕ) → get_elem? l n ≡ get_elem? a.active_jumps (k + n))
    → AllTimed a (due_jumps ms k l)
unfolding due_jumps
due_jumps-AllTimed a ms k [] same = tt
due_jumps-AllTimed a ms k (j ∷ l) same =
    let later : AllTimed a (due_jumps ms (suc k) l) =
      due_jumps-AllTimed a ms (suc k) l
        (λ n. same (suc n) ∙ ap (get_elem? a.active_jumps) (omega arith)) in
    let here : jump_time (get_elem? a.active_jumps k) ≡ some j.remaining_ms =
      ap jump_time (ap (get_elem? a.active_jumps) (omega arith) ∙ sym (same 0)) in
    if_cases (AllTimed a) (leb j.remaining_ms ms) (λ _. (here, later)) (λ _. later)

pub events_of-AllTimed : (ms : ℕ) (a : RealTimeArbiter) → AllTimed a (events_of ms a)
unfolding events_of
events_of-AllTimed ms a =
    let motions = due_motions ms 0 a.active_motions in
    let jumps = due_jumps ms 0 a.active_jumps in
    AllTimed-sort_events a (motions ++ jumps) (
      AllTimed-append a motions jumps
        (due_motions-AllTimed a ms 0 a.active_motions
          (λ n. ap (get_elem? a.active_motions) (omega arith)))
        (due_jumps-AllTimed a ms 0 a.active_jumps
          (λ n. ap (get_elem? a.active_jumps) (omega arith))))
