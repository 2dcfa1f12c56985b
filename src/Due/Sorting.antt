-- ===== src/Due/Sorting.antt =====
-- The events that the clock reaches: each motion and each jump that is due, once, in time order.
use ctd_project.Base.{
  ℕ, zero, suc, ◌+◌, ◌≤◌, ◌<◌, ◌≡◌, refl, ◌∙◌, Bool, true, false, ◌&&◌, Option, none, some, List,
  [], ◌∷◌, ◌++◌, arith, leb, ◌==◌, if◌then◌else◌, get_elem?,
}
use ctd_project.Motion.{Motion, Jump, RealTimeArbiter}
use ctd_project.Due.{
  DueType, motion_due, jump_due, Due, due_motions, due_jumps, insert_due, sort_events, events_of,
}
use ctd_project.Due.Timing.{AllTimed, events_of-AllTimed}

abbrev pub due_type_eq : DueType → DueType → Bool
due_type_eq motion_due motion_due = true
due_type_eq jump_due jump_due = true
due_type_eq motion_due jump_due = false
due_type_eq jump_due motion_due = false

-- How often entry `i` of the motions, or of the jumps, occurs among the events.
unfoldable pub count_due : DueType → ℕ → List Due → ℕ
count_due t i [] = 0
count_due t i (e ∷ es) =
    (if due_type_eq e.type t && (e.index_in_vec == i) then 1 else 0) + count_due t i es

count_due-append :
    (t : DueType) (i : ℕ) (es fs : List Due)
    → count_due t i (es ++ fs) ≡ count_due t i es + count_due t i fs
unfolding count_due
count_due-append t i [] fs = omega arith
count_due-append t i (e ∷ es) fs = omega (arith, count_due-append t i es fs)

count_due-insert_due :
    (t : DueType) (i : ℕ) (e : Due) (es : List Due)
    → count_due t i (insert_due e es) ≡ count_due t i (e ∷ es)
unfolding count_due insert_due
count_due-insert_due t i e [] = refl
count_due-insert_due t i e (x ∷ es) = ground (arith, count_due-insert_due t i e es)

count_due-sort_events :
    (t : DueType) (i : ℕ) (es : List Due) → count_due t i (sort_events es) ≡ count_due t i es
unfolding count_due sort_events
count_due-sort_events t i [] = refl
count_due-sort_events t i (e ∷ es) =
    count_due-insert_due t i e (sort_events es)
    ∙ (unfold count_due in omega (arith, count_due-sort_events t i es))

-- Whether a motion, or a jump, ends within `ms`.
abbrev pub motion_ends : ℕ → Option Motion → ℕ
motion_ends ms none = 0
motion_ends ms (some m) = if leb m.remaining_ms ms then 1 else 0

abbrev pub jump_ends : ℕ → Option Jump → ℕ
jump_ends ms none = 0
jump_ends ms (some j) = if leb j.remaining_ms ms then 1 else 0

due_motions_before :
    (ms k i : ℕ) (l : List Motion) → i < k → count_due motion_due i (due_motions ms k l) ≡ 0
unfolding count_due due_motions
due_motions_before ms k i [] h = refl
due_motions_before ms k i (m ∷ l) h = ground (arith, due_motions_before ms (suc k) i l)

due_motions_at :
    (ms k n i : ℕ) (l : List Motion)
    → k + n ≡ i
    → count_due motion_due i (due_motions ms k l) ≡ motion_ends ms (get_elem? l n)
unfolding count_due due_motions
due_motions_at ms k n i [] e = refl
due_motions_at ms k zero i (m ∷ l) e = ground (arith, due_motions_before ms (suc k) i l)
due_motions_at ms k (suc n) i (m ∷ l) e = ground (arith, due_motions_at ms (suc k) n i l)

due_jumps_before :
    (ms k i : ℕ) (l : List Jump) → i < k → count_due jump_due i (due_jumps ms k l) ≡ 0
unfolding count_due due_jumps
due_jumps_before ms k i [] h = refl
due_jumps_before ms k i (m ∷ l) h = ground (arith, due_jumps_before ms (suc k) i l)

due_jumps_at :
    (ms k n i : ℕ) (l : List Jump)
    → k + n ≡ i
    → count_due jump_due i (due_jumps ms k l) ≡ jump_ends ms (get_elem? l n)
unfolding count_due due_jumps
due_jumps_at ms k n i [] e = refl
due_jumps_at ms k zero i (m ∷ l) e = ground (arith, due_jumps_before ms (suc k) i l)
due_jumps_at ms k (suc n) i (m ∷ l) e = ground (arith, due_jumps_at ms (suc k) n i l)

no_jump_in_motions : (ms k i : ℕ) (l : List Motion) → count_due jump_due i (due_motions ms k l) ≡ 0
unfolding count_due due_motions
no_jump_in_motions ms k i [] = refl
no_jump_in_motions ms k i (m ∷ l) = ground (arith, no_jump_in_motions ms (suc k) i l)

no_motion_in_jumps : (ms k i : ℕ) (l : List Jump) → count_due motion_due i (due_jumps ms k l) ≡ 0
unfolding count_due due_jumps
no_motion_in_jumps ms k i [] = refl
no_motion_in_jumps ms k i (m ∷ l) = ground (arith, no_motion_in_jumps ms (suc k) i l)

-- The arrival times do not fall along the list.
abbrev pub IsSorted : List Due → Type 0
IsSorted [] = Unit {0}
IsSorted (e ∷ []) = Unit {0}
IsSorted (e ∷ f ∷ es) = (e.arrival_time ≤ f.arrival_time) × IsSorted (f ∷ es)

insert_due-IsSorted : (e : Due) (es : List Due) → IsSorted es → IsSorted (insert_due e es)
unfolding insert_due
insert_due-IsSorted e [] h = tt
insert_due-IsSorted e (x ∷ []) h = ground arith
insert_due-IsSorted e (x ∷ y ∷ es) h = ground (arith, insert_due-IsSorted e (y ∷ es))

sort_events-IsSorted : (es : List Due) → IsSorted (sort_events es)
unfolding sort_events
sort_events-IsSorted [] = tt
sort_events-IsSorted (e ∷ es) = insert_due-IsSorted e (sort_events es) (sort_events-IsSorted es)

-- The events that the clock reaches are listed in the order of their arrival times, and the arrival
-- time of each is the time that its motion or its jump has to go. Each motion and each jump that ends
-- within `ms` is listed exactly once, and no other is listed.
pub events_of_lem :
    (ms : ℕ) (a : RealTimeArbiter) (i : ℕ)
    → IsSorted (events_of ms a)
      × (count_due motion_due i (events_of ms a) ≡ motion_ends ms (get_elem? a.active_motions i))
      × (count_due jump_due i (events_of ms a) ≡ jump_ends ms (get_elem? a.active_jumps i))
      × AllTimed a (events_of ms a)
unfolding events_of
events_of_lem ms a i =
    let motions = due_motions ms 0 a.active_motions in
    let jumps = due_jumps ms 0 a.active_jumps in
    (
      sort_events-IsSorted (motions ++ jumps),
      omega (
        arith,
        count_due-sort_events motion_due i (motions ++ jumps),
        count_due-append motion_due i motions jumps,
        due_motions_at ms 0 i i a.active_motions (omega arith),
        no_motion_in_jumps ms 0 i a.active_jumps,
      ),
      omega (
        arith,
        count_due-sort_events jump_due i (motions ++ jumps),
        count_due-append jump_due i motions jumps,
        due_jumps_at ms 0 i i a.active_jumps (omega arith),
        no_jump_in_motions ms 0 i a.active_motions,
      ),
      events_of-AllTimed ms a,
    )
