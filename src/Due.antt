-- ===== src/Due.antt =====
-- src/realtime/real_time_arbiter.cpp: what `advance_time` finds due, and in which order.
pub mod Timing
pub mod Sorting
use ctd_project.Base.{ℕ, suc, ◌+◌, List, [], ◌∷◌, ◌++◌, leb, if◌then◌else◌}
use ctd_project.Motion.{Motion, Jump, RealTimeArbiter}

-- The struct `Event` of `advance_time`.
pub data DueType : Type 0 where
  motion_due jump_due : DueType

pub record Due : Type 0 where
  pub type : DueType
  pub index_in_vec : ℕ
  pub arrival_time : ℕ

pub due_motions : ℕ → ℕ → List Motion → List Due
due_motions ms i [] = []
due_motions ms i (m ∷ rest) =
    let later = due_motions ms (suc i) rest in
    if leb m.remaining_ms ms
    then record { type = motion_due; index_in_vec = i; arrival_time = m.remaining_ms } ∷ later
    else later

pub due_jumps : ℕ → ℕ → List Jump → List Due
due_jumps ms i [] = []
due_jumps ms i (j ∷ rest) =
    let later = due_jumps ms (suc i) rest in
    if leb j.remaining_ms ms
    then record { type = jump_due; index_in_vec = i; arrival_time = j.remaining_ms } ∷ later
    else later

-- `std::sort` by arrival time. It leaves the order of equal times open; here they keep theirs.
pub insert_due : Due → List Due → List Due
insert_due e [] = e ∷ []
insert_due e (x ∷ xs) =
    let later = x ∷ insert_due e xs in
    if leb e.arrival_time x.arrival_time then e ∷ x ∷ xs else later

pub sort_events : List Due → List Due
sort_events [] = []
sort_events (e ∷ es) = insert_due e (sort_events es)

-- The events that the clock reaches, in order of arrival.
pub events_of : ℕ → RealTimeArbiter → List Due
events_of ms a = sort_events (due_motions ms 0 a.active_motions ++ due_jumps ms 0 a.active_jumps)
