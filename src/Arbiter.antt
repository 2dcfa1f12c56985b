-- ===== src/Arbiter.antt =====
-- src/realtime/real_time_arbiter.cpp: starting moves and jumps, the clock, and the queries.
pub mod Cooldowns
pub mod Starting
pub mod Handled
pub mod Flight
pub mod Invariant
use ctd_project.Base.{
  ℕ, ◌+◌, ◌-◌, ◌/◌, Bool, true, false, not, ◌&&◌, ◌||◌, Option, none, some, List, [], ◌∷◌, ◌++◌,
  leb, ltb, ◌==◌, if◌then◌else◌, is_some, codes, str_eq, get_elem?, set, replicate, length,
}
use ctd_project.Piece.{Position, moving, Ref, Heap, set_state}
use ctd_project.Board.{get_piece_at, clear_cell}
use ctd_project.MessageBus.{Event, sound}
use ctd_project.Motion.{Motion, Jump, Cooldown, RealTimeArbiter}
use ctd_project.GameState.{World, emit}
use ctd_project.Rules.{same_color}
use ctd_project.Due.{DueType, motion_due, jump_due, Due, events_of}
use ctd_project.Arrival.{Sweep, land_jump, arrive}

-- `if (piece) piece->state = MOVING`
mark_moving : Heap → Option Ref → Heap
mark_moving h none = h
mark_moving h (some r) = set_state h r moving

-- The piece at the destination, unless it is of the color of the piece that moves.
victim_of : Heap → Option Ref → Option Ref → Option Ref
victim_of h (some r) (some v) = if same_color h v r then none else some v
victim_of h none (some v) = some v
victim_of h piece none = none

-- `has_board` says whether the board is passed; it is the one of the world.
unfoldable pub start_motion :
    World
    → RealTimeArbiter
    → Option Ref
    → Position
    → Position
    → ℕ
    → (has_board : Bool) → World × RealTimeArbiter
unfolding mark_moving victim_of
start_motion w a piece src dst total_ms has_board =
    let h = mark_moving w.heap piece in
    let victim = if has_board then victim_of h piece (get_piece_at w.board dst) else none in
    let motion : Motion = record {
      piece = piece;
      source = src;
      dest = dst;
      remaining_ms = total_ms;
      total_ms = total_ms;
      captured_piece = victim;
    } in
    let board = if has_board then clear_cell w.board src else w.board in
    (
      emit (record w { heap = h; board = board }) (sound (codes "move")),
      record a { active_motions = a.active_motions ++ motion ∷ [] },
    )

unfoldable pub start_jump :
    World → RealTimeArbiter → Option Ref → Position → ℕ → World × RealTimeArbiter
unfolding mark_moving
start_jump w a piece spot total_ms =
    let jump : Jump = record {
      piece = piece;
      spot = spot;
      remaining_ms = total_ms;
      total_ms = total_ms;
    } in
    (
      emit (record w { heap = mark_moving w.heap piece }) (sound (codes "jump")),
      record a { active_jumps = a.active_jumps ++ jump ∷ [] },
    )

-- A cooldown ends when nothing remains of it: `remaining_ms - ms <= 0`.
pub tick_cooldowns : ℕ → List Cooldown → List Cooldown
tick_cooldowns ms [] = []
tick_cooldowns ms (c ∷ cs) =
    let rest = tick_cooldowns ms cs in
    if leb c.remaining_ms ms then rest else record c { remaining_ms = c.remaining_ms - ms } ∷ rest

-- One event of the loop: the entry is marked as handled, then it ends.
end_motion : ℕ → Bool → RealTimeArbiter → ℕ → Option Motion → Sweep → Sweep
end_motion ms tracked a arrival none s = s
end_motion ms tracked a arrival (some m) s = arrive ms tracked a arrival m m.piece s

end_jump : Option Jump → Sweep → Sweep
end_jump none s = s
end_jump (some j) s = land_jump s j.spot j.piece

handle_type : DueType → ℕ → Bool → RealTimeArbiter → ℕ → ℕ → Sweep → Sweep
unfolding end_motion end_jump
handle_type jump_due ms tracked a i arrival s =
    end_jump (get_elem? a.active_jumps i) (record s { handled_jumps = set s.handled_jumps i true })
handle_type motion_due ms tracked a i arrival s =
    end_motion ms tracked a arrival (get_elem? a.active_motions i)
      (record s { handled_motions = set s.handled_motions i true })

pub handle : ℕ → Bool → RealTimeArbiter → Due → Sweep → Sweep
unfolding handle_type
handle ms tracked a e s = handle_type e.type ms tracked a e.index_in_vec e.arrival_time s

pub handle_all : ℕ → Bool → RealTimeArbiter → List Due → Sweep → Sweep
handle_all ms tracked a [] s = s
handle_all ms tracked a (e ∷ es) s = handle_all ms tracked a es (handle ms tracked a e s)

-- The motions that are not handled go on. One that is about to capture is heard every 380 ms.
still_due : ℕ → Motion → Bool
still_due ms m =
    let new_time = m.remaining_ms - ms in
    is_some m.captured_piece && (ltb 0 new_time && not ((m.remaining_ms / 380) == (new_time / 380)))

pub advance_motions : ℕ → List Bool → List Motion → List Motion
advance_motions ms (done ∷ handled) (m ∷ rest) =
    let later = advance_motions ms handled rest in
    if done then later else record m { remaining_ms = m.remaining_ms - ms } ∷ later
advance_motions ms [] rest = []
advance_motions ms (done ∷ handled) [] = []

unfoldable pub capture_sounds : ℕ → List Bool → List Motion → List Event
unfolding still_due
capture_sounds ms (done ∷ handled) (m ∷ rest) =
    let later = capture_sounds ms handled rest in
    if not done && still_due ms m then sound (codes "capture") ∷ later else later
capture_sounds ms [] rest = []
capture_sounds ms (done ∷ handled) [] = []

pub advance_jumps : ℕ → List Bool → List Jump → List Jump
advance_jumps ms (done ∷ handled) (j ∷ rest) =
    let later = advance_jumps ms handled rest in
    if done then later else record j { remaining_ms = j.remaining_ms - ms } ∷ later
advance_jumps ms [] rest = []
advance_jumps ms (done ∷ handled) [] = []

-- The state in which the loop starts: nothing is handled yet.
pub sweep_start : ℕ → World → RealTimeArbiter → Sweep
sweep_start ms w a = record {
  world = w;
  cooldowns = tick_cooldowns ms a.active_cooldowns;
  handled_motions = replicate (length a.active_motions) false;
  handled_jumps = replicate (length a.active_jumps) false;
}

pub sweep_end : ℕ → RealTimeArbiter → Sweep → World × RealTimeArbiter
sweep_end ms a s = (
  record (s.world) {
    events = s.world.events ++ capture_sounds ms s.handled_motions a.active_motions;
  },
  record {
    active_motions = advance_motions ms s.handled_motions a.active_motions;
    active_jumps = advance_jumps ms s.handled_jumps a.active_jumps;
    active_cooldowns = s.cooldowns;
  },
)

-- `tracked` says whether a game state is passed; its board is the one of the world.
pub advance_time : ℕ → (tracked : Bool) → World → RealTimeArbiter → World × RealTimeArbiter
advance_time ms tracked w a =
    sweep_end ms a (handle_all ms tracked a (events_of ms a) (sweep_start ms w a))

abbrev pub is_moving : RealTimeArbiter → Bool
is_moving a = elim a.active_motions [ [] ↦ false | _ ↦ true ]

-- Pieces are told apart by their ids.
abbrev pub same_id : Heap → Ref → Option Ref → Bool
same_id h r none = false
same_id h r (some q) = str_eq (h.piece q).id (h.piece r).id

any_motion_of : Heap → Ref → List Motion → Bool
any_motion_of h r [] = false
any_motion_of h r (m ∷ ms) = same_id h r m.piece || any_motion_of h r ms

unfoldable pub is_piece_moving : Heap → RealTimeArbiter → Option Ref → Bool
unfolding any_motion_of
is_piece_moving h a none = false
is_piece_moving h a (some r) = any_motion_of h r a.active_motions

-- The first cooldown of a piece.
unfoldable pub cooldown_of : Heap → Ref → List Cooldown → Option Cooldown
cooldown_of h r [] = none
cooldown_of h r (c ∷ cs) = if same_id h r c.piece then some c else cooldown_of h r cs

unfoldable pub is_piece_cooling_down : Heap → RealTimeArbiter → Option Ref → Bool
is_piece_cooling_down h a none = false
is_piece_cooling_down h a (some r) = is_some (cooldown_of h r a.active_cooldowns)

unfoldable pub is_piece_on_long_rest : Heap → RealTimeArbiter → Option Ref → Bool
is_piece_on_long_rest h a none = false
is_piece_on_long_rest h a (some r) = elim (cooldown_of h r a.active_cooldowns) [
  | none ↦ false
  | some c ↦ c.is_long_rest
]

unfoldable pub get_piece_cooldown_remaining_ms : Heap → RealTimeArbiter → Option Ref → ℕ
get_piece_cooldown_remaining_ms h a none = 0
get_piece_cooldown_remaining_ms h a (some r) = elim (cooldown_of h r a.active_cooldowns) [
  | none ↦ 0
  | some c ↦ c.remaining_ms
]

unfoldable pub get_piece_cooldown_total_ms : Heap → RealTimeArbiter → Option Ref → ℕ
get_piece_cooldown_total_ms h a none = 0
get_piece_cooldown_total_ms h a (some r) = elim (cooldown_of h r a.active_cooldowns) [
  | none ↦ 0
  | some c ↦ c.total_ms
]

unfoldable pub reset : RealTimeArbiter → RealTimeArbiter
reset a = record { active_motions = []; active_jumps = []; active_cooldowns = [] }

unfoldable pub set_active_cooldowns : RealTimeArbiter → List Cooldown → RealTimeArbiter
set_active_cooldowns a cds = record a { active_cooldowns = cds }

unfoldable pub set_active_motions : RealTimeArbiter → List Motion → RealTimeArbiter
set_active_motions a motions = record a { active_motions = motions }

unfoldable pub set_active_jumps : RealTimeArbiter → List Jump → RealTimeArbiter
set_active_jumps a jumps = record a { active_jumps = jumps }
