-- ===== src/Motion.antt =====
-- include/realtime/motion.h and the data of include/realtime/real_time_arbiter.h: pieces that are
-- under way, in the air, or at rest. Durations are milliseconds, never negative.
use ctd_project.Base.{ℕ, Bool, Option, List, []}
use ctd_project.Piece.{Position, Ref}

pub record Motion : Type 0 where
  pub piece : Option Ref
  pub source : Position
  pub dest : Position
  pub remaining_ms : ℕ
  pub total_ms : ℕ
  pub captured_piece : Option Ref

pub record Jump : Type 0 where
  pub piece : Option Ref
  pub spot : Position
  pub remaining_ms : ℕ
  pub total_ms : ℕ

pub record Cooldown : Type 0 where
  pub piece : Option Ref
  pub remaining_ms : ℕ
  pub total_ms : ℕ
  pub is_long_rest : Bool

pub record RealTimeArbiter : Type 0 where
  pub active_motions : List Motion
  pub active_jumps : List Jump
  pub active_cooldowns : List Cooldown

abbrev pub new_arbiter : RealTimeArbiter
new_arbiter = record { active_motions = []; active_jumps = []; active_cooldowns = [] }
