-- ===== src/Arrival/Keeping.antt =====
-- The end of a motion moves its own piece only, and the handled marks are left alone.
use ctd_project.Base.{
  ◌≡◌, refl, ℕ, Bool, true, false, Option, none, some, arith, Bool-cases, inl, inr, Str,
  if◌then◌else◌, codes,
}
use ctd_project.Piece.{Position, PieceKind, PieceColor, Ref, is_captured, is_king}
use ctd_project.Board.{get_piece_at, remove_piece}
use ctd_project.Motion.{Motion, RealTimeArbiter}
use ctd_project.MessageBus.{Event}
use ctd_project.GameState.{World, emit, set_game_over, add_to_white_score, add_to_black_score}
use ctd_project.Rules.{same_color}
use ctd_project.Coherence.{
  Harmless, Harmless-trans, Moves, Harmless-Moves, Moves-Harmless, add_piece-Coherent,
  add_piece-Off, remove_piece-Coherent, remove_piece-Off,
}
use ctd_project.Arrival.{
  Sweep, put_down, come_to_rest, award, is_ref, land_jump, block, capture_below, promote, end_game,
  after_capture, capture, settle, meet, arrive,
}

award-Harmless :
    (t : Bool) (c : PieceColor) (k : PieceKind) (w : World) → Harmless w (award t c k w)
unfolding award add_to_white_score add_to_black_score
award-Harmless t c k w = record { board = ground arith; cells = λ r. ground arith }

promote-Harmless :
    (loud : Bool) (r : Ref) (p : Position) (w : World) → Harmless w (promote loud r p w)
unfolding promote
promote-Harmless loud r p w = record { board = ground arith; cells = λ q. ground arith }

end_game-Harmless : (t : Bool) (w : World) → Harmless w (end_game t w)
unfolding end_game set_game_over
end_game-Harmless t w = record { board = ground arith; cells = λ q. ground arith }

put_down-Moves : (w : World) (r : Ref) (p : Position) → Moves r w (put_down w r p)
unfolding put_down
put_down-Moves w r p = record {
  coherent = λ c off. add_piece-Coherent w.heap w.board c r p off;
  off = λ c off q n far. add_piece-Off w.heap w.board c r q p n far;
}

come_to_rest-Harmless :
    (s : Sweep) (r : Ref) (long : Bool) → Harmless s.world (come_to_rest s r long).world
unfolding come_to_rest
come_to_rest-Harmless s r long = record { board = refl; cells = λ q. ground arith }

emit-Harmless : (w : World) (e : Event) → Harmless w (emit w e)
emit-Harmless w e = record { board = refl; cells = λ q. refl }

abbrev moved_down : Ref → Position → Sweep → Sweep
moved_down r dest s = record s { world = put_down s.world r dest }

-- The world in which the cell has been emptied by a capture.
abbrev pub cleared : World → Position → World
cleared w dest = let (h, b) = remove_piece w.heap w.board dest in record w { heap = h; board = b }

-- What the end of a motion or of a jump may do to the loop's state.
pub record Keeps (r : Ref) (s s' : Sweep) : Type 0 where
  pub moves : Moves r s.world s'.world
  pub handled_motions : s'.handled_motions ≡ s.handled_motions
  pub handled_jumps : s'.handled_jumps ≡ s.handled_jumps

pub land_jump-Harmless :
    (s : Sweep) (p : Position) (o : Option Ref)
    → Harmless s.world (land_jump s p o).world
      × ((land_jump s p o).handled_motions ≡ s.handled_motions)
      × ((land_jump s p o).handled_jumps ≡ s.handled_jumps)
unfolding land_jump come_to_rest
land_jump-Harmless s p none = (record { board = refl; cells = λ q. refl }, refl, refl)
land_jump-Harmless s p (some r) = elim (Bool-cases (is_ref r (get_piece_at s.world.board p))) [
  | inl here ↦ rw here (record { board = refl; cells = λ q. ground arith }, refl, refl)
  | inr gone ↦ rw gone (record { board = refl; cells = λ q. refl }, refl, refl)
]

pub block-after :
    (text : Str) (r : Ref) (src : Position) (s : Sweep)
    → Harmless (put_down s.world r src) (block text r src s).world
unfolding block come_to_rest
block-after text r src s = record { board = refl; cells = λ q. ground arith }

block-Keeps : (text : Str) (r : Ref) (src : Position) (s : Sweep) → Keeps r s (block text r src s)
unfolding block come_to_rest
block-Keeps text r src s = record {
  moves = Moves-Harmless (put_down-Moves s.world r src) (block-after text r src s);
  handled_motions = refl;
  handled_jumps = refl;
}

capture_below-Keeps :
    (t : Bool) (j r : Ref) (dest : Position) (s : Sweep) → Keeps r s (capture_below t j r dest s)
unfolding capture_below
capture_below-Keeps t j r dest s = record {
  moves = Harmless-Moves r (
      Harmless-trans (record { board = refl; cells = λ q. ground arith }) (award-Harmless t _ _ _));
  handled_motions = refl;
  handled_jumps = refl;
}

pub settle-after :
    (r : Ref) (dest : Position) (s : Sweep)
    → Harmless (put_down s.world r dest) (settle r dest s).world
unfolding settle
settle-after r dest s =
    Harmless-trans (come_to_rest-Harmless (moved_down r dest s) r false)
      (Harmless-trans (emit-Harmless _ _) (promote-Harmless false r dest _))

settle-Keeps : (r : Ref) (dest : Position) (s : Sweep) → Keeps r s (settle r dest s)
unfolding settle
settle-Keeps r dest s = record {
  moves = Moves-Harmless (put_down-Moves s.world r dest) (settle-after r dest s);
  handled_motions = unfold come_to_rest in refl;
  handled_jumps = unfold come_to_rest in refl;
}

remove_piece-Moves :
    (w : World) (r : Ref) (dest : Position) {v : World} → Moves r (cleared w dest) v → Moves r w v
remove_piece-Moves w r dest m = record {
  coherent = λ c off.
      m.coherent (remove_piece-Coherent w.heap w.board c dest)
        (remove_piece-Off w.heap w.board c dest r off);
  off = λ c off q n far.
      m.off (remove_piece-Coherent w.heap w.board c dest)
        (remove_piece-Off w.heap w.board c dest r off) q n
        (remove_piece-Off w.heap w.board c dest q far);
}

king_end-Harmless :
    (t : Bool) (k : PieceKind) (w : World) → Harmless w (if is_king k then end_game t w else w)
king_end-Harmless t k w = elim (Bool-cases (is_king k)) [
  | inl e ↦ rw e (end_game-Harmless t w)
  | inr e ↦ rw e (record { board = refl; cells = λ q. refl })
]

pub capture-after :
    (t : Bool) (v r : Ref) (dest : Position) (s : Sweep)
    → Harmless (put_down (cleared s.world dest) r dest) (capture t v r dest s).world
unfolding capture after_capture
capture-after t v r dest s =
    Harmless-trans
      (come_to_rest-Harmless (moved_down r dest (record s { world = cleared s.world dest })) r
        false)
      (Harmless-trans (emit-Harmless _ _) (
        Harmless-trans (king_end-Harmless t _ _)
          (Harmless-trans (award-Harmless t _ _ _) (promote-Harmless true r dest _))))

capture-Keeps :
    (t : Bool) (v r : Ref) (dest : Position) (s : Sweep) → Keeps r s (capture t v r dest s)
unfolding capture
capture-Keeps t v r dest s = record {
  moves =
      remove_piece-Moves s.world r dest (
        Moves-Harmless (put_down-Moves (cleared s.world dest) r dest) (capture-after t v r dest s));
  handled_motions = unfold come_to_rest in refl;
  handled_jumps = unfold come_to_rest in refl;
}

meet-Keeps :
    (t : Bool) (r : Ref) (src dest : Position) (jumper at_dest : Option Ref) (s : Sweep)
    → Keeps r s (meet t r src dest jumper at_dest s)
unfolding meet
meet-Keeps t r src dest (some j) at_dest s = elim (Bool-cases (same_color s.world.heap j r)) [
  | inl e ↦ rw e (block-Keeps (codes "Friendly block mid-air. ") r src s)
  | inr e ↦ rw e (capture_below-Keeps t j r dest s)
]
meet-Keeps t r src dest none (some v) s = elim (Bool-cases (same_color s.world.heap v r)) [
  | inl e ↦ rw e (block-Keeps (codes "Friendly block. ") r src s)
  | inr e ↦ rw e (capture-Keeps t v r dest s)
]
meet-Keeps t r src dest none none s = settle-Keeps r dest s

-- Whatever a motion meets at its end, only the piece that arrives comes to the board.
pub arrive-Keeps :
    (ms : ℕ) (t : Bool) (a : RealTimeArbiter) (arrival : ℕ) (m : Motion) (r : Ref) (s : Sweep)
    → Keeps r s (arrive ms t a arrival m (some r) s)
unfolding arrive
arrive-Keeps ms t a arrival m r s = elim (Bool-cases (is_captured (s.world.heap.piece r).state)) [
  | inl e ↦ rw e (record {
    moves = Harmless-Moves r (record { board = refl; cells = λ q. refl });
    handled_motions = refl;
    handled_jumps = refl;
  })
  | inr e ↦ rw e (meet-Keeps t r m.source m.dest _ _ s)
]
