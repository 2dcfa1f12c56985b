-- ===== src/Arrival/Outcomes.antt =====
-- What a motion leads to at its end, case by case.
use ctd_project.Base.{
  ◌≡◌, refl, sym, ap, ◌∙◌, ℕ, ◌+◌, Bool, true, false, none, some, [], ◌∷◌, ◌++◌, arith,
  if◌then◌else◌, codes, Str, not,
}
use ctd_project.Piece.{
  Position, pos_eq, PieceKind, PieceColor, idle, Ref, set_cell, is_captured, is_white, white, black,
}
use ctd_project.Board.{get_piece_at, is_in_bounds}
use ctd_project.Board.Cells.{IsGrid, get_piece_at_outside}
use ctd_project.Board.Laws.{fits, add_piece-Added}
use ctd_project.Motion.{Motion, RealTimeArbiter}
use ctd_project.GameState.{World, add_to_white_score, add_to_black_score}
use ctd_project.Rules.{same_color}
use ctd_project.Coherence.{Off}
use ctd_project.Arrival.{
  Sweep, rest, put_down, come_to_rest, award, block, promote, settle, meet, arrive, still_there,
  jumper_at, get_piece_value, is_escaping,
}
use ctd_project.Arrival.Keeping.{block-after, settle-after}

-- The piece stands idle on the cell, begins its cooldown, and no other cell has changed.
pub record Landed (r : Ref) (cell : Position) (s s' : Sweep) : Type 0 where
  pub cells :
      (q : Position)
      → get_piece_at s'.world.board q
        ≡ (if pos_eq cell q then some r else get_piece_at s.world.board q)
  pub state : (s'.world.heap.piece r).state ≡ idle
  pub cell_of : (s'.world.heap.piece r).cell ≡ cell
  pub resting : s'.cooldowns ≡ s.cooldowns ++ rest r false ∷ []

pub put_down-cells :
    (w : World) (r : Ref) (p q : Position)
    → IsGrid w.board
    → is_in_bounds w.board p ≡ true
    → get_piece_at w.board p ≡ none
    → get_piece_at (put_down w r p).board q
      ≡ (if pos_eq p q then some r else get_piece_at w.board q)
unfolding put_down fits
put_down-cells w r p q g i e =
    ground (arith, (add_piece-Added (set_cell w.heap r p) w.board r g).cells q)

put_down_outside :
    (w : World) (r : Ref) (p q : Position)
    → IsGrid w.board
    → is_in_bounds w.board p ≡ false
    → get_piece_at (put_down w r p).board q ≡ get_piece_at w.board q
unfolding put_down fits
put_down_outside w r p q g out =
    ground (arith, (add_piece-Added (set_cell w.heap r p) w.board r g).cells q)

pub put_down-cell : (w : World) (r : Ref) (p : Position) → ((put_down w r p).heap.piece r).cell ≡ p
unfolding put_down
put_down-cell w r p = ground arith

settle-Landed :
    (r : Ref) (dest : Position) (s : Sweep)
    → IsGrid s.world.board
    → is_in_bounds s.world.board dest ≡ true
    → get_piece_at s.world.board dest ≡ none
    → Landed r dest s (settle r dest s)
unfolding settle come_to_rest
settle-Landed r dest s g i e = record {
  cells = λ q. rw ((settle-after r dest s).board) (put_down-cells s.world r dest q g i e);
  state = ground arith;
  cell_of = (settle-after r dest s).cells r ∙ put_down-cell s.world r dest;
  resting = refl;
}

block-Landed :
    (text : Str) (r : Ref) (src : Position) (s : Sweep)
    → IsGrid s.world.board
    → is_in_bounds s.world.board src ≡ true
    → get_piece_at s.world.board src ≡ none
    → Landed r src s (block text r src s)
unfolding block come_to_rest
block-Landed text r src s g i e = record {
  cells = λ q. rw ((block-after text r src s).board) (put_down-cells s.world r src q g i e);
  state = ground arith;
  cell_of = (block-after text r src s).cells r ∙ put_down-cell s.world r src;
  resting = refl;
}

-- The points that a capture of a piece of kind `k` brings to one side.
abbrev pub points_for : Bool → PieceKind → ℕ
points_for true k = get_piece_value k
points_for false k = 0

-- The piece of kind `k` and what its capture brings to the side `c`.
pub record Scored (c : PieceColor) (k : PieceKind) (w w' : World) : Type 0 where
  pub white_score : w'.game.white_score ≡ w.game.white_score + points_for (is_white c) k
  pub black_score : w'.game.black_score ≡ w.game.black_score + points_for (not (is_white c)) k

pub award-Scored : (c : PieceColor) (k : PieceKind) (w : World) → Scored c k w (award true c k w)
unfolding award add_to_white_score add_to_black_score
award-Scored white k w = record { white_score = refl; black_score = omega arith }
award-Scored black k w = record { white_score = omega arith; black_score = refl }

pub award_over :
    (t : Bool) (c : PieceColor) (k : PieceKind) (w : World)
    → (award t c k w).game.game_over_flag ≡ w.game.game_over_flag
unfolding award add_to_white_score add_to_black_score
award_over t c k w = ground arith

pub award_heap :
    (t : Bool) (c : PieceColor) (k : PieceKind) (w : World) → (award t c k w).heap ≡ w.heap
unfolding award add_to_white_score add_to_black_score
award_heap t c k w = ground arith

pub award_board :
    (t : Bool) (c : PieceColor) (k : PieceKind) (w : World) → (award t c k w).board ≡ w.board
unfolding award add_to_white_score add_to_black_score
award_board t c k w = ground arith

pub promote_game :
    (loud : Bool) (r : Ref) (p : Position) (w : World) → (promote loud r p w).game ≡ w.game
unfolding promote
promote_game loud r p w = ground arith

pub promote_state :
    (loud : Bool) (r q : Ref) (p : Position) (w : World)
    → ((promote loud r p w).heap.piece q).state ≡ (w.heap.piece q).state
unfolding promote
promote_state loud r q p w = ground arith

module _ (ms : ℕ) (t : Bool) (a : RealTimeArbiter) (arrival : ℕ) (m : Motion) (r : Ref) (s : Sweep)
    (alive : is_captured (s.world.heap.piece r).state ≡ false) where
  abbrev ended : Sweep
  ended = arrive ms t a arrival m (some r) s

  pub arrive-meet :
      ended
      ≡ meet t r m.source m.dest
          (jumper_at ms arrival m.dest a.active_jumps)
          (still_there s.world.heap s.handled_motions a.active_motions
            (get_piece_at s.world.board m.dest))
          s
  unfolding arrive
  arrive-meet = simp alive

  arrive-settle :
      jumper_at ms arrival m.dest a.active_jumps ≡ none
      → get_piece_at s.world.board m.dest ≡ none
      → ended ≡ settle r m.dest s
  unfolding meet still_there
  arrive-settle no_jumper e = arrive-meet ∙ rw (no_jumper, e, still_there)

  -- On a grid of the right length: a living piece whose destination is on the board and empty, with nobody in the air above it,
  -- lands there: it stands idle on that cell, begins its cooldown, and no other cell changes.
  pub arrive_empty :
      IsGrid s.world.board
      → is_in_bounds s.world.board m.dest ≡ true
      → jumper_at ms arrival m.dest a.active_jumps ≡ none
      → get_piece_at s.world.board m.dest ≡ none
      → Landed r m.dest s ended
  arrive_empty g i no_jumper e = rw (arrive-settle no_jumper e) (settle-Landed r m.dest s g i e)

  -- On a grid of the right length: a living piece whose destination is off the board, with nobody in the air above it, and that is
  -- on no cell when it arrives, is on no cell afterwards.
  pub arrive_outside :
      IsGrid s.world.board
      → is_in_bounds s.world.board m.dest ≡ false
      → jumper_at ms arrival m.dest a.active_jumps ≡ none
      → Off s.world.board r
      → Off ended.world.board r
  arrive_outside g out no_jumper off q e = off q (
      sym (put_down_outside s.world r m.dest q g out)
      ∙ sym (ap (λ b. get_piece_at b q) (settle-after r m.dest s).board)
      ∙ ap (λ (s' : Sweep). get_piece_at s'.world.board q)
          (sym (arrive-settle no_jumper (get_piece_at_outside s.world.board m.dest out)))
      ∙ e)

  -- On a grid of the right length: a living piece that meets a piece of its own color that stays, with nobody in the air above it,
  -- goes back to where it came from, if that cell is on the board and still free.
  pub arrive_friend :
      (v : Ref)
      → IsGrid s.world.board
      → jumper_at ms arrival m.dest a.active_jumps ≡ none
      → get_piece_at s.world.board m.dest ≡ some v
      → is_escaping s.world.heap (s.world.heap.piece v).id s.handled_motions a.active_motions
        ≡ false
      → same_color s.world.heap v r ≡ true
      → is_in_bounds s.world.board m.source ≡ true
      → get_piece_at s.world.board m.source ≡ none
      → Landed r m.source s ended
  unfolding still_there meet
  arrive_friend v g no_jumper e stays friend i free = rw (arrive-meet) (
      rw (no_jumper, e, stays, friend)
        (block-Landed (codes "Friendly block. ") r m.source s g i free))
