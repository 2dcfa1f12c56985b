-- ===== src/Arrival/Captures.antt =====
-- Captures at the end of a motion: on the board, and by a piece in the air.
use ctd_project.Base.{
  ◌≡◌, refl, sym, ap, subst, ◌∙◌, ◌≢◌, ℕ, ◌+◌, Bool, true, false, none, some, arith, if◌then◌else◌,
  not, ◌==◌, ◌||◌,
}
use ctd_project.Piece.{
  Position, pos_eq, PieceColor, PieceState, idle, captured, Ref, Heap, is_captured, is_white,
  is_king, Piece, set_state, color_eq, white, black,
}
use ctd_project.Piece.Laws.{pos_eq_refl}
use ctd_project.Board.{get_piece_at, is_in_bounds}
use ctd_project.Board.Cells.{IsGrid}
use ctd_project.Board.Laws.{remove_piece-Removed, is_in_bounds-SameSize}
use ctd_project.Motion.{Motion, RealTimeArbiter}
use ctd_project.GameState.{GameState, World, set_game_over}
use ctd_project.Rules.{same_color}
use ctd_project.Arrival.{
  Sweep, put_down, come_to_rest, award, capture_below, end_game, after_capture, capture, meet,
  arrive, still_there, jumper_at, is_escaping,
}
use ctd_project.Arrival.Keeping.{capture-after, cleared}
use ctd_project.Arrival.Outcomes.{
  Landed, Scored, points_for, award-Scored, award_over, award_heap, award_board, promote_game,
  promote_state, put_down-cells, put_down-cell, arrive-meet,
}

-- The piece `r` is captured, the board has not changed, and the side `c` has its points.
pub record ShotDown (c : PieceColor) (r : Ref) (s s' : Sweep) : Type 0 where
  pub board : s'.world.board ≡ s.world.board
  pub state : (s'.world.heap.piece r).state ≡ captured
  pub cooldowns : s'.cooldowns ≡ s.cooldowns
  pub scored : Scored c (s.world.heap.piece r).kind s.world s'.world

set_state_self : (h : Heap) (r : Ref) (x : PieceState) → ((set_state h r x).piece r).state ≡ x
set_state_self h r x = ground arith

capture_below-ShotDown :
    (j r : Ref) (dest : Position) (s : Sweep)
    → ShotDown (s.world.heap.piece j).color r s (capture_below true j r dest s)
unfolding capture_below
capture_below-ShotDown j r dest s = record {
  board = award_board true _ _ _;
  state =
      ap (λ (h : Heap). (h.piece r).state) (award_heap true _ _ _)
      ∙ set_state_self s.world.heap r captured;
  cooldowns = refl;
  scored = record {
    white_score = (award-Scored _ _ _).white_score;
    black_score = (award-Scored _ _ _).black_score;
  };
}

-- The piece `r` has taken the place of `v`.
pub record Captured (v r : Ref) (dest : Position) (s s' : Sweep) : Type 0 where
  pub landed : Landed r dest s s'
  pub victim : (s'.world.heap.piece v).state ≡ captured
  pub scored : Scored (s.world.heap.piece r).color (s.world.heap.piece v).kind s.world s'.world
  pub over :
      s'.world.game.game_over_flag
      ≡ (is_king (s.world.heap.piece v).kind || s.world.game.game_over_flag)

cleared-cells :
    (w : World) (dest q : Position)
    → IsGrid w.board
    → get_piece_at (cleared w dest).board q
      ≡ (if pos_eq dest q then none else get_piece_at w.board q)
cleared-cells w dest q g = (remove_piece-Removed w.heap w.board dest g).cells q

cleared-heap :
    (w : World) (dest : Position) (v : Ref)
    → IsGrid w.board
    → get_piece_at w.board dest ≡ some v
    → (cleared w dest).heap ≡ set_state w.heap v captured
cleared-heap w dest v g e = (remove_piece-Removed w.heap w.board dest g).heap ∙ rw e

-- Taking a piece does not change what it and the mover were, but for the victim's state.
cleared-same :
    (w : World) (dest : Position) (v r : Ref)
    → IsGrid w.board
    → get_piece_at w.board dest ≡ some v
    → (((cleared w dest).heap.piece r).color ≡ (w.heap.piece r).color)
      × (((cleared w dest).heap.piece r).kind ≡ (w.heap.piece r).kind)
cleared-same w dest v r g e = ground (arith, cleared-heap w dest v g e)

king_branch :
    (b : Bool) (w : World)
    → let w' = if b then end_game true w else w in
      (w'.game.white_score ≡ w.game.white_score)
      × (w'.game.black_score ≡ w.game.black_score)
      × (w'.game.game_over_flag ≡ (b || w.game.game_over_flag))
      × (w'.heap ≡ w.heap)
unfolding end_game set_game_over
king_branch b w = ground arith

module _ (p v : Piece) (r : Ref) (dest : Position) (w : World) where
  abbrev ended_if_king : World
  ended_if_king = if is_king v.kind then end_game true w else w

  after_capture-Scored : Scored p.color v.kind w (after_capture true p v r dest w)
  unfolding after_capture
  after_capture-Scored =
      let won = award-Scored p.color v.kind ended_if_king in
      let (white_same, black_same, _, _) = king_branch (is_king v.kind) w in
      let same = promote_game true r dest (award true p.color v.kind ended_if_king) in
      record {
        white_score =
            ap (λ (g : GameState). g.white_score) same
            ∙ won.white_score
            ∙ ap (λ n. n + points_for (is_white p.color) v.kind) white_same;
        black_score =
            ap (λ (g : GameState). g.black_score) same
            ∙ won.black_score
            ∙ ap (λ n. n + points_for (not (is_white p.color)) v.kind) black_same;
      }

  after_capture_over :
      (after_capture true p v r dest w).game.game_over_flag
      ≡ (is_king v.kind || w.game.game_over_flag)
  unfolding after_capture
  after_capture_over =
      ap (λ (g : GameState). g.game_over_flag)
        (promote_game true r dest (award true p.color v.kind ended_if_king))
      ∙ award_over true p.color v.kind ended_if_king
      ∙ (king_branch (is_king v.kind) w).2

  after_capture_state :
      (q : Ref) → ((after_capture true p v r dest w).heap.piece q).state ≡ (w.heap.piece q).state
  unfolding after_capture
  after_capture_state q =
      promote_state true r q dest (award true p.color v.kind ended_if_king)
      ∙ ap (λ (h : Heap). (h.piece q).state)
          (award_heap true p.color v.kind ended_if_king ∙ (king_branch (is_king v.kind) w).3)

module _ (v r : Ref) (dest : Position) (s : Sweep) (g : IsGrid s.world.board)
    (e : get_piece_at s.world.board dest ≡ some v) where
  capture-Scored :
      Scored
        (s.world.heap.piece r).color
        (s.world.heap.piece v).kind
        s.world
        (capture true v r dest s).world
  unfolding capture come_to_rest put_down
  capture-Scored =
      let (color, _) = cleared-same s.world dest v r g e in
      let (_, kind) = cleared-same s.world dest v v g e in
      let won = after_capture-Scored _ _ r dest _ in
      rw (← color, ← kind) (record { white_score = won.white_score; black_score = won.black_score })

  capture_over :
      (capture true v r dest s).world.game.game_over_flag
      ≡ (is_king (s.world.heap.piece v).kind || s.world.game.game_over_flag)
  unfolding capture come_to_rest put_down
  capture_over =
      after_capture_over _ _ r dest _
      ∙ ap (λ k. is_king k || s.world.game.game_over_flag) (cleared-same s.world dest v v g e).1

  capture_states :
      (q : Ref)
      → ((capture true v r dest s).world.heap.piece q).state
        ≡ (if q == r then idle else ((cleared s.world dest).heap.piece q).state)
  unfolding capture come_to_rest put_down
  capture_states q = after_capture_state _ _ r dest _ q ∙ ground arith

  cleared_empty : get_piece_at (cleared s.world dest).board dest ≡ none
  cleared_empty = ground (arith, cleared-cells s.world dest dest g, pos_eq_refl dest)

  capture_cells :
      is_in_bounds s.world.board dest ≡ true
      → (q : Position)
      → get_piece_at (capture true v r dest s).world.board q
        ≡ (if pos_eq dest q then some r else get_piece_at s.world.board q)
  capture_cells i q =
      let removed = remove_piece-Removed s.world.heap s.world.board dest g in
      ap (λ b. get_piece_at b q) (capture-after true v r dest s).board
      ∙ put_down-cells (cleared s.world dest) r dest q removed.is_grid
          (is_in_bounds-SameSize removed.size dest ∙ i) cleared_empty
      ∙ ground (arith, cleared-cells s.world dest q g)

  capture-Captured :
      is_in_bounds s.world.board dest ≡ true → v ≢ r → Captured v r dest s (capture true v r dest s)
  capture-Captured i apart = record {
    landed = record {
      cells = capture_cells i;
      state = ground (arith, capture_states r);
      cell_of =
          (capture-after true v r dest s).cells r ∙ put_down-cell (cleared s.world dest) r dest;
      resting = unfold capture come_to_rest in refl;
    };
    victim = ground (arith, capture_states v, cleared-heap s.world dest v g e);
    scored = capture-Scored;
    over = capture_over;
  }

module _ (ms : ℕ) (a : RealTimeArbiter) (arrival : ℕ) (m : Motion) (r : Ref) (s : Sweep)
    (alive : is_captured (s.world.heap.piece r).state ≡ false) where
  -- On a grid of the right length: a living piece that meets an enemy that stays, on a cell of the board and with nobody in the air
  -- above it, takes its place: the enemy is captured, the mover's side gets its value, and the game
  -- is over if the enemy was a king or if it was over before.
  pub arrive_enemy :
      (v : Ref)
      → IsGrid s.world.board
      → is_in_bounds s.world.board m.dest ≡ true
      → jumper_at ms arrival m.dest a.active_jumps ≡ none
      → get_piece_at s.world.board m.dest ≡ some v
      → is_escaping s.world.heap (s.world.heap.piece v).id s.handled_motions a.active_motions
        ≡ false
      → same_color s.world.heap v r ≡ false
      → Captured v r m.dest s (arrive ms true a arrival m (some r) s)
  unfolding still_there meet
  arrive_enemy v g i no_jumper e stays enemy =
      rw (arrive-meet ms true a arrival m r s alive) (
        rw (no_jumper, e, stays, enemy) (capture-Captured v r m.dest s g e i (λ same. differ same)))
    where
      color_refl : (c : PieceColor) → color_eq c c ≡ true
      color_refl white = refl
      color_refl black = refl

      differ : v ≡ r → ⊥
      differ same =
          let own : same_color s.world.heap v r ≡ true =
            subst (λ x. same_color s.world.heap x r ≡ true) (sym same)
              (color_refl (s.world.heap.piece r).color) in
          absurd (cc (enemy, own))

  -- A living piece that arrives below an enemy in the air is captured; the board stays as it is, and the
  -- jumper's side gets the value of the piece.
  pub arrive-ShotDown :
      (j : Ref)
      → jumper_at ms arrival m.dest a.active_jumps ≡ some j
      → same_color s.world.heap j r ≡ false
      → ShotDown (s.world.heap.piece j).color r s (arrive ms true a arrival m (some r) s)
  unfolding meet
  arrive-ShotDown j above enemy =
      rw (arrive-meet ms true a arrival m r s alive)
        (rw (above, enemy) (capture_below-ShotDown j r m.dest s))
