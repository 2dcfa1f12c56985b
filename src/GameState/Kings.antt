-- ===== src/GameState/Kings.antt =====
-- Counting kings, and when the game ends for lack of one.
use ctd_project.Base.{
  ℕ, zero, suc, ◌+◌, ◌≤◌, ◌<◌, ◌≡◌, refl, sym, ◌↔◌, ◌⊎◌, inl, inr, true, false, some, List, [], ◌∷◌,
  ◌++◌, arith, get_elem?, pos, Bool-cases, subst,
}
use native.Mathlib.Decide.{dec_lt}
use ctd_project.Piece.{Position, position, PieceColor, white, black, Heap}
use ctd_project.Board.{Board, is_in_bounds, get_piece_at}
use ctd_project.Board.Cells.{in_bounds_parts, get_piece_at_outside}
use ctd_project.Motion.{Motion, Jump, RealTimeArbiter}
use ctd_project.GameState.{
  World, row_cells, cells_from, board_cells, is_king_of, count_if, count_kings_at, is_live_king,
  count_motion_kings, count_jump_kings, count_kings, check_game_status,
}

abbrev pub In : Position → List Position → Type 0
In a [] = ⊥
In a (x ∷ xs) = (a ≡ x) ⊎ In a xs

In-append_left : (a : Position) (xs ys : List Position) → In a xs → In a (xs ++ ys)
In-append_left a [] ys h = absurd h
In-append_left a (x ∷ xs) ys (inl e) = inl e
In-append_left a (x ∷ xs) ys (inr h) = inr (In-append_left a xs ys h)

In-append_right : (a : Position) (xs ys : List Position) → In a ys → In a (xs ++ ys)
In-append_right a [] ys h = h
In-append_right a (x ∷ xs) ys h = inr (In-append_right a xs ys h)

In-row_cells : (r c n k : ℕ) → c ≤ k → k < c + n → In (position (pos r) (pos k)) (row_cells r c n)
unfolding row_cells
In-row_cells r c zero k low high = absurd (omega arith)
In-row_cells r c (suc n) k low high = elim (dec_lt c k) [
  | yes later ↦ inr (In-row_cells r (c + 1) n k (omega arith) (omega arith))
  | no here ↦ let e : k ≡ c = omega arith in inl (rw e)
]

In-cells_from :
    (w r n i k : ℕ) → r ≤ i → i < r + n → k < w → In (position (pos i) (pos k)) (cells_from w r n)
unfolding cells_from
In-cells_from w r zero i k low high lt = absurd (omega arith)
In-cells_from w r (suc n) i k low high lt = elim (dec_lt r i) [
  | yes later ↦
      In-append_right _ (row_cells r 0 w) _
        (In-cells_from w (r + 1) n i k (omega arith) (omega arith) lt)
  | no here ↦
      let e : i ≡ r = omega arith in
      rw e (
        In-append_left _ _ (cells_from w (r + 1) n)
          (In-row_cells r 0 w k (omega arith) (omega arith)))
]

-- The loops over rows and columns visit every cell of the board.
pub In-board_cells : (b : Board) (p : Position) → is_in_bounds b p ≡ true → In p (board_cells b)
unfolding board_cells
In-board_cells b p i =
    let (e, r, c) = in_bounds_parts b p i in
    subst (λ q. In q (cells_from b.width 0 b.height)) (sym e)
      (In-cells_from b.width 0 b.height _ _ (omega arith) (omega arith) c)

-- A king of the color on the board, under way, or in the air.
pub data Alive (w : World) (a : RealTimeArbiter) (c : PieceColor) : Type 0 where
  on_board : (p : Position) → is_king_of w.heap c (get_piece_at w.board p) ≡ true → Alive w a c
  under_way :
      (i : ℕ) (m : Motion)
      → get_elem? a.active_motions i ≡ some m
      → is_live_king w.heap c m.piece ≡ true
      → Alive w a c
  in_air :
      (i : ℕ) (j : Jump)
      → get_elem? a.active_jumps i ≡ some j
      → is_live_king w.heap c j.piece ≡ true
      → Alive w a c

board_counts :
    (h : Heap) (b : Board) (c : PieceColor) (p : Position) (ps : List Position)
    → In p ps
    → is_king_of h c (get_piece_at b p) ≡ true
    → 0 < count_kings_at h b c ps
unfolding count_kings_at
board_counts h b c p [] i k = absurd i
board_counts h b c p (q ∷ ps) (inl e) k =
    let there : is_king_of h c (get_piece_at b q) ≡ true = rw (← e) k in ground arith
board_counts h b c p (q ∷ ps) (inr i) k = ground (arith, board_counts h b c p ps i k)

motion_counts :
    (h : Heap) (c : PieceColor) (l : List Motion) (i : ℕ) (m : Motion)
    → get_elem? l i ≡ some m
    → is_live_king h c m.piece ≡ true
    → 0 < count_motion_kings h c l
unfolding count_motion_kings
motion_counts h c [] i m at k = absurd (cc at)
motion_counts h c (n ∷ l) zero m at k = ground arith
motion_counts h c (n ∷ l) (suc i) m at k = ground (arith, motion_counts h c l i m at k)

jump_counts :
    (h : Heap) (c : PieceColor) (l : List Jump) (i : ℕ) (j : Jump)
    → get_elem? l i ≡ some j
    → is_live_king h c j.piece ≡ true
    → 0 < count_jump_kings h c l
unfolding count_jump_kings
jump_counts h c [] i j at k = absurd (cc at)
jump_counts h c (n ∷ l) zero j at k = ground arith
jump_counts h c (n ∷ l) (suc i) j at k = ground (arith, jump_counts h c l i j at k)

king_in_bounds :
    (h : Heap) (b : Board) (c : PieceColor) (p : Position)
    → is_king_of h c (get_piece_at b p) ≡ true
    → is_in_bounds b p ≡ true
unfolding is_king_of
king_in_bounds h b c p k = ground (arith, get_piece_at_outside b p)

Alive-counts :
    (w : World) (a : RealTimeArbiter) (c : PieceColor) → Alive w a c → 0 < count_kings w a c
unfolding count_kings
Alive-counts w a c (on_board p k) = omega (
  arith,
  board_counts w.heap w.board c p (board_cells w.board)
      (In-board_cells w.board p (king_in_bounds w.heap w.board c p k)) k,
)
Alive-counts w a c (under_way i m at k) =
    omega (arith, motion_counts w.heap c a.active_motions i m at k)
Alive-counts w a c (in_air i j at k) = omega (arith, jump_counts w.heap c a.active_jumps i j at k)

board_found :
    (h : Heap) (b : Board) (c : PieceColor) (ps : List Position)
    → 0 < count_kings_at h b c ps
    → (p : Position) × (is_king_of h c (get_piece_at b p) ≡ true)
unfolding count_kings_at count_if
board_found h b c [] n = absurd (omega arith)
board_found h b c (q ∷ ps) n = elim (Bool-cases (is_king_of h c (get_piece_at b q))) [
  | inl k ↦ (q, k)
  | inr no_king ↦ board_found h b c ps (rw no_king at n)
]

motion_found :
    (h : Heap) (c : PieceColor) (l : List Motion)
    → 0 < count_motion_kings h c l
    → (i : ℕ) × (m : Motion) × (get_elem? l i ≡ some m) × (is_live_king h c m.piece ≡ true)
unfolding count_motion_kings count_if
motion_found h c [] n = absurd (omega arith)
motion_found h c (x ∷ l) n = elim (Bool-cases (is_live_king h c x.piece)) [
  | inl k ↦ (0, x, refl, k)
  | inr no_king ↦ let (i, m, at, k) = motion_found h c l (rw no_king at n) in (suc i, m, at, k)
]

jump_found :
    (h : Heap) (c : PieceColor) (l : List Jump)
    → 0 < count_jump_kings h c l
    → (i : ℕ) × (j : Jump) × (get_elem? l i ≡ some j) × (is_live_king h c j.piece ≡ true)
unfolding count_jump_kings count_if
jump_found h c [] n = absurd (omega arith)
jump_found h c (x ∷ l) n = elim (Bool-cases (is_live_king h c x.piece)) [
  | inl k ↦ (0, x, refl, k)
  | inr no_king ↦ let (i, j, at, k) = jump_found h c l (rw no_king at n) in (suc i, j, at, k)
]

Alive-of_count :
    (w : World) (a : RealTimeArbiter) (c : PieceColor) → 0 < count_kings w a c → Alive w a c
unfolding count_kings
Alive-of_count w a c h = elim (dec_lt 0 (count_kings_at w.heap w.board c (board_cells w.board))) [
  | yes n ↦ let (p, k) = board_found w.heap w.board c (board_cells w.board) n in on_board p k
  | no none_there ↦ elim (dec_lt 0 (count_motion_kings w.heap c a.active_motions)) [
    | yes n ↦ let (i, m, at, k) = motion_found w.heap c a.active_motions n in under_way i m at k
    | no none_moving ↦
        let (i, j, at, k) = jump_found w.heap c a.active_jumps (omega arith) in in_air i j at k
  ]
]

-- A running game goes on exactly if each side that began with a king has one that is alive: on the
-- board, or under way or in the air and not captured.
pub check_game_status_lem :
    (w : World) (a : RealTimeArbiter)
    → w.game.game_over_flag ≡ false
    → ((check_game_status w a).game.game_over_flag ≡ false) ↔ (
        (0 < w.game.initial_w_kings → Alive w a white)
        × (0 < w.game.initial_b_kings → Alive w a black))
unfolding check_game_status
check_game_status_lem w a on = (
  λ e. (λ n. Alive-of_count w a white (ground arith), λ n. Alive-of_count w a black (ground arith)),
  λ (w_alive, b_alive). ground (
    arith,
    λ (n : 0 < w.game.initial_w_kings). Alive-counts w a white (w_alive n),
    λ (n : 0 < w.game.initial_b_kings). Alive-counts w a black (b_alive n),
  ),
)

-- A game that is over stays over.
pub check_game_status_over :
    (w : World) (a : RealTimeArbiter) → w.game.game_over_flag ≡ true → check_game_status w a ≡ w
unfolding check_game_status
check_game_status_over w a over = ground arith
