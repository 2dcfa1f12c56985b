-- ===== src/Rules/Geometry.antt =====
-- Which moves `validate_move` lets through.
use ctd_project.Base.{
  ◌↔◌, subst, ℕ, ◌≤◌, ◌<◌, ◌≡◌, refl, ◌≢◌, ◌⊎◌, inl, inr, Bool, true, false, Option, none, some,
  arith, is_some, Bool-cases, Option-cases,
}
use ctd_project.Piece.{
  Position, PieceColor, PieceKind, king, queen, rook, bishop, knight, pawn, Ref, Heap, is_knight,
}
use ctd_project.Board.{Board, get_piece_at}
use ctd_project.Rules.{
  pawn_geometry, is_valid_geometry, is_path_clear, validate_piece, validate_move, own_piece_at,
  distance, same_color,
}
use ctd_project.Rules.Shapes.{Shape, is_valid_geometry-Shape}
use ctd_project.Rules.Path.{IsLine, Finding, clear, blocked, path_walk-Finding, toward}

-- A move that the geometry of a kind other than the knight allows is along a row, a column or a
-- diagonal.
pub is_valid_geometry-IsLine :
    (b : Board) (k : PieceKind) (c : PieceColor) (src dest : Position) (capturing : Bool)
    → k ≢ knight
    → is_valid_geometry b k c src dest capturing ≡ true
    → IsLine src dest
unfolding is_valid_geometry pawn_geometry
is_valid_geometry-IsLine b king c src dest capturing n h = ground arith
is_valid_geometry-IsLine b queen c src dest capturing n h = ground arith
is_valid_geometry-IsLine b rook c src dest capturing n h = ground arith
is_valid_geometry-IsLine b bishop c src dest capturing n h = ground arith
is_valid_geometry-IsLine b knight c src dest capturing n h = absurd (n refl)
is_valid_geometry-IsLine b pawn c src dest capturing n h = ground arith

-- What the rules ask of a move: a piece at the source, no piece of its own color at the
-- destination, a shape that the moves of its kind
-- have, and no piece in between unless it is a knight.
pub record Allowed (h : Heap) (b : Board) (src dest : Position) : Type 0 where
  pub mover : Ref
  pub there : get_piece_at b src ≡ some mover
  pub not_own : (t : Ref) → get_piece_at b dest ≡ some t → same_color h t mover ≡ false
  pub shape :
      Shape b (h.piece mover).kind (h.piece mover).color src dest (is_some (get_piece_at b dest))
  pub free :
      (h.piece mover).kind ≢ knight
      → (n : ℕ) → 1 ≤ n
      → n < distance src dest
      → get_piece_at b (toward src dest n) ≡ none

-- A verdict on the move, with its reason.
pub data Verdict (h : Heap) (b : Board) (src dest : Position) : Option Bool → Type 0 where
  accept : Allowed h b src dest → Verdict h b src dest (some true)
  reject : ¬ Allowed h b src dest → Verdict h b src dest (some false)

knight-cases :
    (k : PieceKind) → ((k ≡ knight) × (is_knight k ≡ true)) ⊎ ((k ≢ knight) × (is_knight k ≡ false))
knight-cases knight = inl (refl, refl)
knight-cases king = inr (λ e. cc, refl)
knight-cases queen = inr (λ e. cc, refl)
knight-cases rook = inr (λ e. cc, refl)
knight-cases bishop = inr (λ e. cc, refl)
knight-cases pawn = inr (λ e. cc, refl)

not_own_iff :
    (h : Heap) (r : Ref) (o : Option Ref)
    → (own_piece_at h r o ≡ false) ↔ ((t : Ref) → o ≡ some t → same_color h t r ≡ false)
unfolding own_piece_at
not_own_iff h r none = (λ e t there. cc, λ all. refl)
not_own_iff h r (some t) = (λ e u there. rw (← some-eq there) e, λ all. all t refl)
  where
    some-eq : {u : Ref} → some t ≡ some u → t ≡ u
    some-eq there = cc

module _ (h : Heap) (b : Board) (src dest : Position) (r : Ref)
    (there : get_piece_at b src ≡ some r) where
  abbrev target : Option Ref
  target = get_piece_at b dest

  abbrev geometry : Bool
  geometry = is_valid_geometry b (h.piece r).kind (h.piece r).color src dest (is_some target)

  Shape-iff :
      (geometry ≡ true) ↔ Shape b (h.piece r).kind (h.piece r).color src dest (is_some target)
  Shape-iff = is_valid_geometry-Shape b src dest (h.piece r).kind (h.piece r).color (is_some target)

  mover-eq : (a : Allowed h b src dest) → a.mover ≡ r
  mover-eq a = cc (a.there, there)

  own-Verdict : own_piece_at h r target ≡ true → ¬ Allowed h b src dest
  own-Verdict own a = cc (
    own,
    (not_own_iff h r target).1 (
        subst (λ m. (t : Ref) → target ≡ some t → same_color h t m ≡ false) (mover-eq a) a.not_own),
  )

  shape-Verdict : geometry ≡ false → ¬ Allowed h b src dest
  shape-Verdict bad a = cc (
    bad,
    Shape-iff.1 (
        subst (λ m. Shape b (h.piece m).kind (h.piece m).color src dest (is_some target))
          (mover-eq a) a.shape),
  )

  path-Verdict :
      own_piece_at h r target ≡ false
      → geometry ≡ true
      → Verdict h b src dest (is_path_clear h b src dest)
  unfolding is_path_clear
  path-Verdict other good = elim (knight-cases (h.piece r).kind) [
    | inl (jumps, e) ↦
        rw (there, is_path_clear, e)
          (accept (record {
            mover = r;
            there = there;
            not_own = (not_own_iff h r target).0 other;
            shape = Shape-iff.0 good;
            free = λ slides. absurd (slides jumps);
          }))
    | inr (slides, e) ↦
        rw (there, is_path_clear, e)
          (on_line slides (
            path_walk-Finding b src dest (
              is_valid_geometry-IsLine b (h.piece r).kind (h.piece r).color src dest _ slides
                good)))
  ]
    where
      on_line :
          {res : Option Bool}
          → (h.piece r).kind ≢ knight
          → Finding b (toward src dest) 1 (distance src dest) res
          → Verdict h b src dest res
      on_line slides (clear empty) = accept (record {
        mover = r;
        there = there;
        not_own = (not_own_iff h r target).0 other;
        shape = Shape-iff.0 good;
        free = λ slides. empty;
      })
      on_line slides (blocked n s low high found) = reject λ a. cc (
        found,
        a.free (λ e. slides (subst (λ m. (h.piece m).kind ≡ knight) (mover-eq a) e)) n low high,
      )

  validate_piece-Verdict : Verdict h b src dest (validate_piece h b src dest (some r))
  unfolding validate_piece
  validate_piece-Verdict = elim (Bool-cases (own_piece_at h r target)) [
    | inl own ↦ rw own (reject (own-Verdict own))
    | inr other ↦ rw other (elim (Bool-cases geometry) [
      | inr bad ↦ rw bad (reject (shape-Verdict bad))
      | inl good ↦ rw good (path-Verdict other good)
    ])
  ]

-- `validate_move` always returns, and says yes exactly to the moves that the rules allow.
pub validate_move-Verdict :
    (h : Heap) (b : Board) (src dest : Position) → Verdict h b src dest (validate_move h b src dest)
unfolding validate_move
validate_move-Verdict h b src dest = elim (Option-cases (get_piece_at b src)) [
  | inl e ↦ rw e (reject λ a. cc (e, a.there))
  | inr (r, e) ↦ rw e (validate_piece-Verdict h b src dest r e)
]
