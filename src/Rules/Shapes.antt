-- ===== src/Rules/Shapes.antt =====
-- src/rules: the shapes of the moves of chess, written down without the code's tests.
use ctd_project.Base.{
  ℕ, ◌+◌, ◌&&◌, ◌||◌, leb, ◌==◌, ◌↔◌, ◌≡◌, refl, ◌⊎◌, inl, inr, Bool, true, false, ℤ, pos, negsuc,
  ◌+ℤ◌, ◌-ℤ◌, ◌≤ℤ◌, int_laws, arith, int_eq, int_eq_iff, pos_part, neg_part, ap, abs, not,
  if◌then◌else◌,
}
use ctd_project.Piece.{
  Position, PieceColor, white, black, PieceKind, king, queen, rook, bishop, knight, pawn,
}
use ctd_project.Board.{Board, get_height}
use ctd_project.Rules.{pawn_geometry, is_valid_geometry}

-- `b` is `n` after or before `a`.
abbrev pub Apart : ℕ → ℤ → ℤ → Type 0
Apart n a b = (b ≡ a +ℤ pos n) ⊎ (a ≡ b +ℤ pos n)

-- `a` and `b` are at most one apart.
abbrev pub Beside : ℤ → ℤ → Type 0
Beside a b = (b ≤ℤ (a +ℤ pos 1)) × (a ≤ℤ (b +ℤ pos 1))

abbrev pub Straight : Position → Position → Type 0
Straight src dest = (src.row ≡ dest.row) ⊎ (src.col ≡ dest.col)

-- Along a falling or a rising diagonal.
abbrev pub Diagonal : Position → Position → Type 0
Diagonal src dest =
    (src.row +ℤ dest.col ≡ dest.row +ℤ src.col) ⊎ (src.row +ℤ src.col ≡ dest.row +ℤ dest.col)

-- White pawns go up the board, to smaller rows, black ones down.
abbrev pub Ahead : PieceColor → ℕ → ℤ → ℤ → Type 0
Ahead white n a b = a ≡ b +ℤ pos n
Ahead black n a b = b ≡ a +ℤ pos n

-- The second row of a side, seen from its own edge.
abbrev pub OnStartRow : Board → PieceColor → ℤ → Type 0
OnStartRow b white a = a +ℤ pos 2 ≡ pos (get_height b)
OnStartRow b black a = a ≡ pos 1

abbrev pub PawnShape : Board → PieceColor → Position → Position → Bool → Type 0
PawnShape b c src dest true = Ahead c 1 src.row dest.row × Apart 1 src.col dest.col
PawnShape b c src dest false =
    (src.col ≡ dest.col)
    × (Ahead c 1 src.row dest.row ⊎ (OnStartRow b c src.row × Ahead c 2 src.row dest.row))

-- The shapes of the moves of each kind; the last argument says whether a piece is captured.
abbrev pub Shape : Board → PieceKind → PieceColor → Position → Position → Bool → Type 0
Shape b king c src dest capturing = Beside src.row dest.row × Beside src.col dest.col
Shape b rook c src dest capturing = Straight src dest
Shape b bishop c src dest capturing = Diagonal src dest
Shape b queen c src dest capturing = Straight src dest ⊎ Diagonal src dest
Shape b knight c src dest capturing =
    (Apart 2 src.row dest.row × Apart 1 src.col dest.col)
    ⊎ (Apart 1 src.row dest.row × Apart 2 src.col dest.col)
Shape b pawn c src dest capturing = PawnShape b c src dest capturing

iff_and :
    {x y : Bool} {P Q : Type 0} → (x ≡ true) ↔ P → (y ≡ true) ↔ Q → ((x && y) ≡ true) ↔ (P × Q)
iff_and {x = true} {y = true} p q = (λ _. (p.0 refl, q.0 refl), λ _. refl)
iff_and {x = true} {y = false} p q = (λ e. cc, λ r. q.1 r.1)
iff_and {x = false} {y} p q = (λ e. cc, λ r. p.1 r.0)

iff_or : {x y : Bool} {P Q : Type 0} → (x ≡ true) ↔ P → (y ≡ true) ↔ Q → ((x || y) ≡ true) ↔ (P ⊎ Q)
iff_or {x = true} {y} p q = (λ _. inl (p.0 refl), λ _. refl)
iff_or {x = false} {y = true} p q = (λ e. inr (q.0 refl), λ r. refl)
iff_or {x = false} {y = false} p q =
    (λ e. cc, λ r. elim r [ inl a ↦ absurd (cc (p.1 a)) | inr b ↦ q.1 b ])

iff_pawn :
    {p q r t : Bool} {P Q R T : Type 0}
    → (p ≡ true) ↔ P
    → (q ≡ true) ↔ Q
    → (r ≡ true) ↔ R
    → (t ≡ true) ↔ T
    → ((if not p then false else if q then true else r && t) ≡ true) ↔ (P × (Q ⊎ (R × T)))
iff_pawn {p = true} {q = true} a b c d = (λ _. (a.0 refl, inl (b.0 refl)), λ _. refl)
iff_pawn {p = true} {q = false} a b c d =
    let rest = iff_and c d in
    (
      λ e. (a.0 refl, inr (rest.0 e)),
      λ x. elim x.1 [ inl y ↦ absurd (cc (b.1 y)) | inr y ↦ rest.1 y ],
    )
iff_pawn {p = false} a b c d = (λ e. cc, λ x. a.1 x.0)

two_up_iff : (a b : ℤ) → (int_eq (b -ℤ a) (negsuc 0 +ℤ negsuc 0) ≡ true) ↔ (a ≡ b +ℤ pos 2)
unfolding ◌+ℤ◌ ◌-ℤ◌
two_up_iff a b = ground arith

two_down_iff : (a b : ℤ) → (int_eq (b -ℤ a) (pos 1 +ℤ pos 1) ≡ true) ↔ (b ≡ a +ℤ pos 2)
unfolding ◌+ℤ◌ ◌-ℤ◌
two_down_iff a b = ground arith

Beside-iff : (a b : ℤ) → (leb (abs (b -ℤ a)) 1 ≡ true) ↔ Beside a b
unfolding ◌+ℤ◌ ◌-ℤ◌
Beside-iff a b = ground arith

Apart-iff : (n : ℕ) (a b : ℤ) → ((abs (b -ℤ a) == n) ≡ true) ↔ Apart n a b
unfolding ◌+ℤ◌ ◌-ℤ◌
Apart-iff n a b = ground arith

same_iff : (a b : ℤ) → (int_eq (b -ℤ a) (pos 0) ≡ true) ↔ (a ≡ b)
unfolding ◌-ℤ◌
same_iff a b = ground arith

level_iff : (a b : ℤ) → ((abs (b -ℤ a) == 0) ≡ true) ↔ (a ≡ b)
unfolding ◌-ℤ◌
level_iff a b = ground arith

up_iff : (n : ℕ) (a b : ℤ) → (int_eq (b -ℤ a) (negsuc n) ≡ true) ↔ (a ≡ b +ℤ pos (n + 1))
unfolding ◌+ℤ◌ ◌-ℤ◌
up_iff n a b = ground arith

down_iff : (n : ℕ) (a b : ℤ) → (int_eq (b -ℤ a) (pos n) ≡ true) ↔ (b ≡ a +ℤ pos n)
unfolding ◌+ℤ◌ ◌-ℤ◌
down_iff n a b = ground arith

row_iff : (n : ℕ) (a : ℤ) → (int_eq a (pos n -ℤ pos 2) ≡ true) ↔ (a +ℤ pos 2 ≡ pos n)
unfolding ◌+ℤ◌ ◌-ℤ◌
row_iff n a = ground arith

equal_or_opposite_iff : (x y : ℤ) → ((abs x == abs y) ≡ true) ↔ ((x ≡ y) ⊎ (x ≡ pos 0 -ℤ y))
unfolding ◌-ℤ◌
equal_or_opposite_iff x y = ground arith

falling_iff : (a b c d : ℤ) → (b -ℤ a ≡ d -ℤ c) ↔ (a +ℤ d ≡ b +ℤ c)
falling_iff a b c d = (
  λ e. omega (int_laws, ap pos_part e, ap neg_part e),
  λ e. omega (int_laws, ap pos_part e, ap neg_part e),
)

rising_iff : (a b c d : ℤ) → (b -ℤ a ≡ pos 0 -ℤ (d -ℤ c)) ↔ (a +ℤ c ≡ b +ℤ d)
rising_iff a b c d = (
  λ e. omega (int_laws, ap pos_part e, ap neg_part e),
  λ e. omega (int_laws, ap pos_part e, ap neg_part e),
)

-- The differences of the rows and of the columns.
Diagonal-iff :
    (src dest : Position)
    → ((abs (dest.row -ℤ src.row) == abs (dest.col -ℤ src.col)) ≡ true) ↔ Diagonal src dest
Diagonal-iff src dest =
    let e = equal_or_opposite_iff (dest.row -ℤ src.row) (dest.col -ℤ src.col) in
    let f = falling_iff src.row dest.row src.col dest.col in
    let r = rising_iff src.row dest.row src.col dest.col in
    (
      λ t. elim (e.0 t) [ inl a ↦ inl (f.0 a) | inr b ↦ inr (r.0 b) ],
      λ d. e.1 (elim d [ inl a ↦ inl (f.1 a) | inr b ↦ inr (r.1 b) ]),
    )

Straight-iff :
    (src dest : Position)
    → ((int_eq (dest.row -ℤ src.row) (pos 0) || (abs (dest.col -ℤ src.col) == 0)) ≡ true)
      ↔ Straight src dest
Straight-iff src dest = iff_or (same_iff src.row dest.row) (level_iff src.col dest.col)

module _ (b : Board) (src dest : Position) where
  white_pawn_iff :
      (capturing : Bool)
      → (pawn_geometry b white src dest capturing ≡ true) ↔ PawnShape b white src dest capturing
  unfolding pawn_geometry
  white_pawn_iff true = iff_and (up_iff 0 src.row dest.row) (Apart-iff 1 src.col dest.col)
  white_pawn_iff false =
      iff_pawn (level_iff src.col dest.col) (up_iff 0 src.row dest.row)
        (row_iff (get_height b) src.row) (two_up_iff src.row dest.row)

  black_pawn_iff :
      (capturing : Bool)
      → (pawn_geometry b black src dest capturing ≡ true) ↔ PawnShape b black src dest capturing
  unfolding pawn_geometry
  black_pawn_iff true = iff_and (down_iff 1 src.row dest.row) (Apart-iff 1 src.col dest.col)
  black_pawn_iff false =
      iff_pawn (level_iff src.col dest.col) (down_iff 1 src.row dest.row)
        (int_eq_iff src.row (pos 1)) (two_down_iff src.row dest.row)

  -- The geometry test says yes exactly to the shapes of the moves of each kind.
  pub is_valid_geometry-Shape :
      (k : PieceKind) (c : PieceColor) (capturing : Bool)
      → (is_valid_geometry b k c src dest capturing ≡ true) ↔ Shape b k c src dest capturing
  unfolding is_valid_geometry
  is_valid_geometry-Shape king c t =
      iff_and (Beside-iff src.row dest.row) (Beside-iff src.col dest.col)
  is_valid_geometry-Shape queen c t = iff_or (Straight-iff src dest) (Diagonal-iff src dest)
  is_valid_geometry-Shape rook c t = Straight-iff src dest
  is_valid_geometry-Shape bishop c t = Diagonal-iff src dest
  is_valid_geometry-Shape knight c t =
      iff_or (iff_and (Apart-iff 2 src.row dest.row) (Apart-iff 1 src.col dest.col))
        (iff_and (Apart-iff 1 src.row dest.row) (Apart-iff 2 src.col dest.col))
  is_valid_geometry-Shape pawn white t = white_pawn_iff t
  is_valid_geometry-Shape pawn black t = black_pawn_iff t
