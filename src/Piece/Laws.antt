-- ===== src/Piece/Laws.antt =====
-- Positions and piece letters.
use ctd_project.Base.{◌≡◌, refl, ◌↔◌, true, some, ℕ, arith, int_eq_iff}
use ctd_project.Piece.{
  Position, pos_eq, PieceKind, king, queen, rook, bishop, knight, pawn, kind_to_char, char_to_kind,
}

pub pos_eq_iff : (p q : Position) → (pos_eq p q ≡ true) ↔ (p ≡ q)
pos_eq_iff p q = ground (arith, int_eq_iff p.row q.row, int_eq_iff p.col q.col)

pub pos_eq_refl : (p : Position) → pos_eq p p ≡ true
pos_eq_refl p = (pos_eq_iff p p).1 refl

-- Reading back the letter that is written for a kind gives the kind.
pub char_to_kind-kind_to_char : (k : PieceKind) → char_to_kind (kind_to_char k) ≡ some k
unfolding char_to_kind
char_to_kind-kind_to_char king = refl
char_to_kind-kind_to_char queen = refl
char_to_kind-kind_to_char rook = refl
char_to_kind-kind_to_char bishop = refl
char_to_kind-kind_to_char knight = refl
char_to_kind-kind_to_char pawn = refl

pub kind_to_char-char_to_kind :
    (c : ℕ) {k : PieceKind} → char_to_kind c ≡ some k → kind_to_char k ≡ c
unfolding char_to_kind
kind_to_char-char_to_kind c h = ground arith
