-- ===== src/Piece.antt =====
-- include/model/position.h, include/model/piece.h and their .cpp files. A `std::shared_ptr<Piece>`
-- is an address in a heap of pieces, so that a change made through one pointer is seen through all.
pub mod Laws
use ctd_project.Base.{
  ℕ, suc, ◌+◌, Bool, true, false, not, ◌&&◌, Option, none, some, ◌++◌, ◌==◌, if◌then◌else◌, ℤ,
  int_eq, Str, codes, to_string,
}

pub record Position : Type 0 where
  pub row : ℤ
  pub col : ℤ

-- `Position(r, c)`
abbrev pub position : ℤ → ℤ → Position
position r c = record { row = r; col = c }

-- `operator==` and `operator!=`
abbrev pub pos_eq : Position → Position → Bool
pos_eq p q = int_eq p.row q.row && int_eq p.col q.col

abbrev pub pos_ne : Position → Position → Bool
pos_ne p q = not (pos_eq p q)

-- `Position::to_string`
pub position_text : Position → Str
position_text p = codes "(" ++ (to_string p.row ++ (codes ", " ++ (to_string p.col ++ codes ")")))

pub data PieceColor : Type 0 where
  white black : PieceColor

pub data PieceKind : Type 0 where
  king queen rook bishop knight pawn : PieceKind

pub data PieceState : Type 0 where
  idle moving captured : PieceState

abbrev pub color_eq : PieceColor → PieceColor → Bool
color_eq white white = true
color_eq black black = true
color_eq white black = false
color_eq black white = false

abbrev pub is_white : PieceColor → Bool
is_white white = true
is_white black = false

abbrev pub is_king : PieceKind → Bool
is_king king = true
is_king _ = false

abbrev pub is_pawn : PieceKind → Bool
is_pawn pawn = true
is_pawn _ = false

abbrev pub is_knight : PieceKind → Bool
is_knight knight = true
is_knight _ = false

abbrev pub is_captured : PieceState → Bool
is_captured captured = true
is_captured _ = false

-- `KIND_TO_CHAR`
abbrev pub kind_to_char : PieceKind → ℕ
kind_to_char king = b'K'
kind_to_char queen = b'Q'
kind_to_char rook = b'R'
kind_to_char bishop = b'B'
kind_to_char knight = b'N'
kind_to_char pawn = b'P'

-- `CHAR_TO_KIND.find`
unfoldable pub char_to_kind : ℕ → Option PieceKind
char_to_kind c =
    if c == b'K'
    then some king
    else if c == b'Q'
    then some queen
    else if c == b'R'
    then some rook
    else if c == b'B'
    then some bishop
    else if c == b'N'
    then some knight
    else if c == b'P'
    then some pawn
    else none

pub record Piece : Type 0 where
  pub id : Str
  pub color : PieceColor
  pub kind : PieceKind
  pub cell : Position
  pub state : PieceState

-- The constructor: a piece is born idle.
abbrev pub new_piece : Str → PieceColor → PieceKind → Position → Piece
new_piece id color kind cell = record {
  id = id;
  color = color;
  kind = kind;
  cell = cell;
  state = idle;
}

-- A non-null `shared_ptr<Piece>`; a pointer that may be null is an `Option Ref`.
abbrev pub Ref : Type 0
Ref = ℕ

-- The piece objects. Addresses from `next` on are not in use yet.
pub record Heap : Type 0 where
  pub next : Ref
  pub piece : Ref → Piece

-- An assignment to the object behind `r`.
abbrev pub update : Heap → Ref → Piece → Heap
update h r p = record h { piece = λ q. if q == r then p else h.piece q }

-- `std::make_shared<Piece>`
abbrev pub make_shared : Heap → Piece → Heap
make_shared h p = record { next = suc h.next; piece = λ q. if q == h.next then p else h.piece q }

abbrev pub set_state : Heap → Ref → PieceState → Heap
set_state h r s = update h r (record (h.piece r) { state = s })

abbrev pub set_cell : Heap → Ref → Position → Heap
set_cell h r c = update h r (record (h.piece r) { cell = c })

abbrev pub set_kind : Heap → Ref → PieceKind → Heap
set_kind h r k = update h r (record (h.piece r) { kind = k })
