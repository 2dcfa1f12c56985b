-- ===== src/Client/Reading.antt =====
-- src/network/socket_client.cpp: what the client reads in the text of a state. There is no result
-- where `std::stoi` throws, which ends the program, and for numbers that the server does not send: a
-- duration or a score below zero, a number that is no value of an enumeration.
use ctd_project.Base.{
  ℕ, Bool, true, false, Option, none, some, List, [], ◌∷◌, ◌++◌, ◌>>=◌, ℤ, pos, negsuc, Str, codes,
  map, get_elem?,
}
use ctd_project.Piece.{
  Position, position, PieceColor, white, black, PieceKind, king, queen, rook, bishop, knight, pawn,
  PieceState, idle, moving, captured, Piece,
}
use ctd_project.Text.{all_rounds, cut, find, before_of, drop}
use ctd_project.Json.{extract_string, extract_int, extract_bool}

-- The text from `start`, of the given length, to the next `stop`.
unfoldable pub section : (start stop : Str) → ℕ → Str → Option Str
section start stop n s = do
  from ← find start s
  inner ← before_of (cut stop from)
  some (drop n inner)

-- The text between the next `opening` and the `closing` behind it, and what follows.
unfoldable pub next_span : (opening closing : ℕ) → Str → Option (Str × Str)
next_span opening closing s = do
  from ← find (opening ∷ []) s
  span ← cut (closing ∷ []) (drop 1 from)
  some (span.0, drop 1 span.1)

-- The loops `while (true)` over an array.
unfoldable pub spans : (opening closing : ℕ) → Str → List Str
spans opening closing s = all_rounds (next_span opening closing) s

-- The objects of an array, with their braces.
unfoldable pub objects : Str → List Str
objects s = map (λ inner. b'{' ∷ (inner ++ b'}' ∷ [])) (spans b'{' b'}' s)

abbrev pub natural : ℤ → Option ℕ
natural (pos n) = some n
natural (negsuc n) = none

-- The value of an enumeration that has the number.
enum_of : {A : Type 0} → List A → ℤ → Option A
enum_of values (pos n) = get_elem? values n
enum_of values (negsuc n) = none

unfoldable pub kind_of : ℤ → Option PieceKind
unfolding enum_of
kind_of z = enum_of (king ∷ queen ∷ rook ∷ bishop ∷ knight ∷ pawn ∷ []) z

unfoldable pub color_of : ℤ → Option PieceColor
unfolding enum_of
color_of z = enum_of (white ∷ black ∷ []) z

unfoldable pub state_of : ℤ → Option PieceState
unfolding enum_of
state_of z = enum_of (idle ∷ moving ∷ captured ∷ []) z

abbrev pub read_natural : Str → Str → Option ℕ
read_natural s key = do z ← extract_int s key; natural z

pub record CooldownEntry : Type 0 where
  pub remaining : ℕ
  pub total : ℕ
  pub is_long_rest : Bool

pub record PieceEntry : Type 0 where
  pub piece : Piece
  pub cooldown : Option CooldownEntry

unfoldable pub read_cooldown : Str → Option CooldownEntry
read_cooldown s = do
  remaining ← read_natural s (codes "cooldown_remaining")
  total ← read_natural s (codes "cooldown_total")
  some (record {
    remaining = remaining;
    total = total;
    is_long_rest = extract_bool s (codes "is_long_rest");
  })

-- The cooldown is read only if there is one.
unfoldable pub read_cooldown_if : Bool → Str → Option (Option CooldownEntry)
read_cooldown_if false s = some none
read_cooldown_if true s = do c ← read_cooldown s; some (some c)

unfoldable pub read_piece : Str → Option PieceEntry
read_piece s = do
  kind_number ← extract_int s (codes "kind")
  color_number ← extract_int s (codes "color")
  row ← extract_int s (codes "row")
  col ← extract_int s (codes "col")
  state_number ← extract_int s (codes "state")
  kind ← kind_of kind_number
  color ← color_of color_number
  state ← state_of state_number
  cooldown ← read_cooldown_if (extract_bool s (codes "on_cooldown")) s
  some (record {
    piece = record {
      id = extract_string s (codes "id");
      color = color;
      kind = kind;
      cell = position row col;
      state = state;
    };
    cooldown = cooldown;
  })

-- A motion names its pieces by their ids.
pub record MotionEntry : Type 0 where
  pub piece_id : Str
  pub source : Position
  pub dest : Position
  pub total_ms : ℕ
  pub remaining_ms : ℕ
  pub victim_id : Str

unfoldable pub read_motion : Str → Option MotionEntry
read_motion s = do
  src_row ← extract_int s (codes "src_row")
  src_col ← extract_int s (codes "src_col")
  dest_row ← extract_int s (codes "dest_row")
  dest_col ← extract_int s (codes "dest_col")
  total_ms ← read_natural s (codes "total_ms")
  remaining_ms ← read_natural s (codes "remaining_ms")
  some (record {
    piece_id = extract_string s (codes "piece_id");
    source = position src_row src_col;
    dest = position dest_row dest_col;
    total_ms = total_ms;
    remaining_ms = remaining_ms;
    victim_id = extract_string s (codes "victim_id");
  })

pub record JumpEntry : Type 0 where
  pub piece_id : Str
  pub spot : Position
  pub total_ms : ℕ
  pub remaining_ms : ℕ

unfoldable pub read_jump : Str → Option JumpEntry
read_jump s = do
  row ← extract_int s (codes "row")
  col ← extract_int s (codes "col")
  total_ms ← read_natural s (codes "total_ms")
  remaining_ms ← read_natural s (codes "remaining_ms")
  some (record {
    piece_id = extract_string s (codes "piece_id");
    spot = position row col;
    total_ms = total_ms;
    remaining_ms = remaining_ms;
  })

-- Every element is read, or there is no result.
unfoldable pub read_all : {A : Type 0} → (Str → Option A) → List Str → Option (List A)
read_all read [] = some []
read_all read (s ∷ ss) = do x ← read s; xs ← read_all read ss; some (x ∷ xs)

-- An array that is not there has no elements.
unfoldable pub read_array : {A : Type 0} → (Str → Option A) → Option Str → Option (List A)
read_array read none = some []
read_array read (some s) = read_all read (objects s)

-- The names of the sounds; an empty name is passed over.
unfoldable pub sound_names : Str → List Str
sound_names s = elim (section (codes "\"sounds\":[") (codes "],\"pieces\":") 10 s) [
  | none ↦ []
  | some inner ↦ spans b'"' b'"' inner
]

unfoldable pub piece_entries : Str → Option (List PieceEntry)
piece_entries s =
    read_array read_piece (section (codes "\"pieces\":[") (codes "],\"motions\":") 10 s)

unfoldable pub motion_entries : Str → Option (List MotionEntry)
motion_entries s =
    read_array read_motion (section (codes "\"motions\":[") (codes "],\"jumps\":") 11 s)

unfoldable pub jump_entries : Str → Option (List JumpEntry)
jump_entries s = read_array read_jump (section (codes "\"jumps\":[") (codes "]") 9 s)

-- The fields in front of the arrays.
pub record StateFields : Type 0 where
  pub game_over : Bool
  pub white_score : ℕ
  pub black_score : ℕ
  pub disc_user : Str
  pub disc_cd : ℤ
  pub w_user : Str
  pub w_elo : ℤ
  pub b_user : Str
  pub b_elo : ℤ
  pub r_id : Str
  pub r_name : Str

unfoldable pub read_fields : Str → Option StateFields
read_fields s = do
  white_score ← read_natural s (codes "white_score")
  black_score ← read_natural s (codes "black_score")
  disc_cd ← extract_int s (codes "disconnect_countdown")
  w_elo ← extract_int s (codes "white_elo")
  b_elo ← extract_int s (codes "black_elo")
  some (record {
    game_over = extract_bool s (codes "game_over");
    white_score = white_score;
    black_score = black_score;
    disc_user = extract_string s (codes "disconnect_user");
    disc_cd = disc_cd;
    w_user = extract_string s (codes "white_user");
    w_elo = w_elo;
    b_user = extract_string s (codes "black_user");
    b_elo = b_elo;
    r_id = extract_string s (codes "room_id");
    r_name = extract_string s (codes "room_name");
  })
