-- ===== src/Client/ObjectFields.antt =====
-- What the client reads in the text of a piece.
use ctd_project.Base.{
  ◌≡◌, refl, ℕ, true, Option, none, some, List, [], ◌∷◌, ◌++◌, pos, Str, codes, str_eq,
  if◌then◌else◌, get_elem?, both, and_left, Bool-cases, inl, inr,
}
use ctd_project.Piece.{
  position, PieceKind, king, queen, rook, bishop, knight, pawn, PieceColor, white, black,
  PieceState, idle, moving, captured, Ref, Heap,
}
use ctd_project.Motion.{RealTimeArbiter}
use ctd_project.Arbiter.{
  is_piece_cooling_down, get_piece_cooldown_remaining_ms, get_piece_cooldown_total_ms,
  is_piece_on_long_rest,
}
use ctd_project.Text.{is_int}
use ctd_project.Json.{extract_string, extract_int, extract_bool, bool_field, field_text}
use ctd_project.Json.Keys.{is_apart, other, first, behind}
use ctd_project.Json.Values.{
  extract_string-field, extract_int-field, extract_bool-field, extract_bool-within,
}
use ctd_project.Server.State.{
  SerializedPiece, piece_fields, piece_text, kind_int, color_int, state_int,
}
use ctd_project.Client.Reading.{
  PieceEntry, CooldownEntry, read_piece, read_cooldown, read_cooldown_if, kind_of, color_of,
  state_of,
}

abbrev pub piece_keys : List Str
piece_keys =
    codes "id"
    ∷ codes "kind"
    ∷ codes "color"
    ∷ codes "row"
    ∷ codes "col"
    ∷ codes "state"
    ∷ codes "on_cooldown"
    ∷ codes "cooldown_remaining"
    ∷ codes "cooldown_total"
    ∷ codes "is_long_rest"
    ∷ []

kind_of-kind_int : (k : PieceKind) → kind_of (pos (kind_int k)) ≡ some k
unfolding kind_of
kind_of-kind_int king = refl
kind_of-kind_int queen = refl
kind_of-kind_int rook = refl
kind_of-kind_int bishop = refl
kind_of-kind_int knight = refl
kind_of-kind_int pawn = refl

color_of-color_int : (c : PieceColor) → color_of (pos (color_int c)) ≡ some c
unfolding color_of
color_of-color_int white = refl
color_of-color_int black = refl

state_of-state_int : (s : PieceState) → state_of (pos (state_int s)) ≡ some s
unfolding state_of
state_of-state_int idle = refl
state_of-state_int moving = refl
state_of-state_int captured = refl

kind_fits : (k : PieceKind) → is_int (pos (kind_int k)) ≡ true
kind_fits king = refl
kind_fits queen = refl
kind_fits rook = refl
kind_fits bishop = refl
kind_fits knight = refl
kind_fits pawn = refl

color_fits : (c : PieceColor) → is_int (pos (color_int c)) ≡ true
color_fits white = refl
color_fits black = refl

state_fits : (s : PieceState) → is_int (pos (state_int s)) ≡ true
state_fits idle = refl
state_fits moving = refl
state_fits captured = refl

-- The state of a piece's cooldown, as it is sent.
abbrev pub cooldown_of : Heap → RealTimeArbiter → Ref → Option CooldownEntry
cooldown_of h a r =
    let entry : CooldownEntry = record {
      remaining = get_piece_cooldown_remaining_ms h a (some r);
      total = get_piece_cooldown_total_ms h a (some r);
      is_long_rest = is_piece_on_long_rest h a (some r);
    } in
    if is_piece_cooling_down h a (some r) then some entry else none

-- A piece where it is shown.
abbrev pub entry_of : Heap → RealTimeArbiter → SerializedPiece → PieceEntry
entry_of h a sp = record {
  piece = record (h.piece sp.piece) { cell = position sp.row sp.col };
  cooldown = cooldown_of h a sp.piece;
}

-- The id is none of the keys, and the numbers fit an `int`.
abbrev pub IsPlainPiece : Heap → RealTimeArbiter → SerializedPiece → Type 0
IsPlainPiece h a sp =
    (is_apart piece_keys (h.piece sp.piece).id ≡ true)
    × (is_int sp.row ≡ true)
    × (is_int sp.col ≡ true)
    × (is_int (pos (get_piece_cooldown_remaining_ms h a (some sp.piece))) ≡ true)
    × (is_int (pos (get_piece_cooldown_total_ms h a (some sp.piece))) ≡ true)

-- What the client extracts from the text of a piece.
abbrev pub ReadsPiece : Heap → RealTimeArbiter → SerializedPiece → Str → Type 0
ReadsPiece h a sp s =
    let p = h.piece sp.piece in
    (extract_string s (codes "id") ≡ p.id)
    × (extract_int s (codes "kind") ≡ some (pos (kind_int p.kind)))
    × (extract_int s (codes "color") ≡ some (pos (color_int p.color)))
    × (extract_int s (codes "row") ≡ some sp.row)
    × (extract_int s (codes "col") ≡ some sp.col)
    × (extract_int s (codes "state") ≡ some (pos (state_int p.state)))
    × (extract_bool s (codes "on_cooldown") ≡ is_piece_cooling_down h a (some sp.piece))
    × (extract_int s (codes "cooldown_remaining")
        ≡ some (pos (get_piece_cooldown_remaining_ms h a (some sp.piece))))
    × (extract_int s (codes "cooldown_total")
        ≡ some (pos (get_piece_cooldown_total_ms h a (some sp.piece))))
    × (extract_bool s (codes "is_long_rest") ≡ is_piece_on_long_rest h a (some sp.piece))

piece_text-ReadsPiece :
    (h : Heap) (a : RealTimeArbiter) (sp : SerializedPiece)
    → IsPlainPiece h a sp
    → ReadsPiece h a sp (piece_text h a sp)
unfolding piece_text str_eq
piece_text-ReadsPiece h a sp (i, ir, ic, irem, itot) =
    let p = h.piece sp.piece in
    let fs = piece_fields h a sp in
    let rest =
      field_text (bool_field (codes "is_long_rest") (is_piece_on_long_rest h a (some sp.piece)))
      ++ b'}' ∷ [] in
    let o = λ (n : ℕ) (k : Str) (e : get_elem? piece_keys n ≡ some k).
      both (other piece_keys n k p.id e i) refl in
    (
      extract_string-field (codes "id") [] (behind 1 fs) rest refl refl p.id (and_left _ _ i),
      extract_int-field (codes "kind") (first 1 fs) (behind 2 fs) rest refl
          (o 1 (codes "kind") refl) (pos (kind_int p.kind)) (kind_fits p.kind),
      extract_int-field (codes "color") (first 2 fs) (behind 3 fs) rest refl
          (o 2 (codes "color") refl) (pos (color_int p.color)) (color_fits p.color),
      extract_int-field (codes "row") (first 3 fs) (behind 4 fs) rest refl (o 3 (codes "row") refl)
          sp.row ir,
      extract_int-field (codes "col") (first 4 fs) (behind 5 fs) rest refl (o 4 (codes "col") refl)
          sp.col ic,
      extract_int-field (codes "state") (first 5 fs) (behind 6 fs) rest refl
          (o 5 (codes "state") refl) (pos (state_int p.state)) (state_fits p.state),
      extract_bool-field (codes "on_cooldown") (first 6 fs) (behind 7 fs) rest refl
          (o 6 (codes "on_cooldown") refl) (is_piece_cooling_down h a (some sp.piece)),
      extract_int-field (codes "cooldown_remaining") (first 7 fs) (behind 8 fs) rest refl
          (o 7 (codes "cooldown_remaining") refl)
          (pos (get_piece_cooldown_remaining_ms h a (some sp.piece))) irem,
      extract_int-field (codes "cooldown_total") (first 8 fs) [] rest refl
          (o 8 (codes "cooldown_total") refl)
          (pos (get_piece_cooldown_total_ms h a (some sp.piece))) itot,
      extract_bool-within (codes "is_long_rest") (is_piece_on_long_rest h a (some sp.piece)) b'}' []
          fs refl (o 9 (codes "is_long_rest") refl) refl,
    )

read_cooldown_if-ReadsPiece :
    (h : Heap) (a : RealTimeArbiter) (sp : SerializedPiece) (s : Str)
    → ReadsPiece h a sp s
    → read_cooldown_if (is_piece_cooling_down h a (some sp.piece)) s
      ≡ some (cooldown_of h a sp.piece)
unfolding read_cooldown_if read_cooldown
read_cooldown_if-ReadsPiece h a sp s (id, kind, color, row, col, state, on, rem, tot, long) =
    elim (Bool-cases (is_piece_cooling_down h a (some sp.piece))) [
      | inl e ↦ rw e (rw rem (rw tot (rw long refl)))
      | inr e ↦ rw e refl
    ]

-- The client reads a piece as the server has written it.
pub read_piece-piece_text :
    (h : Heap) (a : RealTimeArbiter) (sp : SerializedPiece)
    → IsPlainPiece h a sp
    → read_piece (piece_text h a sp) ≡ some (entry_of h a sp)
unfolding read_piece
read_piece-piece_text h a sp i =
    let p = h.piece sp.piece in
    let reads = piece_text-ReadsPiece h a sp i in
    let (id, kind, color, row, col, state, on, rem, tot, long) = reads in
    rw kind (
      rw color (
        rw row (
          rw col (
            rw state (
              rw (kind_of-kind_int p.kind) (
                rw (color_of-color_int p.color) (
                  rw (state_of-state_int p.state) (
                    rw on (
                      rw (read_cooldown_if-ReadsPiece h a sp (piece_text h a sp) reads)
                        (rw id refl))))))))))
