-- ===== src/Client/FlightFields.antt =====
-- What the client reads in the texts of motions and jumps.
use ctd_project.Base.{
  ◌≡◌, refl, ℕ, true, some, List, [], ◌∷◌, ◌++◌, pos, Str, codes, str_eq, get_elem?, both, and_left,
}
use ctd_project.Piece.{Heap}
use ctd_project.Motion.{Motion, Jump}
use ctd_project.Text.{is_int}
use ctd_project.Json.{string_field, int_field, Field, field_text}
use ctd_project.Json.Keys.{is_apart, other, first, behind}
use ctd_project.Json.Values.{
  extract_string-field, extract_int-field, extract_string-within, extract_int-within,
}
use ctd_project.Server.State.{motion_text, jump_text, id_or_empty}
use ctd_project.Client.Reading.{MotionEntry, JumpEntry, read_motion, read_jump}

abbrev pub motion_keys : List Str
motion_keys =
    codes "piece_id"
    ∷ codes "src_row"
    ∷ codes "src_col"
    ∷ codes "dest_row"
    ∷ codes "dest_col"
    ∷ codes "total_ms"
    ∷ codes "remaining_ms"
    ∷ codes "victim_id"
    ∷ []

abbrev pub motion_entry : Heap → Motion → MotionEntry
motion_entry h m = record {
  piece_id = id_or_empty h m.piece;
  source = m.source;
  dest = m.dest;
  total_ms = m.total_ms;
  remaining_ms = m.remaining_ms;
  victim_id = id_or_empty h m.captured_piece;
}

abbrev pub IsPlainMotion : Heap → Motion → Type 0
IsPlainMotion h m =
    (is_apart motion_keys (id_or_empty h m.piece) ≡ true)
    × (is_apart motion_keys (id_or_empty h m.captured_piece) ≡ true)
    × (is_int m.source.row ≡ true)
    × (is_int m.source.col ≡ true)
    × (is_int m.dest.row ≡ true)
    × (is_int m.dest.col ≡ true)
    × (is_int (pos m.total_ms) ≡ true)
    × (is_int (pos m.remaining_ms) ≡ true)

abbrev pub motion_fields : Heap → Motion → List Field
motion_fields h m =
    string_field (codes "piece_id") (id_or_empty h m.piece)
    ∷ int_field (codes "src_row") m.source.row
    ∷ int_field (codes "src_col") m.source.col
    ∷ int_field (codes "dest_row") m.dest.row
    ∷ int_field (codes "dest_col") m.dest.col
    ∷ int_field (codes "total_ms") (pos m.total_ms)
    ∷ int_field (codes "remaining_ms") (pos m.remaining_ms)
    ∷ []

-- The client reads a motion as the server has written it.
pub read_motion-motion_text :
    (h : Heap) (m : Motion)
    → IsPlainMotion h m
    → read_motion (motion_text h m) ≡ some (motion_entry h m)
unfolding read_motion motion_text str_eq
read_motion-motion_text h m (ip, iv, sr, sc, dr, dc, tot, rem) =
    let id = id_or_empty h m.piece in
    let victim = id_or_empty h m.captured_piece in
    let fs = motion_fields h m in
    let rest = field_text (string_field (codes "victim_id") victim) ++ b'}' ∷ [] in
    let o = λ (n : ℕ) (k : Str) (e : get_elem? motion_keys n ≡ some k).
      both (other motion_keys n k id e ip) refl in
    rw
      (extract_int-field (codes "src_row") (first 1 fs) (behind 2 fs) rest refl
        (o 1 (codes "src_row") refl) m.source.row sr)
      (rw
        (extract_int-field (codes "src_col") (first 2 fs) (behind 3 fs) rest refl
          (o 2 (codes "src_col") refl) m.source.col sc)
        (rw
          (extract_int-field (codes "dest_row") (first 3 fs) (behind 4 fs) rest refl
            (o 3 (codes "dest_row") refl) m.dest.row dr)
          (rw
            (extract_int-field (codes "dest_col") (first 4 fs) (behind 5 fs) rest refl
              (o 4 (codes "dest_col") refl) m.dest.col dc)
            (rw
              (extract_int-field (codes "total_ms") (first 5 fs) (behind 6 fs) rest refl
                (o 5 (codes "total_ms") refl) (pos m.total_ms) tot)
              (rw
                (extract_int-field (codes "remaining_ms") (first 6 fs) [] rest refl
                  (o 6 (codes "remaining_ms") refl) (pos m.remaining_ms) rem)
                (rw
                  (extract_string-field (codes "piece_id") [] (behind 1 fs) rest refl refl id
                    (and_left _ _ ip))
                  (rw
                    (extract_string-within (codes "victim_id") victim (b'}' ∷ []) fs refl
                      (o 7 (codes "victim_id") refl) (and_left _ _ iv))
                    refl)))))))

abbrev pub jump_keys : List Str
jump_keys =
    codes "piece_id" ∷ codes "row" ∷ codes "col" ∷ codes "total_ms" ∷ codes "remaining_ms" ∷ []

abbrev pub jump_entry : Heap → Jump → JumpEntry
jump_entry h j = record {
  piece_id = id_or_empty h j.piece;
  spot = j.spot;
  total_ms = j.total_ms;
  remaining_ms = j.remaining_ms;
}

abbrev pub IsPlainJump : Heap → Jump → Type 0
IsPlainJump h j =
    (is_apart jump_keys (id_or_empty h j.piece) ≡ true)
    × (is_int j.spot.row ≡ true)
    × (is_int j.spot.col ≡ true)
    × (is_int (pos j.total_ms) ≡ true)
    × (is_int (pos j.remaining_ms) ≡ true)

abbrev pub jump_fields : Heap → Jump → List Field
jump_fields h j =
    string_field (codes "piece_id") (id_or_empty h j.piece)
    ∷ int_field (codes "row") j.spot.row
    ∷ int_field (codes "col") j.spot.col
    ∷ int_field (codes "total_ms") (pos j.total_ms)
    ∷ []

-- The client reads a jump as the server has written it.
pub read_jump-jump_text :
    (h : Heap) (j : Jump) → IsPlainJump h j → read_jump (jump_text h j) ≡ some (jump_entry h j)
unfolding read_jump jump_text str_eq
read_jump-jump_text h j (ip, r, c, tot, rem) =
    let id = id_or_empty h j.piece in
    let fs = jump_fields h j in
    let rest = field_text (int_field (codes "remaining_ms") (pos j.remaining_ms)) ++ b'}' ∷ [] in
    let o = λ (n : ℕ) (k : Str) (e : get_elem? jump_keys n ≡ some k).
      both (other jump_keys n k id e ip) refl in
    rw
      (extract_int-field (codes "row") (first 1 fs) (behind 2 fs) rest refl (o 1 (codes "row") refl)
        j.spot.row r)
      (rw
        (extract_int-field (codes "col") (first 2 fs) (behind 3 fs) rest refl
          (o 2 (codes "col") refl) j.spot.col c)
        (rw
          (extract_int-field (codes "total_ms") (first 3 fs) [] rest refl
            (o 3 (codes "total_ms") refl) (pos j.total_ms) tot)
          (rw
            (extract_int-within (codes "remaining_ms") (pos j.remaining_ms) b'}' [] fs refl
              (o 4 (codes "remaining_ms") refl) rem refl)
            (rw
              (extract_string-field (codes "piece_id") [] (behind 1 fs) rest refl refl id
                (and_left _ _ ip))
              refl))))
