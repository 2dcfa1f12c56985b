-- ===== src/Client/RoomFields.antt =====
-- What the client reads in front of the arrays of a room's state.
use ctd_project.Base.{
  ◌≡◌, refl, ap, ◌∙◌, ℕ, Bool, true, some, List, [], ◌∷◌, pos, Str, codes, str_eq, both, and_left,
}
use ctd_project.Text.{is_int}
use ctd_project.Json.{
  extract_string, extract_int, extract_bool, string_field, int_field, bool_field, Field,
}
use ctd_project.Json.Keys.{is_apart, other, first, behind}
use ctd_project.Json.Values.{beginning, extract_string-field, extract_int-field, extract_bool-field}
use ctd_project.Server.{Room, ClientInfo, ClientRef}
use ctd_project.Server.State.{
  room_fields, name_or, elo_or, disconnect_user, disconnect_countdown, serialize_room_state,
  engine_text, sounds_to_use,
}
use ctd_project.Client.Reading.{StateFields, read_fields}

-- The keys of a state.
abbrev pub state_keys : List Str
state_keys =
    codes "game_over"
    ∷ codes "white_score"
    ∷ codes "black_score"
    ∷ codes "white_user"
    ∷ codes "white_elo"
    ∷ codes "black_user"
    ∷ codes "black_elo"
    ∷ codes "room_id"
    ∷ codes "room_name"
    ∷ codes "disconnect_user"
    ∷ codes "disconnect_countdown"
    ∷ []

-- A name that does not mislead the client: it has no quote and is not a key.
abbrev pub is_name : Str → Bool
is_name n = is_apart state_keys n

-- The fields of a room as values.
abbrev pub fields_of : (ClientRef → ClientInfo) → ℕ → Room → StateFields
fields_of info now r = record {
  game_over = r.game_engine.world.game.game_over_flag;
  white_score = r.game_engine.world.game.white_score;
  black_score = r.game_engine.world.game.black_score;
  disc_user = disconnect_user r;
  disc_cd = pos (disconnect_countdown now r);
  w_user = name_or info (codes "White") r.white_player;
  w_elo = pos (elo_or info r.white_player);
  b_user = name_or info (codes "Black") r.black_player;
  b_elo = pos (elo_or info r.black_player);
  r_id = r.id;
  r_name = r.name;
}

-- The names in a state are names, and its numbers fit an `int`.
abbrev pub IsPlainState : StateFields → Type 0
IsPlainState f =
    (is_name f.w_user ≡ true)
    × (is_name f.b_user ≡ true)
    × (is_name f.r_id ≡ true)
    × (is_name f.r_name ≡ true)
    × (is_name f.disc_user ≡ true)
    × (is_int (pos f.white_score) ≡ true)
    × (is_int (pos f.black_score) ≡ true)
    × (is_int f.w_elo ≡ true)
    × (is_int f.b_elo ≡ true)
    × (is_int f.disc_cd ≡ true)

-- The fields in the order in which they are written.
abbrev pub listed : StateFields → List Field
listed f =
    bool_field (codes "game_over") f.game_over
    ∷ int_field (codes "white_score") (pos f.white_score)
    ∷ int_field (codes "black_score") (pos f.black_score)
    ∷ string_field (codes "white_user") f.w_user
    ∷ int_field (codes "white_elo") f.w_elo
    ∷ string_field (codes "black_user") f.b_user
    ∷ int_field (codes "black_elo") f.b_elo
    ∷ string_field (codes "room_id") f.r_id
    ∷ string_field (codes "room_name") f.r_name
    ∷ string_field (codes "disconnect_user") f.disc_user
    ∷ int_field (codes "disconnect_countdown") f.disc_cd
    ∷ []

-- What the client extracts from a text that begins with the fields.
abbrev Reads : StateFields → Str → Type 0
Reads f s =
    (extract_bool s (codes "game_over") ≡ f.game_over)
    × (extract_int s (codes "white_score") ≡ some (pos f.white_score))
    × (extract_int s (codes "black_score") ≡ some (pos f.black_score))
    × (extract_string s (codes "white_user") ≡ f.w_user)
    × (extract_int s (codes "white_elo") ≡ some f.w_elo)
    × (extract_string s (codes "black_user") ≡ f.b_user)
    × (extract_int s (codes "black_elo") ≡ some f.b_elo)
    × (extract_string s (codes "room_id") ≡ f.r_id)
    × (extract_string s (codes "room_name") ≡ f.r_name)
    × (extract_string s (codes "disconnect_user") ≡ f.disc_user)
    × (extract_int s (codes "disconnect_countdown") ≡ some f.disc_cd)

listed-Reads : (f : StateFields) (rest : Str) → IsPlainState f → Reads f (beginning (listed f) rest)
unfolding str_eq
listed-Reads f rest (w, b, id, name, d, ws, bs, we, be, cd) =
    let fs = listed f in
    (
      extract_bool-field (codes "game_over") (first 0 fs) (behind 1 fs) rest refl (refl)
          f.game_over,
      extract_int-field (codes "white_score") (first 1 fs) (behind 2 fs) rest refl (refl)
          (pos f.white_score) ws,
      extract_int-field (codes "black_score") (first 2 fs) (behind 3 fs) rest refl (refl)
          (pos f.black_score) bs,
      extract_string-field (codes "white_user") (first 3 fs) (behind 4 fs) rest refl (refl) f.w_user
          (and_left _ _ w),
      extract_int-field (codes "white_elo") (first 4 fs) (behind 5 fs) rest refl
          (both (other state_keys 4 (codes "white_elo") f.w_user refl w) (refl)) f.w_elo we,
      extract_string-field (codes "black_user") (first 5 fs) (behind 6 fs) rest refl
          (both (other state_keys 5 (codes "black_user") f.w_user refl w) (refl)) f.b_user
          (and_left _ _ b),
      extract_int-field (codes "black_elo") (first 6 fs) (behind 7 fs) rest refl
          (both (other state_keys 6 (codes "black_elo") f.w_user refl w)
            (both (other state_keys 6 (codes "black_elo") f.b_user refl b) (refl)))
          f.b_elo be,
      extract_string-field (codes "room_id") (first 7 fs) (behind 8 fs) rest refl
          (both (other state_keys 7 (codes "room_id") f.w_user refl w)
            (both (other state_keys 7 (codes "room_id") f.b_user refl b) (refl)))
          f.r_id (and_left _ _ id),
      extract_string-field (codes "room_name") (first 8 fs) (behind 9 fs) rest refl
          (both (other state_keys 8 (codes "room_name") f.w_user refl w) (
            both (other state_keys 8 (codes "room_name") f.b_user refl b)
              (both (other state_keys 8 (codes "room_name") f.r_id refl id) (refl))))
          f.r_name (and_left _ _ name),
      extract_string-field (codes "disconnect_user") (first 9 fs) (behind 10 fs) rest refl
          (both (other state_keys 9 (codes "disconnect_user") f.w_user refl w) (
            both (other state_keys 9 (codes "disconnect_user") f.b_user refl b) (
              both (other state_keys 9 (codes "disconnect_user") f.r_id refl id)
                (both (other state_keys 9 (codes "disconnect_user") f.r_name refl name) (refl)))))
          f.disc_user (and_left _ _ d),
      extract_int-field (codes "disconnect_countdown") (first 10 fs) (behind 11 fs) rest refl
          (both (other state_keys 10 (codes "disconnect_countdown") f.w_user refl w) (
            both (other state_keys 10 (codes "disconnect_countdown") f.b_user refl b) (
              both (other state_keys 10 (codes "disconnect_countdown") f.r_id refl id) (
                both (other state_keys 10 (codes "disconnect_countdown") f.r_name refl name) (
                  both (other state_keys 10 (codes "disconnect_countdown") f.disc_user refl d)
                    (refl))))))
          f.disc_cd cd,
    )

fields-serialize :
    (info : ClientRef → ClientInfo) (now : ℕ) (r : Room) (sounds : List Str)
    → serialize_room_state info now r sounds
      ≡ beginning
          (listed (fields_of info now r))
          (engine_text (sounds_to_use r sounds) r.game_engine)
unfolding serialize_room_state room_fields
fields-serialize info now r sounds = refl

read_fields-Reads : (f : StateFields) (s : Str) → Reads f s → read_fields s ≡ some f
unfolding read_fields
read_fields-Reads f s (over, ws, bs, w, we, b, be, id, name, d, cd) =
    rw ws (rw bs (rw cd (rw we (rw be (rw over (rw w (rw b (rw id (rw name (rw d refl))))))))))

-- The client reads the players, the score, the room and the countdown as the server has written them,
-- where no name has a quote or is a key, and the numbers fit an `int`.
pub read_fields-serialize_room_state :
    (info : ClientRef → ClientInfo) (now : ℕ) (r : Room) (sounds : List Str)
    → IsPlainState (fields_of info now r)
    → read_fields (serialize_room_state info now r sounds) ≡ some (fields_of info now r)
read_fields-serialize_room_state info now r sounds h =
    let f = fields_of info now r in
    let rest = engine_text (sounds_to_use r sounds) r.game_engine in
    ap read_fields (fields-serialize info now r sounds)
    ∙ read_fields-Reads f (beginning (listed f) rest) (listed-Reads f rest h)
