-- ===== src/Client/FromServer.antt =====
-- The state of a room on its way from the server to a client.
use ctd_project.Base.{
  ◌≡◌, refl, sym, ap, ◌∙◌, ℕ, true, Option, some, List, [], ◌∷◌, ◌++◌, map, Str, codes, str_eq,
  both, pos,
}
use ctd_project.Piece.{Heap}
use ctd_project.Motion.{Motion, Jump, RealTimeArbiter}
use ctd_project.Arbiter.{is_piece_on_long_rest}
use ctd_project.Json.{string_field, int_field, bool_field, joined, fields_text}
use ctd_project.Server.{Room, ClientInfo, ClientRef}
use ctd_project.Server.State.{
  SerializedPiece, piece_fields, piece_text, motion_text, jump_text, id_or_empty,
  pieces_to_serialize, motions_with_piece, jumps_with_piece, room_fields, arrays_text,
  sounds_to_use, engine_text, serialize_room_state,
}
use ctd_project.Client.Reading.{
  read_all, read_array, read_piece, read_motion, read_jump, piece_entries, motion_entries,
  jump_entries, section, read_fields,
}
use ctd_project.Client.Arrays.{is_tame, tame_fields}
use ctd_project.Client.Arrays.Objects.{Object, text_of, tame_object, tame_objects, all_tame}
use ctd_project.Client.Arrays.Sections.{piece_section, motion_section, jump_section, objects-joined}
use ctd_project.Client.RoomFields.{fields_of, IsPlainState, read_fields-serialize_room_state}
use ctd_project.Client.ObjectFields.{entry_of, IsPlainPiece, read_piece-piece_text}
use ctd_project.Client.FlightFields.{
  motion_fields, motion_entry, IsPlainMotion, read_motion-motion_text, jump_fields, jump_entry,
  IsPlainJump, read_jump-jump_text,
}

-- For every element of a list.
abbrev pub Each : {A : Type 0} → (A → Type 0) → List A → Type 0
Each P [] = true ≡ true
Each P (x ∷ xs) = P x × Each P xs

read_all-map :
    {A X : Type 0} (read : Str → Option A) (f : X → Str) (g : X → A) (xs : List X)
    → Each (λ x. read (f x) ≡ some (g x)) xs
    → read_all read (map f xs) ≡ some (map g xs)
unfolding read_all
read_all-map read f g [] e = refl
read_all-map read f g (x ∷ xs) (e, es) = rw e (rw (read_all-map read f g xs es) refl)

Each-map :
    {X : Type 0} (P Q : X → Type 0) (xs : List X) → ((x : X) → P x → Q x) → Each P xs → Each Q xs
Each-map P Q [] f e = refl
Each-map P Q (x ∷ xs) f (p, ps) = (f x p, Each-map P Q xs f ps)

tame-map :
    {X : Type 0} (object : X → Object) (xs : List X)
    → Each (λ x. tame_object (object x) ≡ true) xs
    → tame_objects (map object xs) ≡ true
tame-map object [] e = refl
tame-map object (x ∷ xs) (e, es) = both e (tame-map object xs es)

-- The objects of the three arrays.
piece_object : Heap → RealTimeArbiter → SerializedPiece → Object
piece_object h a sp = record {
  fields = piece_fields h a sp;
  last = bool_field (codes "is_long_rest") (is_piece_on_long_rest h a (some sp.piece));
}

motion_object : Heap → Motion → Object
motion_object h m = record {
  fields = motion_fields h m;
  last = string_field (codes "victim_id") (id_or_empty h m.captured_piece);
}

jump_object : Heap → Jump → Object
jump_object h j = record {
  fields = jump_fields h j;
  last = int_field (codes "remaining_ms") (pos j.remaining_ms);
}

-- A piece, a motion and a jump that the client can read.
abbrev pub ReadablePiece : Heap → RealTimeArbiter → SerializedPiece → Type 0
ReadablePiece h a sp = IsPlainPiece h a sp × (is_tame (h.piece sp.piece).id ≡ true)

abbrev pub ReadableMotion : Heap → Motion → Type 0
ReadableMotion h m =
    IsPlainMotion h m
    × (is_tame (id_or_empty h m.piece) ≡ true)
    × (is_tame (id_or_empty h m.captured_piece) ≡ true)

abbrev pub ReadableJump : Heap → Jump → Type 0
ReadableJump h j = IsPlainJump h j × (is_tame (id_or_empty h j.piece) ≡ true)

-- A state that the client can read: its numbers fit an `int`, no text in it has a quote, a closing
-- brace or a closing bracket, and none is a key.
abbrev pub IsReadable : (ClientRef → ClientInfo) → ℕ → Room → List Str → Type 0
IsReadable info now r sounds =
    let h = r.game_engine.world.heap in
    let a = r.game_engine.arbiter in
    IsPlainState (fields_of info now r)
    × (tame_fields (room_fields info now r) ≡ true)
    × (all_tame (sounds_to_use r sounds) ≡ true)
    × Each (ReadablePiece h a) (pieces_to_serialize r.game_engine.world a)
    × Each (ReadableMotion h) (motions_with_piece a.active_motions)
    × Each (ReadableJump h) (jumps_with_piece a.active_jumps)

map-map :
    {X : Type 0} (f : X → Object) (xs : List X)
    → map text_of (map f xs) ≡ map (λ x. text_of (f x)) xs
map-map f [] = refl
map-map f (x ∷ xs) = ap (λ ts. text_of (f x) ∷ ts) (map-map f xs)

-- What is read of an array whose elements are read.
read_array-joined :
    {A X : Type 0} (read : Str → Option A) (object : X → Object) (g : X → A) (xs : List X)
    → tame_objects (map object xs) ≡ true
    → Each (λ x. read (text_of (object x)) ≡ some (g x)) xs
    → read_array read (some (joined (map text_of (map object xs)))) ≡ some (map g xs)
unfolding read_array
read_array-joined read object g xs t e =
    ap (read_all read) (objects-joined (map object xs) t ∙ map-map object xs)
    ∙ read_all-map read (λ x. text_of (object x)) g xs e

piece_object-tame :
    (h : Heap) (a : RealTimeArbiter) (sp : SerializedPiece)
    → ReadablePiece h a sp
    → tame_object (piece_object h a sp) ≡ true
unfolding piece_object str_eq
piece_object-tame h a sp (p, t) = both (both t refl) refl

motion_object-tame :
    (h : Heap) (m : Motion) → ReadableMotion h m → tame_object (motion_object h m) ≡ true
unfolding motion_object str_eq
motion_object-tame h m (p, t, v) = both (both t refl) v

jump_object-tame : (h : Heap) (j : Jump) → ReadableJump h j → tame_object (jump_object h j) ≡ true
unfolding jump_object str_eq
jump_object-tame h j (p, t) = both (both t refl) refl

module _ (info : ClientRef → ClientInfo) (now : ℕ) (r : Room) (sounds : List Str) where
  abbrev sent_heap : Heap
  sent_heap = r.game_engine.world.heap

  abbrev sent_arbiter : RealTimeArbiter
  sent_arbiter = r.game_engine.arbiter

  abbrev sent_pieces : List SerializedPiece
  sent_pieces = pieces_to_serialize r.game_engine.world r.game_engine.arbiter

  abbrev sent_motions : List Motion
  sent_motions = motions_with_piece r.game_engine.arbiter.active_motions

  abbrev sent_jumps : List Jump
  sent_jumps = jumps_with_piece r.game_engine.arbiter.active_jumps

  abbrev text_with : List Str → List Str → List Str → Str
  text_with ps ms js =
      b'{' ∷ (fields_text (room_fields info now r) ++ arrays_text (sounds_to_use r sounds) ps ms js)

  as_objects :
      serialize_room_state info now r sounds
      ≡ text_with
          (map text_of (map (piece_object sent_heap sent_arbiter) sent_pieces))
          (map text_of (map (motion_object sent_heap) sent_motions))
          (map text_of (map (jump_object sent_heap) sent_jumps))
  unfolding serialize_room_state engine_text piece_text motion_text jump_text piece_object
      motion_object jump_object
  as_objects =
      let ps = map (piece_text sent_heap sent_arbiter) sent_pieces in
      let ms = map (motion_text sent_heap) sent_motions in
      let ps' = map text_of (map (piece_object sent_heap sent_arbiter) sent_pieces) in
      let ms' = map text_of (map (motion_object sent_heap) sent_motions) in
      ap (λ js. text_with ps ms js) (sym (map-map (jump_object sent_heap) sent_jumps))
      ∙ ap (λ us. text_with ps us (map text_of (map (jump_object sent_heap) sent_jumps)))
          (sym (map-map (motion_object sent_heap) sent_motions))
      ∙ ap (λ us. text_with us ms' (map text_of (map (jump_object sent_heap) sent_jumps)))
          (sym (map-map (piece_object sent_heap sent_arbiter) sent_pieces))

  module _ (readable : IsReadable info now r sounds) where
    tame_pieces : tame_objects (map (piece_object sent_heap sent_arbiter) sent_pieces) ≡ true
    tame_pieces =
        tame-map (piece_object sent_heap sent_arbiter) sent_pieces
          (Each-map _ _ sent_pieces (piece_object-tame sent_heap sent_arbiter) readable.3)

    tame_motions : tame_objects (map (motion_object sent_heap) sent_motions) ≡ true
    tame_motions =
        tame-map (motion_object sent_heap) sent_motions
          (Each-map _ _ sent_motions (motion_object-tame sent_heap) readable.4)

    tame_jumps : tame_objects (map (jump_object sent_heap) sent_jumps) ≡ true
    tame_jumps =
        tame-map (jump_object sent_heap) sent_jumps
          (Each-map _ _ sent_jumps (jump_object-tame sent_heap) readable.5)

    pieces_read :
        piece_entries (serialize_room_state info now r sounds)
        ≡ some (map (entry_of sent_heap sent_arbiter) sent_pieces)
    unfolding piece_entries
    pieces_read =
        ap
          (λ t.
            read_array read_piece (section (codes "\"pieces\":[") (codes "],\"motions\":") 10 t))
          as_objects
        ∙ ap (read_array read_piece) (
            piece_section (room_fields info now r) (sounds_to_use r sounds)
              (map (piece_object sent_heap sent_arbiter) sent_pieces)
              (map (motion_object sent_heap) sent_motions) (map (jump_object sent_heap) sent_jumps)
              readable.1 readable.2 tame_pieces tame_motions)
        ∙ read_array-joined read_piece (piece_object sent_heap sent_arbiter)
            (entry_of sent_heap sent_arbiter) sent_pieces tame_pieces
            (Each-map _ _ sent_pieces
              (λ (sp : SerializedPiece) (p : ReadablePiece sent_heap sent_arbiter sp).
                unfold piece_object piece_text in
                read_piece-piece_text sent_heap sent_arbiter sp p.0)
              readable.3)

    motions_read :
        motion_entries (serialize_room_state info now r sounds)
        ≡ some (map (motion_entry sent_heap) sent_motions)
    unfolding motion_entries
    motions_read =
        ap
          (λ t.
            read_array read_motion (section (codes "\"motions\":[") (codes "],\"jumps\":") 11 t))
          as_objects
        ∙ ap (read_array read_motion) (
            motion_section (room_fields info now r) (sounds_to_use r sounds)
              (map (piece_object sent_heap sent_arbiter) sent_pieces)
              (map (motion_object sent_heap) sent_motions) (map (jump_object sent_heap) sent_jumps)
              readable.1 readable.2 tame_pieces tame_motions)
        ∙ read_array-joined read_motion (motion_object sent_heap) (motion_entry sent_heap)
            sent_motions tame_motions
            (Each-map _ _ sent_motions
              (λ (m : Motion) (p : ReadableMotion sent_heap m).
                unfold motion_object motion_text in read_motion-motion_text sent_heap m p.0)
              readable.4)

    jumps_read :
        jump_entries (serialize_room_state info now r sounds)
        ≡ some (map (jump_entry sent_heap) sent_jumps)
    unfolding jump_entries
    jumps_read =
        ap (λ t. read_array read_jump (section (codes "\"jumps\":[") (codes "]") 9 t)) as_objects
        ∙ ap (read_array read_jump) (
            jump_section (room_fields info now r) (sounds_to_use r sounds)
              (map (piece_object sent_heap sent_arbiter) sent_pieces)
              (map (motion_object sent_heap) sent_motions) (map (jump_object sent_heap) sent_jumps)
              readable.1 readable.2 tame_pieces tame_motions tame_jumps)
        ∙ read_array-joined read_jump (jump_object sent_heap) (jump_entry sent_heap) sent_jumps
            tame_jumps
            (Each-map _ _ sent_jumps
              (λ (j : Jump) (p : ReadableJump sent_heap j).
                unfold jump_object jump_text in read_jump-jump_text sent_heap j p.0)
              readable.5)

-- What the client reads from a text: the fields, the pieces with their cooldowns, the motions and the
-- jumps.
pub record Reads (text : Str) (info : ClientRef → ClientInfo) (now : ℕ) (r : Room) : Type 0 where
  pub fields : read_fields text ≡ some (fields_of info now r)
  pub pieces :
      piece_entries text
      ≡ some (
          map
            (entry_of r.game_engine.world.heap r.game_engine.arbiter)
            (pieces_to_serialize r.game_engine.world r.game_engine.arbiter))
  pub motions :
      motion_entries text
      ≡ some (
          map
            (motion_entry r.game_engine.world.heap)
            (motions_with_piece r.game_engine.arbiter.active_motions))
  pub jumps :
      jump_entries text
      ≡ some (
          map
            (jump_entry r.game_engine.world.heap)
            (jumps_with_piece r.game_engine.arbiter.active_jumps))

-- The client reads from the text that the server sends of a room exactly the room's names, ratings,
-- score and countdown, every piece with its cell and its cooldown, every motion of a piece and every
-- jump of a piece, in their order. The numbers must fit an `int`, and no text in the state may have a
-- quote, a closing brace or a closing bracket, or be a key that the client searches for.
pub serialize_room_state-Reads :
    (info : ClientRef → ClientInfo) (now : ℕ) (r : Room) (sounds : List Str)
    → IsReadable info now r sounds
    → Reads (serialize_room_state info now r sounds) info now r
serialize_room_state-Reads info now r sounds readable = record {
  fields = read_fields-serialize_room_state info now r sounds readable.0;
  pieces = pieces_read info now r sounds readable;
  motions = motions_read info now r sounds readable;
  jumps = jumps_read info now r sounds readable;
}
