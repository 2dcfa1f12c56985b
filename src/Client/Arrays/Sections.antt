-- ===== src/Client/Arrays/Sections.antt =====
-- The client finds the three arrays in a state and the objects in them.
use mathlib.Core.List.{append_assoc}
use ctd_project.Base.{
  ◌≡◌, refl, sym, ap, subst, ◌∙◌, true, some, List, [], ◌∷◌, ◌++◌, map, Str, codes, str_eq, both,
  and_left, and_right,
}
use ctd_project.Text.Search.{lacks-append, Skips, Skips-append, Skips-longer, lacks-Skips}
use ctd_project.Json.{quoted, Field, field_text, fields_text, joined, array_text}
use ctd_project.Json.Lookup.{is_other, quoted-Skips, fields_text-Skips}
use ctd_project.Server.State.{arrays_text}
use ctd_project.Client.Reading.{section, objects, spans}
use ctd_project.Client.Spans.Elements.{element, all_lack, spans-joined}
use ctd_project.Client.Arrays.{IsArrayKey, tame_fields, tame_passes, section-found}
use ctd_project.Client.Arrays.Objects.{
  Object, text_of, inner_text, tame_objects, lacks-inner_text, lacks-joined, joined-Skips,
  sounds-Skips, all_tame,
}

-- An array in front of a comma is passed over.
array-Skips :
    (k key : Str) (items : List Str)
    → IsArrayKey k
    → is_other k key ≡ true
    → Skips (quoted k) (joined items ++ b']' ∷ [])
    → Skips (quoted k) (array_text key items ++ b',' ∷ [])
array-Skips k key items (i, e, ke) o f = subst (Skips (quoted k)) (split_array key (joined items)) (
    Skips-append (quoted k) (b'"' ∷ (key ++ b'"' ∷ b':' ∷ []))
      (b'[' ∷ ((joined items ++ b']' ∷ []) ++ b',' ∷ [])) (quoted-Skips k key b':' ke o refl)
      (Skips-append (quoted k) (b'[' ∷ []) ((joined items ++ b']' ∷ []) ++ b',' ∷ [])
        (lacks-Skips b'"' (k ++ b'"' ∷ []) (b'[' ∷ []) refl)
        (Skips-append (quoted k) (joined items ++ b']' ∷ []) (b',' ∷ []) f
          (lacks-Skips b'"' (k ++ b'"' ∷ []) (b',' ∷ []) refl))))
  where
    split_array :
        (key u : Str)
        → (b'"' ∷ (key ++ b'"' ∷ b':' ∷ [])) ++ (b'[' ∷ ((u ++ b']' ∷ []) ++ b',' ∷ []))
          ≡ (quoted key ++ b':' ∷ b'[' ∷ (u ++ b']' ∷ [])) ++ b',' ∷ []
    split_array key u = simp (append_assoc)

objects-Skips :
    (k : Str) (os : List Object)
    → IsArrayKey k
    → tame_objects os ≡ true
    → Skips (quoted k) (joined (map text_of os) ++ b']' ∷ [])
objects-Skips k os a h =
    Skips-append (quoted k) (joined (map text_of os)) (b']' ∷ []) (joined-Skips k os a h)
      (lacks-Skips b'"' (k ++ b'"' ∷ []) (b']' ∷ []) refl)

pieces_key : IsArrayKey (codes "pieces")
pieces_key = (1, refl, refl)

motions_key : IsArrayKey (codes "motions")
motions_key = (2, refl, refl)

jumps_key : IsArrayKey (codes "jumps")
jumps_key = (3, refl, refl)

module _ (fs : List Field) (sounds : List Str) (ps ms js : List Object) (fh : tame_fields fs ≡ true)
    (sh : all_tame sounds ≡ true) (ph : tame_objects ps ≡ true) (mh : tame_objects ms ≡ true) where
  -- The text of a state, and what stands in front of each array.
  abbrev pub state_text : Str
  state_text =
      b'{'
      ∷ (fields_text fs ++ arrays_text sounds (map text_of ps) (map text_of ms) (map text_of js))

  before_pieces : Str
  before_pieces =
      b'{' ∷ (fields_text fs ++ (array_text (codes "sounds") (map quoted sounds) ++ b',' ∷ []))

  before_motions : Str
  unfolding before_pieces
  before_motions = before_pieces ++ (array_text (codes "pieces") (map text_of ps) ++ b',' ∷ [])

  before_jumps : Str
  unfolding before_motions
  before_jumps = before_motions ++ (array_text (codes "motions") (map text_of ms) ++ b',' ∷ [])

  before_pieces-Skips :
      (k : Str) → IsArrayKey k → is_other k (codes "sounds") ≡ true → Skips (quoted k) before_pieces
  unfolding before_pieces
  before_pieces-Skips k (i, e, ke) o =
      Skips-append (quoted k) (b'{' ∷ [])
        (fields_text fs ++ (array_text (codes "sounds") (map quoted sounds) ++ b',' ∷ []))
        (lacks-Skips b'"' (k ++ b'"' ∷ []) (b'{' ∷ []) refl)
        (Skips-append (quoted k) (fields_text fs)
          (array_text (codes "sounds") (map quoted sounds) ++ b',' ∷ [])
          (fields_text-Skips k fs ke (tame_passes k fs (i, e, ke) fh))
          (array-Skips k (codes "sounds") (map quoted sounds) (i, e, ke) o
            (sounds-Skips k sounds (i, e, ke) sh)))

  before_motions-Skips :
      (k : Str)
      → IsArrayKey k
      → is_other k (codes "sounds") ≡ true
      → is_other k (codes "pieces") ≡ true
      → Skips (quoted k) before_motions
  unfolding before_motions
  before_motions-Skips k a o o' =
      Skips-append (quoted k) before_pieces
        (array_text (codes "pieces") (map text_of ps) ++ b',' ∷ []) (before_pieces-Skips k a o)
        (array-Skips k (codes "pieces") (map text_of ps) a o' (objects-Skips k ps a ph))

  -- What stands behind the pieces, and behind the motions.
  behind_motions : Str
  behind_motions = joined (map text_of js) ++ b']' ∷ b'}' ∷ []

  behind_pieces : Str
  unfolding behind_motions
  behind_pieces = joined (map text_of ms) ++ (codes "],\"jumps\":[" ++ behind_motions)

  split_pieces :
      state_text
      ≡ before_pieces
        ++ (codes "\"pieces\":["
            ++ (joined (map text_of ps) ++ (codes "],\"motions\":" ++ b'[' ∷ behind_pieces)))
  unfolding before_pieces behind_pieces
  split_pieces = simp (append_assoc)

  split_motions :
      state_text
      ≡ before_motions
        ++ (codes "\"motions\":["
            ++ (joined (map text_of ms) ++ (codes "],\"jumps\":" ++ b'[' ∷ behind_motions)))
  unfolding before_motions behind_motions
  split_motions = simp (append_assoc)

  split_jumps :
      state_text
      ≡ before_jumps
        ++ (codes "\"jumps\":[" ++ (joined (map text_of js) ++ (codes "]" ++ b'}' ∷ [])))
  unfolding before_jumps
  split_jumps = simp (append_assoc)

  -- The elements stand between their brackets.
  pub piece_section :
      section (codes "\"pieces\":[") (codes "],\"motions\":") 10 state_text
      ≡ some (joined (map text_of ps))
  unfolding str_eq
  piece_section =
      ap (section (codes "\"pieces\":[") (codes "],\"motions\":") 10) split_pieces
      ∙ section-found (codes "\"pieces\":[") (codes "],\"motions\":") before_pieces
          (joined (map text_of ps)) (b'[' ∷ behind_pieces) 10
          (Skips-longer (quoted (codes "pieces")) (codes ":[") before_pieces
            (before_pieces-Skips (codes "pieces") pieces_key refl))
          (lacks-Skips b']' (codes ",\"motions\":")
            (codes "\"pieces\":[" ++ joined (map text_of ps))
            (lacks-append b']' (codes "\"pieces\":[") (joined (map text_of ps)) refl
              (lacks-joined ps ph)))
          refl

  pub motion_section :
      section (codes "\"motions\":[") (codes "],\"jumps\":") 11 state_text
      ≡ some (joined (map text_of ms))
  unfolding str_eq
  motion_section =
      ap (section (codes "\"motions\":[") (codes "],\"jumps\":") 11) split_motions
      ∙ section-found (codes "\"motions\":[") (codes "],\"jumps\":") before_motions
          (joined (map text_of ms)) (b'[' ∷ behind_motions) 11
          (Skips-longer (quoted (codes "motions")) (codes ":[") before_motions
            (before_motions-Skips (codes "motions") motions_key refl refl))
          (lacks-Skips b']' (codes ",\"jumps\":") (codes "\"motions\":[" ++ joined (map text_of ms))
            (lacks-append b']' (codes "\"motions\":[") (joined (map text_of ms)) refl
              (lacks-joined ms mh)))
          refl

  before_jumps-Skips : Skips (quoted (codes "jumps")) before_jumps
  unfolding before_jumps str_eq
  before_jumps-Skips =
      Skips-append (quoted (codes "jumps")) before_motions
        (array_text (codes "motions") (map text_of ms) ++ b',' ∷ [])
        (before_motions-Skips (codes "jumps") jumps_key refl refl)
        (array-Skips (codes "jumps") (codes "motions") (map text_of ms) jumps_key refl
          (objects-Skips (codes "jumps") ms jumps_key mh))

  pub jump_section :
      tame_objects js ≡ true
      → section (codes "\"jumps\":[") (codes "]") 9 state_text ≡ some (joined (map text_of js))
  jump_section jh =
      ap (section (codes "\"jumps\":[") (codes "]") 9) split_jumps
      ∙ section-found (codes "\"jumps\":[") (codes "]") before_jumps (joined (map text_of js))
          (b'}' ∷ []) 9
          (Skips-longer (quoted (codes "jumps")) (codes ":[") before_jumps before_jumps-Skips)
          (lacks-Skips b']' [] (codes "\"jumps\":[" ++ joined (map text_of js)) (
            lacks-append b']' (codes "\"jumps\":[") (joined (map text_of js)) refl
              (lacks-joined js jh)))
          refl

as_elements : (os : List Object) → map text_of os ≡ map (element b'{' b'}') (map inner_text os)
as_elements [] = refl
as_elements (o ∷ os) =
    cong_cons
      (ap (λ u. b'{' ∷ u)
        (sym (append_assoc (fields_text o.fields) (field_text o.last) (b'}' ∷ []))))
      (as_elements os)
  where
    cong_cons : {s t : Str} {ss ts : List Str} → s ≡ t → ss ≡ ts → (s ∷ ss) ≡ (t ∷ ts)
    cong_cons e f = cc (e, f)

inner_lack : (os : List Object) → tame_objects os ≡ true → all_lack b'}' (map inner_text os) ≡ true
inner_lack [] h = refl
inner_lack (o ∷ os) h =
    both (lacks-inner_text b'}' refl o (and_left _ _ h)) (inner_lack os (and_right _ _ h))

-- The objects of an array are read one by one.
pub objects-joined :
    (os : List Object) → tame_objects os ≡ true → objects (joined (map text_of os)) ≡ map text_of os
unfolding objects
objects-joined os h =
    ap (λ ss. map (element b'{' b'}') (spans b'{' b'}' (joined ss))) (as_elements os)
    ∙ ap (map (element b'{' b'}'))
        (spans-joined b'{' b'}' refl (map inner_text os) (inner_lack os h))
    ∙ sym (as_elements os)
