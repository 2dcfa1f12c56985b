-- ===== src/Client/Arrays/Objects.antt =====
-- The characters that stand nowhere inside the objects of a state, and the search that passes over
-- the objects of an array.
use mathlib.Core.List.{append_assoc}
use ctd_project.Base.{
  ◌≡◌, refl, sym, ap, subst, ◌∙◌, ℕ, Bool, true, false, ◌&&◌, ◌||◌, List, [], ◌∷◌, ◌++◌, ◌==◌, map,
  Str, arith, both, and_left, and_right, Bool-cases, inl, inr, to_string,
}
use ctd_project.Text.{cut}
use ctd_project.Text.Search.{lacks-append, Skips, Skips-append, lacks, lacks-Skips, behind_nil}
use ctd_project.Json.{
  quoted, Value, text, number, truth, value_text, Field, field_text, fields_text, object_text,
  joined,
}
use ctd_project.Json.Lookup.{lacks-none_pass, quoted-Skips, to_string_plain}
use ctd_project.Json.Keys.{is_apart}
use ctd_project.Client.Arrays.{
  array_keys, is_tame, tame_value, tame_field, tame_fields, IsArrayKey, tame_other,
  object_text-Skips,
}

pub record Object : Type 0 where
  pub fields : List Field
  pub last : Field

abbrev pub text_of : Object → Str
text_of o = object_text o.fields o.last

-- The text between the braces.
abbrev pub inner_text : Object → Str
inner_text o = fields_text o.fields ++ field_text o.last

abbrev pub tame_object : Object → Bool
tame_object o = tame_fields o.fields && tame_field o.last

abbrev pub tame_objects : List Object → Bool
tame_objects [] = true
tame_objects (o ∷ os) = tame_object o && tame_objects os

-- A closing brace or bracket.
abbrev pub is_closing : ℕ → Bool
is_closing c = (c == b'}') || (c == b']')

module _ (c : ℕ) (closes : is_closing c ≡ true) where
  lacks_tame : (t : Str) → is_tame t ≡ true → lacks c t ≡ true
  lacks_tame t h =
      let closing = and_right (is_apart array_keys t) (lacks b'}' t && lacks b']' t) h in
      elim (Bool-cases (c == b'}')) [
        | inl e ↦
            let same : b'}' ≡ c = ground (arith, e) in
            subst (λ d. lacks d t ≡ true) same (and_left (lacks b'}' t) (lacks b']' t) closing)
        | inr e ↦
            let same : b']' ≡ c = ground (arith, e, closes) in
            subst (λ d. lacks d t ≡ true) same (and_right (lacks b'}' t) (lacks b']' t) closing)
      ]

  lacks-quoted : (t : Str) → lacks c t ≡ true → lacks c (quoted t) ≡ true
  lacks-quoted t n =
      both (ground (arith, closes))
        (lacks-append c t (b'"' ∷ []) n (both (ground (arith, closes)) refl))

  lacks_value : (v : Value) → tame_value v ≡ true → lacks c (value_text v) ≡ true
  lacks_value (text t) h = lacks-quoted t (lacks_tame t h)
  lacks_value (number z) h =
      lacks-none_pass c (to_string z) (ground (arith, closes)) (to_string_plain z)
  lacks_value (truth true) h = ground (arith, closes)
  lacks_value (truth false) h = ground (arith, closes)

  lacks_field : (f : Field) → tame_field f ≡ true → lacks c (field_text f) ≡ true
  lacks_field f h =
      lacks-append c (quoted f.key) (b':' ∷ value_text f.value)
        (lacks-quoted f.key (lacks_tame f.key (and_left _ _ h)))
        (both (ground (arith, closes)) (lacks_value f.value (and_right _ _ h)))

  lacks_fields : (fs : List Field) → tame_fields fs ≡ true → lacks c (fields_text fs) ≡ true
  lacks_fields [] h = refl
  lacks_fields (f ∷ fs) h =
      lacks-append c (field_text f) (b',' ∷ fields_text fs) (lacks_field f (and_left _ _ h))
        (both (ground (arith, closes)) (lacks_fields fs (and_right _ _ h)))

  pub lacks-inner_text : (o : Object) → tame_object o ≡ true → lacks c (inner_text o) ≡ true
  lacks-inner_text o h =
      lacks-append c (fields_text o.fields) (field_text o.last)
        (lacks_fields o.fields (and_left _ _ h)) (lacks_field o.last (and_right _ _ h))

-- No closing bracket stands in the objects of an array.
pub lacks-text_of : (o : Object) → tame_object o ≡ true → lacks b']' (text_of o) ≡ true
lacks-text_of o h =
    let n = lacks-inner_text b']' refl o h in
    both refl (
      subst (λ s. lacks b']' s ≡ true)
        (append_assoc (fields_text o.fields) (field_text o.last) (b'}' ∷ []))
        (lacks-append b']' (inner_text o) (b'}' ∷ []) n refl))

pub lacks-joined :
    (os : List Object) → tame_objects os ≡ true → lacks b']' (joined (map text_of os)) ≡ true
lacks-joined [] h = refl
lacks-joined (o ∷ []) h = lacks-text_of o (and_left _ _ h)
lacks-joined (o ∷ p ∷ os) h =
    lacks-append b']' (text_of o) (b',' ∷ joined (map text_of (p ∷ os)))
      (lacks-text_of o (and_left _ _ h)) (both refl (lacks-joined (p ∷ os) (and_right _ _ h)))

-- The search for an array passes over the objects of another one.
pub joined-Skips :
    (k : Str) (os : List Object)
    → IsArrayKey k
    → tame_objects os ≡ true
    → Skips (quoted k) (joined (map text_of os))
joined-Skips k [] a h rest = behind_nil (cut (quoted k) rest)
joined-Skips k (o ∷ []) a h rest =
    let t = and_left _ _ h in
    object_text-Skips k o.fields o.last a (and_left _ _ t) (and_right _ _ t) rest
joined-Skips k (o ∷ p ∷ os) a h rest =
    let t = and_left _ _ h in
    Skips-append (quoted k) (text_of o) (b',' ∷ joined (map text_of (p ∷ os)))
      (object_text-Skips k o.fields o.last a (and_left _ _ t) (and_right _ _ t))
      (Skips-append (quoted k) (b',' ∷ []) (joined (map text_of (p ∷ os)))
        (lacks-Skips b'"' (k ++ b'"' ∷ []) (b',' ∷ []) refl)
        (joined-Skips k (p ∷ os) a (and_right _ _ h)))
      rest

abbrev pub all_tame : List Str → Bool
all_tame [] = true
all_tame (s ∷ ss) = is_tame s && all_tame ss

split_sound : (s u : Str) → (b'"' ∷ (s ++ b'"' ∷ b',' ∷ [])) ++ u ≡ quoted s ++ b',' ∷ u
split_sound s u = simp (append_assoc)

-- The search for an array passes over the sounds.
pub sounds-Skips :
    (k : Str) (ss : List Str)
    → IsArrayKey k
    → all_tame ss ≡ true
    → Skips (quoted k) (joined (map quoted ss) ++ b']' ∷ [])
sounds-Skips k [] a h rest = lacks-Skips b'"' (k ++ b'"' ∷ []) (b']' ∷ []) refl rest
sounds-Skips k (s ∷ []) (i, e, key) h rest =
    subst (Skips (quoted k)) (ap (λ u. b'"' ∷ u) (sym (append_assoc s (b'"' ∷ []) (b']' ∷ []))))
      (quoted-Skips k s b']' key (tame_other k s (i, e, key) (and_left _ _ h)) refl) rest
sounds-Skips k (s ∷ t ∷ ss) (i, e, key) h rest =
    subst (Skips (quoted k))
      (split_sound s (joined (map quoted (t ∷ ss)) ++ b']' ∷ [])
        ∙ sym (append_assoc (quoted s) (b',' ∷ joined (map quoted (t ∷ ss))) (b']' ∷ [])))
      (Skips-append (quoted k) (b'"' ∷ (s ++ b'"' ∷ b',' ∷ []))
        (joined (map quoted (t ∷ ss)) ++ b']' ∷ [])
        (quoted-Skips k s b',' key (tame_other k s (i, e, key) (and_left _ _ h)) refl)
        (sounds-Skips k (t ∷ ss) (i, e, key) (and_right _ _ h)))
      rest
