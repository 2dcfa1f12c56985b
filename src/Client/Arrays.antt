-- ===== src/Client/Arrays.antt =====
-- The arrays of a state are found in its text.
pub mod Objects
pub mod Sections
use mathlib.Core.List.{append-nil, append_assoc}
use ctd_project.Base.{
  ◌≡◌, refl, sym, ap, subst, ◌∙◌, ℕ, zero, suc, Bool, true, false, not, ◌&&◌, Option, none, some,
  List, [], ◌∷◌, ◌++◌, ◌>>=◌, ◌==◌, map, Str, codes, str_eq, arith, both, and_left, and_right,
  get_elem?, to_string,
}
use ctd_project.Text.{cut, find, rest_of, before_of, starts_with, drop}
use ctd_project.Text.Search.{
  Skips, Skips-append, Skips-longer, lacks, lacks-Skips, cut-Skips, behind_nil, none_pass,
}
use ctd_project.Json.{
  quoted, Value, text, number, truth, value_text, Field, field_text, fields_text, object_text,
  joined, array_text, bool_text,
}
use ctd_project.Json.Lookup.{
  is_key, is_other, is_mark, is_special, passes, passes_value, quoted-Skips, field-Skips,
  fields_text-Skips, to_string_plain,
}
use ctd_project.Json.Keys.{is_apart, other}
use ctd_project.Client.Reading.{section}
use ctd_project.Client.Spans.Elements.{element, all_lack}

pub section-found :
    (start stop before inner rest : Str) (n : ℕ)
    → Skips start before
    → Skips stop (start ++ inner)
    → drop n (start ++ inner) ≡ inner
    → section start stop n (before ++ (start ++ (inner ++ (stop ++ rest)))) ≡ some inner
unfolding section
section-found start stop before inner rest n f g d =
    rw (ap rest_of (cut-Skips start before (inner ++ (stop ++ rest)) f)) (
      rw (sym (append_assoc start inner (stop ++ rest)))
        (rw (cut-Skips stop (start ++ inner) rest g) (ap some d)))

abbrev pub array_keys : List Str
array_keys = codes "sounds" ∷ codes "pieces" ∷ codes "motions" ∷ codes "jumps" ∷ []

-- A text that does not disturb the search for an array or its elements.
abbrev pub is_tame : Str → Bool
is_tame t = is_apart array_keys t && (lacks b'}' t && lacks b']' t)

abbrev pub tame_value : Value → Bool
tame_value (text t) = is_tame t
tame_value (number z) = true
tame_value (truth b) = true

abbrev pub tame_field : Field → Bool
tame_field f = is_tame f.key && tame_value f.value

abbrev pub tame_fields : List Field → Bool
tame_fields [] = true
tame_fields (f ∷ fs) = tame_field f && tame_fields fs

-- The keys of the arrays.
abbrev pub IsArrayKey : Str → Type 0
IsArrayKey k = (i : ℕ) × (get_elem? array_keys i ≡ some k) × (is_key k ≡ true)

pub tame_other : (k t : Str) → IsArrayKey k → is_tame t ≡ true → is_other k t ≡ true
tame_other k t (i, e, key) h = other array_keys i k t e (and_left _ _ h)

tame_passes_value :
    (k : Str) (v : Value) → IsArrayKey k → tame_value v ≡ true → passes_value k v ≡ true
tame_passes_value k (text t) a h = tame_other k t a h
tame_passes_value k (number z) a h = refl
tame_passes_value k (truth b) a h = refl

tame_passes :
    (k : Str) (fs : List Field) → IsArrayKey k → tame_fields fs ≡ true → passes k fs ≡ true
tame_passes k [] a h = refl
tame_passes k (f ∷ fs) a h =
    let g = and_left _ _ h in
    both (tame_other k f.key a (and_left _ _ g)) (
      both (tame_passes_value k f.value a (and_right _ _ g)) (tame_passes k fs a (and_right _ _ h)))

-- The search for an array passes over the text of an object.
pub object_text-Skips :
    (k : Str) (fs : List Field) (last : Field)
    → IsArrayKey k
    → tame_fields fs ≡ true
    → tame_field last ≡ true
    → Skips (quoted k) (object_text fs last)
object_text-Skips k fs last (i, e, key) h g =
    let a : IsArrayKey k = (i, e, key) in
    Skips-append (quoted k) (b'{' ∷ []) (fields_text fs ++ (field_text last ++ b'}' ∷ []))
      (lacks-Skips b'"' (k ++ b'"' ∷ []) (b'{' ∷ []) refl)
      (Skips-append (quoted k) (fields_text fs) (field_text last ++ b'}' ∷ [])
        (fields_text-Skips k fs key (tame_passes k fs a h))
        (field-Skips k last b'}' key (tame_other k last.key a (and_left _ _ g))
          (tame_passes_value k last.value a (and_right _ _ g)) refl))
