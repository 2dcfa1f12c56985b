-- ===== src/Json/Lookup.antt =====
-- Looking a key up in the fields that the server writes.
use mathlib.Core.List.{append_assoc}
use ctd_project.Base.{
  ◌≡◌, refl, sym, ap, subst, ◌∙◌, Bool, true, false, not, ◌&&◌, ◌||◌, List, [], ◌∷◌, ◌++◌, ◌==◌, ℕ,
  Str, str_eq, str_eq_iff, codes, arith, both, and_left, and_right, zero, suc, ◌+◌, ◌/◌, ◌%◌, ◌<◌,
  ltb, ℤ, pos, negsuc, to_string, digits_before, Bool-cases, inl, inr,
}
use ctd_project.Text.{starts_with, cut}
use ctd_project.Text.Search.{
  Skips, lacks, lacks-Skips, Skips-append, cons-Skips, behind_nil, none_pass,
}
use ctd_project.Json.{
  quoted, Value, text, number, truth, value_text, Field, field_text, fields_text,
}

-- What may stand behind a closing quote.
abbrev pub is_mark : ℕ → Bool
is_mark d = (d == b',') || (d == b':') || (d == b']') || (d == b'}')

-- A key has no quote and no colon, and does not begin with a mark.
abbrev pub is_key : Str → Bool
is_key [] = false
is_key (c ∷ k) = not (is_mark c) && (lacks b'"' (c ∷ k) && lacks b':' (c ∷ k))

-- A text without quotes that is not the key.
abbrev pub is_other : Str → Str → Bool
is_other key t = lacks b'"' t && not (str_eq key t)

-- A search for the key passes over the field.
abbrev pub passes_value : Str → Value → Bool
passes_value key (text t) = is_other key t
passes_value key (number z) = true
passes_value key (truth b) = true

abbrev pub passes : Str → List Field → Bool
passes key [] = true
passes key (f ∷ fs) = is_other key f.key && (passes_value key f.value && passes key fs)

-- Two texts without quotes, one in front of a quote, are the same if one begins the other.
same_word :
    (k t rest : Str)
    → lacks b'"' k ≡ true
    → lacks b'"' t ≡ true
    → starts_with (k ++ b'"' ∷ []) (t ++ b'"' ∷ rest) ≡ true
    → k ≡ t
unfolding starts_with
same_word [] [] rest nk nt e = refl
same_word [] (c ∷ t) rest nk nt e = absurd (ground arith)
same_word (c ∷ k) [] rest nk nt e = absurd (ground arith)
same_word (c ∷ k) (d ∷ t) rest nk nt e =
    let head : c ≡ d = ground arith in
    let tail = same_word k t rest (ground arith) (ground arith) (ground arith) in cc (head, tail)

other-apart :
    (key t rest : Str)
    → lacks b'"' key ≡ true
    → is_other key t ≡ true
    → starts_with (quoted key) (b'"' ∷ (t ++ b'"' ∷ rest)) ≡ false
unfolding starts_with
other-apart key t rest nk o =
    elim (Bool-cases (starts_with (key ++ b'"' ∷ []) (t ++ b'"' ∷ rest))) [
      | inl e ↦ absurd (ground (arith, str_eq_iff key t, same_word key t rest nk (ground arith) e))
      | inr e ↦ e
    ]

-- Behind the closing quote stands a mark, with which no key begins.
closing-apart :
    (key rest : Str) (d : ℕ)
    → is_key key ≡ true
    → is_mark d ≡ true
    → starts_with (quoted key) (b'"' ∷ d ∷ rest) ≡ false
unfolding starts_with
closing-apart [] rest d k h = absurd (cc k)
closing-apart (c ∷ key) rest d k h = ground arith

lacks_quote : (key : Str) → is_key key ≡ true → lacks b'"' key ≡ true
lacks_quote [] k = refl
lacks_quote (c ∷ key) k = ground arith

closing-Skips :
    (key : Str) (d : ℕ) → is_key key ≡ true → is_mark d ≡ true → Skips (quoted key) (b'"' ∷ d ∷ [])
closing-Skips key d k h =
    cons-Skips (quoted key) b'"' (d ∷ []) (λ rest. closing-apart key rest d k h)
      (lacks-Skips b'"' (key ++ b'"' ∷ []) (d ∷ []) (ground arith))

pub quoted-Skips :
    (key t : Str) (d : ℕ)
    → is_key key ≡ true
    → is_other key t ≡ true
    → is_mark d ≡ true
    → Skips (quoted key) (b'"' ∷ (t ++ b'"' ∷ d ∷ []))
quoted-Skips key t d k o h =
    cons-Skips (quoted key) b'"' (t ++ b'"' ∷ d ∷ [])
      (λ rest.
        ap (λ u. starts_with (quoted key) (b'"' ∷ u)) (append_assoc t (b'"' ∷ d ∷ []) rest)
        ∙ other-apart key t (d ∷ rest) (lacks_quote key k) o)
      (Skips-append (quoted key) t (b'"' ∷ d ∷ [])
        (lacks-Skips b'"' (key ++ b'"' ∷ []) t (ground arith)) (closing-Skips key d k h))

-- No mark of the JSON text and no space stands in a printed number.
abbrev pub is_special : ℕ → Bool
is_special c =
    (c == b'"')
    || (c == b',')
    || (c == b'{')
    || (c == b'}')
    || (c == b'[')
    || (c == b']')
    || (c == b' ')
    || (c == b'\n')
    || (c == b'\r')

no_special :
    (fuel n : ℕ) (s : Str)
    → none_pass is_special s ≡ true
    → n < fuel
    → none_pass is_special (digits_before fuel n s) ≡ true
unfolding digits_before
no_special zero n s c h = absurd (omega arith)
no_special (suc fuel) n s c h =
    let more = no_special fuel (n / 10) ((b'0' + n % 10) ∷ s) in
    elim (Bool-cases (ltb n 10)) [
      | inl small ↦ rw small (ground arith)
      | inr large ↦ rw large (more (ground arith) (ground arith))
    ]

pub to_string_plain : (z : ℤ) → none_pass is_special (to_string z) ≡ true
unfolding to_string
to_string_plain (pos n) = no_special (suc n) n [] refl (omega arith)
to_string_plain (negsuc n) = no_special (suc (suc n)) (suc n) [] refl (omega arith)

pub lacks-none_pass :
    (c : ℕ) (s : Str) → is_special c ≡ true → none_pass is_special s ≡ true → lacks c s ≡ true
lacks-none_pass c [] e n = refl
lacks-none_pass c (d ∷ s) e n = both (ground arith) (lacks-none_pass c s e (and_right _ _ n))

plain-Skips :
    (key s : Str) (d : ℕ)
    → none_pass is_special s ≡ true
    → is_mark d ≡ true
    → Skips (quoted key) (s ++ d ∷ [])
plain-Skips key s d n m =
    Skips-append (quoted key) s (d ∷ [])
      (lacks-Skips b'"' (key ++ b'"' ∷ []) s (lacks-none_pass b'"' s refl n))
      (lacks-Skips b'"' (key ++ b'"' ∷ []) (d ∷ []) (ground arith))

-- A value in front of a mark.
pub value-Skips :
    (key : Str) (v : Value) (d : ℕ)
    → is_key key ≡ true
    → passes_value key v ≡ true
    → is_mark d ≡ true
    → Skips (quoted key) (value_text v ++ d ∷ [])
value-Skips key (text t) d k p m =
    subst (Skips (quoted key)) (ap (λ u. b'"' ∷ u) (sym (append_assoc t (b'"' ∷ []) (d ∷ []))))
      (quoted-Skips key t d k p m)
value-Skips key (number z) d k p m = plain-Skips key (to_string z) d (to_string_plain z) m
value-Skips key (truth true) d k p m = plain-Skips key (codes "true") d refl m
value-Skips key (truth false) d k p m = plain-Skips key (codes "false") d refl m

split_field :
    (f : Field) (d : ℕ)
    → (b'"' ∷ (f.key ++ b'"' ∷ b':' ∷ [])) ++ (value_text f.value ++ d ∷ [])
      ≡ field_text f ++ d ∷ []
split_field f d = simp (append_assoc)

-- A field in front of a mark.
pub field-Skips :
    (key : Str) (f : Field) (d : ℕ)
    → is_key key ≡ true
    → is_other key f.key ≡ true
    → passes_value key f.value ≡ true
    → is_mark d ≡ true
    → Skips (quoted key) (field_text f ++ d ∷ [])
field-Skips key f d k o p m = subst (Skips (quoted key)) (split_field f d) (
    Skips-append (quoted key) (b'"' ∷ (f.key ++ b'"' ∷ b':' ∷ [])) (value_text f.value ++ d ∷ [])
      (quoted-Skips key f.key b':' k o refl) (value-Skips key f.value d k p m))

-- A search for the key passes over fields that have another key and another value.
pub fields_text-Skips :
    (key : Str) (fs : List Field)
    → is_key key ≡ true
    → passes key fs ≡ true
    → Skips (quoted key) (fields_text fs)
fields_text-Skips key [] k p = λ rest. behind_nil (cut (quoted key) rest)
fields_text-Skips key (f ∷ fs) k p =
    subst (Skips (quoted key)) (append_assoc (field_text f) (b',' ∷ []) (fields_text fs)) (
      Skips-append (quoted key) (field_text f ++ b',' ∷ []) (fields_text fs)
        (field-Skips key f b',' k (and_left _ _ p) (and_left _ _ (and_right _ _ p)) refl)
        (fields_text-Skips key fs k (and_right _ _ (and_right _ _ p))))
