-- ===== src/Json/Values.antt =====
-- The client reads a field back that the server has written behind other fields.
use mathlib.Core.List.{append_assoc}
use ctd_project.Base.{
  ◌≡◌, refl, sym, ap, ◌∙◌, Bool, true, false, some, List, [], ◌∷◌, ◌++◌, ◌==◌, ℕ, ℤ, Str, codes,
  to_string, arith,
}
use ctd_project.Text.{cut, find, before_of, rest_of, is_int, starts_with}
use ctd_project.Text.Search.{
  lacks, lacks-Skips, Skips-append, cut-Skips, cut-lacks, none_pass, cut_at-none_pass,
}
use ctd_project.Text.Numbers.{stoi-to_string}
use ctd_project.Json.{
  quoted, string_at, value_at, string_field, int_field, bool_field, or_empty, is_comma_or_brace,
  extract_string, extract_int, extract_bool, int_of, bool_of, bool_text, value_text, Field,
  field_text, fields_text,
}
use ctd_project.Json.Lookup.{is_key, passes, is_special, to_string_plain, fields_text-Skips}

-- The text of an object, up to a field and its value.
abbrev pub within : List Field → Str → Str → Str → Str
within fs key value rest = b'{' ∷ (fields_text fs ++ (quoted key ++ b':' ∷ (value ++ rest)))

lacks_behind :
    (c : ℕ) (s : Str) → lacks c s ≡ true → (c == b'"') ≡ false → lacks c (s ++ b'"' ∷ []) ≡ true
lacks_behind c [] n q = ground arith
lacks_behind c (d ∷ s) n q = ground (arith, lacks_behind c s (ground arith) q)

pub lacks_colon : (key : Str) → is_key key ≡ true → lacks b':' (quoted key) ≡ true
lacks_colon [] k = absurd (cc k)
lacks_colon (c ∷ key) k = lacks_behind b':' (c ∷ key) (ground arith) refl

find-within :
    (key value rest : Str) (fs : List Field)
    → is_key key ≡ true
    → passes key fs ≡ true
    → find (quoted key) (within fs key value rest) ≡ some (quoted key ++ b':' ∷ (value ++ rest))
find-within key value rest fs k p = ap rest_of (
    cut-Skips (quoted key) (b'{' ∷ fields_text fs) (b':' ∷ (value ++ rest)) (
      Skips-append (quoted key) (b'{' ∷ []) (fields_text fs)
        (lacks-Skips b'"' (key ++ b'"' ∷ []) (b'{' ∷ []) refl) (fields_text-Skips key fs k p)))

find-colon :
    (key value rest : Str)
    → is_key key ≡ true
    → find (b':' ∷ []) (quoted key ++ b':' ∷ (value ++ rest)) ≡ some (b':' ∷ (value ++ rest))
find-colon key value rest k =
    ap rest_of (cut-lacks b':' (quoted key) (value ++ rest) (lacks_colon key k))

find_quote : (u : Str) → find (b'"' ∷ []) (b':' ∷ b'"' ∷ u) ≡ some (b'"' ∷ u)
unfolding cut starts_with
find_quote u = refl

string_at-within :
    (key s rest : Str) (fs : List Field)
    → is_key key ≡ true
    → passes key fs ≡ true
    → lacks b'"' s ≡ true
    → string_at (within fs key (quoted s) rest) key ≡ some s
unfolding string_at
string_at-within key s rest fs k p n = rw (find-within key (quoted s) rest fs k p) (
    rw (find-colon key (quoted s) rest k) (
      rw (find_quote ((s ++ b'"' ∷ []) ++ rest)) (
        ap before_of
          (ap (cut (b'"' ∷ [])) (append_assoc s (b'"' ∷ []) rest) ∙ cut-lacks b'"' s rest n))))

value_at-within :
    (key s : Str) (d : ℕ) (rest : Str) (fs : List Field)
    → is_key key ≡ true
    → passes key fs ≡ true
    → none_pass is_comma_or_brace s ≡ true
    → is_comma_or_brace d ≡ true
    → value_at (within fs key s (d ∷ rest)) key ≡ some s
unfolding value_at
value_at-within key s d rest fs k p n c = rw (find-within key s (d ∷ rest) fs k p) (
    rw (find-colon key s (d ∷ rest) k)
      (rw (cut_at-none_pass is_comma_or_brace (b':' ∷ s) d rest n c) refl))

-- A text without quotes is read back from behind fields that have another key and another value.
pub extract_string-within :
    (key s rest : Str) (fs : List Field)
    → is_key key ≡ true
    → passes key fs ≡ true
    → lacks b'"' s ≡ true
    → extract_string (within fs key (quoted s) rest) key ≡ s
unfolding extract_string
extract_string-within key s rest fs k p n = ap or_empty (string_at-within key s rest fs k p n)

no_comma : (s : Str) → none_pass is_special s ≡ true → none_pass is_comma_or_brace s ≡ true
no_comma [] n = refl
no_comma (c ∷ s) n = ground (arith, no_comma s (ground arith))

pub extract_int-within :
    (key : Str) (z : ℤ) (d : ℕ) (rest : Str) (fs : List Field)
    → is_key key ≡ true
    → passes key fs ≡ true
    → is_int z ≡ true
    → is_comma_or_brace d ≡ true
    → extract_int (within fs key (to_string z) (d ∷ rest)) key ≡ some z
unfolding extract_int int_of
extract_int-within key z d rest fs k p i c =
    ap int_of (
      value_at-within key (to_string z) d rest fs k p (no_comma (to_string z) (to_string_plain z))
        c)
    ∙ stoi-to_string z i

pub extract_bool-within :
    (key : Str) (b : Bool) (d : ℕ) (rest : Str) (fs : List Field)
    → is_key key ≡ true
    → passes key fs ≡ true
    → is_comma_or_brace d ≡ true
    → extract_bool (within fs key (bool_text b) (d ∷ rest)) key ≡ b
unfolding extract_bool
extract_bool-within key true d rest fs k p c =
    ap bool_of (value_at-within key (codes "true") d rest fs k p refl c)
    ∙ unfold bool_of cut starts_with in refl
extract_bool-within key false d rest fs k p c =
    ap bool_of (value_at-within key (codes "false") d rest fs k p refl c)
    ∙ unfold bool_of cut starts_with in refl

-- The text of an object from one of its fields on.
split :
    (fs : List Field) (f : Field) (gs : List Field) (rest : Str)
    → fields_text (fs ++ f ∷ gs) ++ rest
      ≡ fields_text fs
        ++ (quoted f.key ++ b':' ∷ (value_text f.value ++ b',' ∷ (fields_text gs ++ rest)))
split [] f gs rest = simp (append_assoc)
split (g ∷ fs) f gs rest =
    append_assoc (field_text g) (b',' ∷ fields_text (fs ++ f ∷ gs)) rest
    ∙ ap (λ u. field_text g ++ b',' ∷ u) (split fs f gs rest)
    ∙ sym (
        append_assoc (field_text g) (b',' ∷ fields_text fs)
          (quoted f.key ++ b':' ∷ (value_text f.value ++ b',' ∷ (fields_text gs ++ rest))))

-- An object's text that begins with some fields.
abbrev pub beginning : List Field → Str → Str
beginning fs rest = b'{' ∷ (fields_text fs ++ rest)

module _ (key : Str) (fs gs : List Field) (rest : Str) (k : is_key key ≡ true)
    (p : passes key fs ≡ true) where
  pub extract_string-field :
      (s : Str)
      → lacks b'"' s ≡ true
      → extract_string (beginning (fs ++ string_field key s ∷ gs) rest) key ≡ s
  extract_string-field s n =
      ap (λ u. extract_string (b'{' ∷ u) key) (split fs (string_field key s) gs rest)
      ∙ extract_string-within key s (b',' ∷ (fields_text gs ++ rest)) fs k p n

  pub extract_int-field :
      (z : ℤ)
      → is_int z ≡ true
      → extract_int (beginning (fs ++ int_field key z ∷ gs) rest) key ≡ some z
  extract_int-field z i =
      ap (λ u. extract_int (b'{' ∷ u) key) (split fs (int_field key z) gs rest)
      ∙ extract_int-within key z b',' (fields_text gs ++ rest) fs k p i refl

  pub extract_bool-field :
      (b : Bool) → extract_bool (beginning (fs ++ bool_field key b ∷ gs) rest) key ≡ b
  extract_bool-field b =
      ap (λ u. extract_bool (b'{' ∷ u) key) (split fs (bool_field key b) gs rest)
      ∙ extract_bool-within key b b',' (fields_text gs ++ rest) fs k p refl
