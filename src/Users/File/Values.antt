-- ===== src/Users/File/Values.antt =====
-- The value of a key in the text of an account.
use mathlib.Core.List.{append_assoc}
use ctd_project.Base.{
  ◌≡◌, refl, ap, subst, ◌∙◌, ℕ, Bool, true, false, not, ◌&&◌, List, [], ◌∷◌, ◌++◌, ℤ, Str, codes,
  to_string, arith, both, and_left, and_right,
}
use ctd_project.Text.{cut, rest_of}
use ctd_project.Text.Search.{
  Skips, Skips-append, lacks-Skips, cut-Skips, cut-lacks, none_pass, behind_nil,
}
use ctd_project.Json.{quoted, Field, value_text}
use ctd_project.Json.Lookup.{
  is_key, is_other, passes, passes_value, is_special, quoted-Skips, value-Skips, to_string_plain,
}
use ctd_project.Json.Values.{lacks_colon}
use ctd_project.Users.File.{
  entry_text, next_line, is_lead, skip_lead, ends_value, take_value, value_from, extract_val,
}

-- A text that is read as it stands: it does not begin with a space or a quote, and nothing in it ends
-- a value.
abbrev pub is_plain_value : Str → Bool
is_plain_value [] = true
is_plain_value (c ∷ s) = not (is_lead c) && none_pass ends_value (c ∷ s)

take_value-none_pass :
    (s : Str) (d : ℕ) (rest : Str)
    → none_pass ends_value s ≡ true
    → ends_value d ≡ true
    → take_value (s ++ d ∷ rest) ≡ s
unfolding take_value
take_value-none_pass [] d rest n e = ground (arith, e)
take_value-none_pass (c ∷ s) d rest n e =
    let apart : ends_value c ≡ false = ground (arith, n) in
    rw apart (ap (λ t. c ∷ t) (take_value-none_pass s d rest (and_right _ _ n) e))

skip_lead_plain : (c : ℕ) (s : Str) → is_lead c ≡ false → skip_lead (c ∷ s) ≡ c ∷ s
unfolding skip_lead
skip_lead_plain c s e = rw e refl

skip_lead_lead : (c : ℕ) (s : Str) → is_lead c ≡ true → skip_lead (c ∷ s) ≡ skip_lead s
unfolding skip_lead
skip_lead_lead c s e = rw e refl

-- A text in quotes, with a comma behind it.
take_quoted :
    (v rest : Str)
    → is_plain_value v ≡ true
    → take_value (skip_lead (b' ' ∷ (quoted v ++ b',' ∷ rest))) ≡ v
take_quoted [] rest p = unfold skip_lead take_value in refl
take_quoted (c ∷ v) rest p =
    ap take_value (
      skip_lead_lead b' ' (quoted (c ∷ v) ++ b',' ∷ rest) refl
      ∙ skip_lead_lead b'"' ((c ∷ (v ++ b'"' ∷ [])) ++ b',' ∷ rest) refl
      ∙ skip_lead_plain c ((v ++ b'"' ∷ []) ++ b',' ∷ rest) (ground arith)
      ∙ ap (λ u. c ∷ u) (append_assoc v (b'"' ∷ []) (b',' ∷ rest)))
    ∙ take_value-none_pass (c ∷ v) b'"' (b',' ∷ rest) (and_right _ _ p) refl

-- A number, with the end of a value behind it that is no quote.
plain_number : (s : Str) → none_pass is_special s ≡ true → is_plain_value s ≡ true
plain_number [] n = refl
plain_number (c ∷ s) n = both (ground arith) (none_ends (c ∷ s) n)
  where
    none_ends : (s : Str) → none_pass is_special s ≡ true → none_pass ends_value s ≡ true
    none_ends [] n = refl
    none_ends (c ∷ s) n = both (ground arith) (none_ends s (and_right _ _ n))

take_number :
    (s : Str) (d : ℕ) (rest : Str)
    → is_plain_value s ≡ true
    → ends_value d ≡ true
    → is_lead d ≡ false
    → take_value (skip_lead (b' ' ∷ (s ++ d ∷ rest))) ≡ s
take_number [] d rest p e l =
    ap take_value (skip_lead_lead b' ' (d ∷ rest) refl ∙ skip_lead_plain d rest l)
    ∙ take_value-none_pass [] d rest refl e
take_number (c ∷ s) d rest p e l =
    ap take_value (
      skip_lead_lead b' ' (c ∷ (s ++ d ∷ rest)) refl
      ∙ skip_lead_plain c (s ++ d ∷ rest) (ground arith))
    ∙ take_value-none_pass (c ∷ s) d rest (and_right _ _ p) e

-- The entries in front of a key, with the end of a line behind each.
abbrev pub lines_text : List Field → Str
lines_text [] = []
lines_text (f ∷ fs) = entry_text f.key (value_text f.value) ++ (next_line ++ lines_text fs)

line-Skips :
    (k : Str) (f : Field)
    → is_key k ≡ true
    → is_other k f.key ≡ true
    → passes_value k f.value ≡ true
    → Skips (quoted k) (entry_text f.key (value_text f.value) ++ next_line)
line-Skips k f ke o p = subst (Skips (quoted k)) (split_line f.key (value_text f.value)) (
    Skips-append (quoted k) (b'"' ∷ (f.key ++ b'"' ∷ b':' ∷ []))
      (b' ' ∷ ((value_text f.value ++ b',' ∷ []) ++ codes "\n    "))
      (quoted-Skips k f.key b':' ke o refl)
      (Skips-append (quoted k) (b' ' ∷ []) ((value_text f.value ++ b',' ∷ []) ++ codes "\n    ")
        (lacks-Skips b'"' (k ++ b'"' ∷ []) (b' ' ∷ []) refl)
        (Skips-append (quoted k) (value_text f.value ++ b',' ∷ []) (codes "\n    ")
          (value-Skips k f.value b',' ke p refl)
          (lacks-Skips b'"' (k ++ b'"' ∷ []) (codes "\n    ") refl))))
  where
    split_line :
        (key v : Str)
        → (b'"' ∷ (key ++ b'"' ∷ b':' ∷ [])) ++ (b' ' ∷ ((v ++ b',' ∷ []) ++ codes "\n    "))
          ≡ entry_text key v ++ next_line
    split_line key v = simp (append_assoc)

lines-Skips :
    (k : Str) (fs : List Field)
    → is_key k ≡ true
    → passes k fs ≡ true
    → Skips (quoted k) (lines_text fs)
lines-Skips k [] ke p = λ rest. behind_nil (cut (quoted k) rest)
lines-Skips k (f ∷ fs) ke p =
    subst (Skips (quoted k))
      (append_assoc (entry_text f.key (value_text f.value)) next_line (lines_text fs))
      (Skips-append (quoted k) (entry_text f.key (value_text f.value) ++ next_line) (lines_text fs)
        (line-Skips k f ke (and_left _ _ p) (and_left _ _ (and_right _ _ p)))
        (lines-Skips k fs ke (and_right _ _ (and_right _ _ p))))

-- What is extracted for a key behind other entries.
extract_val-lines :
    (k tail : Str) (fs : List Field)
    → is_key k ≡ true
    → passes k fs ≡ true
    → extract_val (lines_text fs ++ (quoted k ++ b':' ∷ tail)) k ≡ take_value (skip_lead tail)
unfolding extract_val value_from
extract_val-lines k tail fs ke p =
    rw (ap rest_of (cut-Skips (quoted k) (lines_text fs) (b':' ∷ tail) (lines-Skips k fs ke p)))
      (rw (ap rest_of (cut-lacks b':' (quoted k) tail (lacks_colon k ke))) refl)

module _ (k : Str) (fs : List Field) (ke : is_key k ≡ true) (p : passes k fs ≡ true) where
  pub extract_val-text :
      (v rest : Str)
      → is_plain_value v ≡ true
      → extract_val (lines_text fs ++ (entry_text k (quoted v) ++ b',' ∷ rest)) k ≡ v
  extract_val-text v rest n =
      ap (λ u. extract_val (lines_text fs ++ u) k)
        (append_assoc (quoted k) (b':' ∷ b' ' ∷ quoted v) (b',' ∷ rest))
      ∙ extract_val-lines k (b' ' ∷ (quoted v ++ b',' ∷ rest)) fs ke p
      ∙ take_quoted v rest n

  pub extract_val-number :
      (z : ℤ) (d : ℕ) (rest : Str)
      → ends_value d ≡ true
      → is_lead d ≡ false
      → extract_val (lines_text fs ++ (entry_text k (to_string z) ++ d ∷ rest)) k ≡ to_string z
  extract_val-number z d rest e l =
      ap (λ u. extract_val (lines_text fs ++ u) k)
        (append_assoc (quoted k) (b':' ∷ b' ' ∷ to_string z) (d ∷ rest))
      ∙ extract_val-lines k (b' ' ∷ (to_string z ++ d ∷ rest)) fs ke p
      ∙ take_number (to_string z) d rest (plain_number (to_string z) (to_string_plain z)) e l
