-- ===== src/Client/Spans/Elements.antt =====
-- An array that is written with commas is read element by element.
use mathlib.Core.List.{append-nil, append_assoc}
use ctd_project.Base.{
  ◌≡◌, refl, sym, ap, ◌∙◌, ℕ, Bool, true, false, ◌&&◌, Option, none, some, List, [], ◌∷◌, ◌++◌,
  ◌==◌, map, Str, and_left, and_right,
}
use ctd_project.Text.{rounds, all_rounds, cut, find, rest_of, starts_with, after}
use ctd_project.Text.Search.{lacks, cut-lacks}
use ctd_project.Json.{joined}
use ctd_project.Client.Reading.{next_span, spans}
use ctd_project.Text.Rounds.{go_on}
use ctd_project.Client.Spans.{spans-go_on}

rest_of-after : (c : ℕ) (o : Option (Str × Str)) → rest_of (after c o) ≡ rest_of o
rest_of-after c none = refl
rest_of-after c (some x) = refl

-- An element: what stands between its first and last characters.
abbrev pub element : ℕ → ℕ → Str → Str
element o c inner = o ∷ (inner ++ c ∷ [])

abbrev pub all_lack : ℕ → List Str → Bool
all_lack c [] = true
all_lack c (s ∷ ss) = lacks c s && all_lack c ss

module _ (o c : ℕ) (apart : (o == b',') ≡ false) where
  find_comma : (s : Str) → find (o ∷ []) (b',' ∷ s) ≡ find (o ∷ []) s
  unfolding cut starts_with
  find_comma s = rw apart (rest_of-after b',' (cut (o ∷ []) s))

  spans_comma : (s : Str) → spans o c (b',' ∷ s) ≡ spans o c s
  unfolding next_span
  spans_comma s =
      spans-go_on o c (b',' ∷ s)
      ∙ ap (go_on (spans o c)) (rw (find_comma s) refl)
      ∙ sym (spans-go_on o c s)

  find_here : (s : Str) → find (o ∷ []) (o ∷ s) ≡ some (o ∷ s)
  find_here s = ap rest_of (cut-lacks o [] s refl)

  next_span-element :
      (inner rest : Str)
      → lacks c inner ≡ true
      → next_span o c (element o c inner ++ rest) ≡ some (inner, rest)
  unfolding next_span
  next_span-element inner rest n =
      rw (find_here ((inner ++ c ∷ []) ++ rest))
        (rw (append_assoc inner (c ∷ []) rest) (rw (cut-lacks c inner rest n) refl))

  spans-element :
      (inner rest : Str)
      → lacks c inner ≡ true
      → spans o c (element o c inner ++ rest) ≡ inner ∷ spans o c rest
  spans-element inner rest n =
      spans-go_on o c (element o c inner ++ rest)
      ∙ ap (go_on (spans o c)) (next_span-element inner rest n)

  pub spans-joined :
      (inners : List Str)
      → all_lack c inners ≡ true
      → spans o c (joined (map (element o c) inners)) ≡ inners
  unfolding spans all_rounds rounds
  spans-joined [] n = refl
  spans-joined (s ∷ []) n =
      ap (spans o c) (sym (append-nil (element o c s))) ∙ spans-element s [] (and_left _ _ n)
  spans-joined (s ∷ t ∷ rest) n =
      spans-element s (b',' ∷ joined (map (element o c) (t ∷ rest))) (and_left _ _ n)
      ∙ ap (λ ss. s ∷ ss)
          (spans_comma (joined (map (element o c) (t ∷ rest)))
            ∙ spans-joined (t ∷ rest) (and_right _ _ n))
