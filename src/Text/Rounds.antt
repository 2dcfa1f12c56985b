-- ===== src/Text/Rounds.antt =====
-- Loops over a text: their rounds suffice.
use ctd_project.Base.{
  ◌≡◌, refl, sym, ap, ◌∙◌, ℕ, zero, suc, ◌≤◌, ◌<◌, Option, none, some, List, [], ◌∷◌, if_cases,
  length, Str, arith,
}
use ctd_project.Text.{starts_with, cut, after, rounds, all_rounds}

-- What is left behind a find is not longer than `n`, or shorter.
abbrev pub NotLonger : ℕ → Option (Str × Str) → Type 0
NotLonger n none = zero ≤ zero
NotLonger n (some (before, rest)) = length rest ≤ n

abbrev pub Shorter : ℕ → Option (Str × Str) → Type 0
Shorter n none = zero ≤ zero
Shorter n (some (before, rest)) = length rest < n

after-NotLonger : (c n : ℕ) (o : Option (Str × Str)) → NotLonger n o → NotLonger (suc n) (after c o)
after-NotLonger c n none h = h
after-NotLonger c n (some (before, rest)) h = omega arith

pub cut-NotLonger : (p s : Str) → NotLonger (length s) (cut p s)
unfolding cut
cut-NotLonger p [] = if_cases (NotLonger 0) (starts_with p []) (λ e. omega arith) (λ e. omega arith)
cut-NotLonger p (c ∷ s) =
    if_cases (NotLonger (suc (length s))) (starts_with p (c ∷ s)) (λ e. omega arith)
      (λ e. after-NotLonger c (length s) (cut p s) (cut-NotLonger p s))

-- The rest of a loop after a round.
abbrev pub go_on : (Str → List Str) → Option (Str × Str) → List Str
go_on loop none = []
go_on loop (some (found, rest)) = found ∷ loop rest

go_on-Shorter :
    (f g : Str → List Str) (n : ℕ) (y : Option (Str × Str))
    → Shorter n y
    → ((rest : Str) → length rest < n → f rest ≡ g rest)
    → go_on f y ≡ go_on g y
go_on-Shorter f g n none h e = refl
go_on-Shorter f g n (some (found, rest)) h e = ap (λ t. found ∷ t) (e rest h)

-- Every round leaves less of the text.
module _ (step : Str → Option (Str × Str)) (less : (s : Str) → Shorter (length s) (step s)) where
  rounds-suc : (n : ℕ) (s : Str) → rounds step (suc n) s ≡ go_on (rounds step n) (step s)
  unfolding rounds
  rounds-suc n s = refl

  none_left : (y : Option (Str × Str)) (f : Str → List Str) → Shorter 0 y → go_on f y ≡ []
  none_left none f h = refl
  none_left (some x) f h = absurd (omega arith)

  empty_rounds : (n : ℕ) (s : Str) → length s ≤ 0 → rounds step n s ≡ []
  unfolding rounds
  empty_rounds zero s h = refl
  empty_rounds (suc n) [] h = rounds-suc n [] ∙ none_left (step []) (rounds step n) (less [])
  empty_rounds (suc n) (x ∷ s) h = absurd (omega arith)

  rounds-fuel :
      (n m : ℕ) (s : Str) → length s ≤ n → length s ≤ m → rounds step n s ≡ rounds step m s
  rounds-fuel zero m s h k = empty_rounds zero s h ∙ sym (empty_rounds m s h)
  rounds-fuel (suc n) zero s h k = empty_rounds (suc n) s k ∙ sym (empty_rounds zero s k)
  rounds-fuel (suc n) (suc m) s h k =
      rounds-suc n s
      ∙ go_on-Shorter (rounds step n) (rounds step m) (length s) (step s) (less s)
          (λ rest l. rounds-fuel n m rest (omega arith) (omega arith))
      ∙ sym (rounds-suc m s)

  -- The loop runs to its end: it is a round followed by the loop over what the round has left.
  pub all_rounds-go_on : (s : Str) → all_rounds step s ≡ go_on (all_rounds step) (step s)
  unfolding all_rounds
  all_rounds-go_on s =
      rounds-fuel (length s) (suc (length s)) s (omega arith) (omega arith)
      ∙ rounds-suc (length s) s
      ∙ go_on-Shorter (rounds step (length s)) (all_rounds step) (length s) (step s) (less s)
          (λ rest l. rounds-fuel (length s) (length rest) rest (omega arith) (omega arith))
