-- ===== src/Text/Search.antt =====
-- Searching a text that is put together from pieces.
use mathlib.Core.List.{append-nil, append_assoc}
use ctd_project.Base.{
  ◌≡◌, refl, sym, ap, ◌∙◌, true, false, not, ◌&&◌, ◌∷◌, [], ◌++◌, ℕ, Bool, Str, arith, Option, some,
  none, ◌==◌, Bool-cases, both, and_left, and_right, inl, inr,
}
use ctd_project.Text.{starts_with, cut, cut_at, after}

-- What was found behind the text `s`.
abbrev pub behind : Str → Option (Str × Str) → Option (Str × Str)
behind s none = none
behind s (some (before, rest)) = some (s ++ before, rest)

-- The pattern is found behind `s` only.
abbrev pub Skips : Str → Str → Type 0
Skips pattern s = (rest : Str) → cut pattern (s ++ rest) ≡ behind s (cut pattern rest)

-- The character stands nowhere in the text.
abbrev pub lacks : ℕ → Str → Bool
lacks c [] = true
lacks c (d ∷ s) = not (c == d) && lacks c s

after-behind : (c : ℕ) (s : Str) (o : Option (Str × Str)) → after c (behind s o) ≡ behind (c ∷ s) o
after-behind c s none = refl
after-behind c s (some x) = refl

pub behind_nil : (o : Option (Str × Str)) → o ≡ behind [] o
behind_nil none = refl
behind_nil (some x) = refl

behind_append : (s t : Str) (o : Option (Str × Str)) → behind s (behind t o) ≡ behind (s ++ t) o
behind_append s t none = refl
behind_append s t (some (before, rest)) = ap (λ u. some (u, rest)) (sym (append_assoc s t before))

-- A pattern begins with none of the characters of `s`.
pub lacks-Skips : (p : ℕ) (ps s : Str) → lacks p s ≡ true → Skips (p ∷ ps) s
unfolding cut starts_with
lacks-Skips p ps [] n rest = behind_nil (cut (p ∷ ps) rest)
lacks-Skips p ps (c ∷ s) n rest =
    let apart : (p == c) ≡ false = ground arith in
    rw apart
      (ap (after c) (lacks-Skips p ps s (ground arith) rest) ∙ after-behind c s (cut (p ∷ ps) rest))

pub Skips-append : (pattern s t : Str) → Skips pattern s → Skips pattern t → Skips pattern (s ++ t)
Skips-append pattern s t f g rest =
    ap (cut pattern) (append_assoc s t rest)
    ∙ f (t ++ rest)
    ∙ ap (behind s) (g rest)
    ∙ behind_append s t (cut pattern rest)

-- A text that does not begin with the pattern.
pub cons-Skips :
    (pattern : Str) (c : ℕ) (s : Str)
    → ((rest : Str) → starts_with pattern (c ∷ (s ++ rest)) ≡ false)
    → Skips pattern s
    → Skips pattern (c ∷ s)
unfolding cut
cons-Skips pattern c s never f rest =
    rw (never rest) (ap (after c) (f rest) ∙ after-behind c s (cut pattern rest))

pub starts_with_self : (p rest : Str) → starts_with p (p ++ rest) ≡ true
unfolding starts_with
starts_with_self [] rest = refl
starts_with_self (c ∷ p) rest = ground (arith, starts_with_self p rest)

found_first : (p t : Str) → starts_with p t ≡ true → cut p t ≡ some ([], t)
unfolding cut
found_first p [] e = rw e refl
found_first p (c ∷ t) e = rw e refl

-- The pattern itself is found at once.
pub cut_here : (p rest : Str) → cut p (p ++ rest) ≡ some ([], p ++ rest)
cut_here p rest = found_first p (p ++ rest) (starts_with_self p rest)

pub cut-Skips : (p s rest : Str) → Skips p s → cut p (s ++ (p ++ rest)) ≡ some (s, p ++ rest)
cut-Skips p s rest f =
    f (p ++ rest) ∙ ap (behind s) (cut_here p rest) ∙ ap (λ u. some (u, p ++ rest)) (append-nil s)

-- A character is found behind a text without it.
pub cut-lacks :
    (c : ℕ) (s rest : Str) → lacks c s ≡ true → cut (c ∷ []) (s ++ c ∷ rest) ≡ some (s, c ∷ rest)
cut-lacks c s rest n = cut-Skips (c ∷ []) s rest (lacks-Skips c [] s n)

-- No character of the text passes the test.
abbrev pub none_pass : (ℕ → Bool) → Str → Bool
none_pass test [] = true
none_pass test (c ∷ s) = not (test c) && none_pass test s

pub cut_at-none_pass :
    (test : ℕ → Bool) (s : Str) (c : ℕ) (rest : Str)
    → none_pass test s ≡ true
    → test c ≡ true
    → cut_at test (s ++ c ∷ rest) ≡ some (s, c ∷ rest)
unfolding cut_at
cut_at-none_pass test [] c rest n t = rw t refl
cut_at-none_pass test (d ∷ s) c rest n t =
    let apart : test d ≡ false = ground arith in
    rw apart (ap (after d) (cut_at-none_pass test s c rest (ground arith) t))

-- A pattern that begins with one that is found nowhere is found nowhere.
starts_with_append : (p q s : Str) → starts_with p s ≡ false → starts_with (p ++ q) s ≡ false
unfolding starts_with
starts_with_append [] q s e = absurd (cc e)
starts_with_append (c ∷ p) q [] e = refl
starts_with_append (c ∷ p) q (d ∷ s) e = elim (Bool-cases (c == d)) [
  | inl same ↦ rw same (starts_with_append p q s (ground arith))
  | inr other ↦ rw other refl
]

after_injective : (c : ℕ) (x y : Option (Str × Str)) → after c x ≡ after c y → x ≡ y
after_injective c none none e = refl
after_injective c none (some y) e = absurd (cc e)
after_injective c (some x) none e = absurd (cc e)
after_injective c (some (a, b)) (some (a', b')) e = cc e

found_behind :
    (c : ℕ) (s t : Str) (o : Option (Str × Str)) → some ([], t) ≡ behind (c ∷ s) o → true ≡ false
found_behind c s t none e = absurd (cc e)
found_behind c s t (some (before, rest)) e = absurd (cc e)

Skips-never :
    (p : Str) (c : ℕ) (s rest : Str) → Skips p (c ∷ s) → starts_with p (c ∷ (s ++ rest)) ≡ false
Skips-never p c s rest f = elim (Bool-cases (starts_with p (c ∷ (s ++ rest)))) [
  | inl e ↦
      e
      ∙ found_behind c s (c ∷ (s ++ rest)) (cut p rest)
          (sym (found_first p (c ∷ (s ++ rest)) e) ∙ f rest)
  | inr e ↦ e
]

found_later :
    (p : Str) (c : ℕ) (t : Str) → starts_with p (c ∷ t) ≡ false → cut p (c ∷ t) ≡ after c (cut p t)
unfolding cut
found_later p c t e = rw e refl

Skips-tail : (p : Str) (c : ℕ) (s : Str) → Skips p (c ∷ s) → Skips p s
Skips-tail p c s f rest = after_injective c (cut p (s ++ rest)) (behind s (cut p rest)) (
    sym (found_later p c (s ++ rest) (Skips-never p c s rest f))
    ∙ f rest
    ∙ sym (after-behind c s (cut p rest)))

pub Skips-longer : (p q s : Str) → Skips p s → Skips (p ++ q) s
Skips-longer p q [] f rest = behind_nil (cut (p ++ q) rest)
Skips-longer p q (c ∷ s) f rest =
    cons-Skips (p ++ q) c s
      (λ rest. starts_with_append p q (c ∷ (s ++ rest)) (Skips-never p c s rest f))
      (Skips-longer p q s (Skips-tail p c s f)) rest

pub lacks-append :
    (c : ℕ) (s t : Str) → lacks c s ≡ true → lacks c t ≡ true → lacks c (s ++ t) ≡ true
lacks-append c [] t n m = m
lacks-append c (d ∷ s) t n m = both (and_left _ _ n) (lacks-append c s t (and_right _ _ n) m)
