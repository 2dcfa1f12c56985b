-- ===== src/Text/Numbers.antt =====
-- Numbers that are printed and read again.
use mathlib.Core.List.{append-nil}
use ctd_project.Base.{
  ℕ, zero, suc, ◌+◌, ◌/◌, ◌%◌, ◌<◌, ◌≡◌, refl, sym, ap, ◌∙◌, Bool, true, false, not, some, none, [],
  ◌∷◌, ◌++◌, ltb, if◌then◌else◌, arith, ℤ, pos, negsuc, sub_ℕ, Str, to_string, digits_before,
  Bool-cases, inl, inr,
}
use ctd_project.Text.{
  skip_space, is_digit, read_digits, unsigned, with_sign, signed, get_int, is_int, stoi,
  number_only,
}

-- No digit follows.
abbrev pub ends : Str → Bool
ends [] = true
ends (c ∷ s) = not (is_digit c)

read_digits-digits_before :
    (fuel n : ℕ) (rest : Str)
    → n < fuel
    → read_digits 0 (digits_before fuel n rest) ≡ read_digits n rest
unfolding read_digits digits_before
read_digits-digits_before zero n rest h = absurd (omega arith)
read_digits-digits_before (suc fuel) n rest h = elim (Bool-cases (ltb n 10)) [
  | inl small ↦ rw small (ground arith)
  | inr large ↦ rw large (
      read_digits-digits_before fuel (n / 10) ((b'0' + n % 10) ∷ rest) (ground arith)
      ∙ ground arith)
]

read_digits-ends : (n : ℕ) (rest : Str) → ends rest ≡ true → read_digits n rest ≡ (n, rest)
unfolding read_digits
read_digits-ends n [] e = refl
read_digits-ends n (c ∷ s) e = ground arith

digits_before-append :
    (fuel n : ℕ) (rest s : Str) → digits_before fuel n rest ++ s ≡ digits_before fuel n (rest ++ s)
unfolding digits_before
digits_before-append zero n rest s = refl
digits_before-append (suc fuel) n rest s =
    ground (arith, digits_before-append fuel (n / 10) ((b'0' + n % 10) ∷ rest) s)

-- The digits begin with a digit.
abbrev HasDigit : Str → Type 0
HasDigit s = (c : ℕ) × (t : Str) × (s ≡ c ∷ t) × (is_digit c ≡ true)

digits_before-HasDigit :
    (fuel n : ℕ) (rest : Str) → n < suc fuel → HasDigit (digits_before (suc fuel) n rest)
unfolding digits_before
digits_before-HasDigit zero n rest h = (b'0' + n, rest, ground arith, ground arith)
digits_before-HasDigit (suc fuel) n rest h = elim (Bool-cases (ltb n 10)) [
  | inl small ↦ (b'0' + n, rest, rw small refl, ground arith)
  | inr large ↦
      let (c, t, e, d) =
        digits_before-HasDigit fuel (n / 10) ((b'0' + n % 10) ∷ rest) (ground arith) in
      (c, t, rw large e, d)
]

unsigned-HasDigit : (s : Str) → HasDigit s → unsigned s ≡ some (read_digits 0 s)
unfolding unsigned
unsigned-HasDigit s (c, t, e, d) = rw e (rw d refl)

-- A natural number in front of a text that begins with no digit is read back.
unsigned-digits_before :
    (n : ℕ) (rest : Str)
    → ends rest ≡ true
    → unsigned (digits_before (suc n) n [] ++ rest) ≡ some (n, rest)
unsigned-digits_before n rest e =
    ap unsigned (digits_before-append (suc n) n [] rest)
    ∙ unsigned-HasDigit (digits_before (suc n) n rest)
        (digits_before-HasDigit n n rest (omega arith))
    ∙ ap some (read_digits-digits_before (suc n) n rest (omega arith) ∙ read_digits-ends n rest e)

-- No digit is a space or a sign.
signed-HasDigit :
    (s : Str) → HasDigit s → (signed s ≡ with_sign false (unsigned s)) × (skip_space s ≡ s)
unfolding signed skip_space
signed-HasDigit s (c, t, e, d) = rw e (ground (arith, d), ground (arith, d))

get_int-natural :
    (n : ℕ) (rest : Str)
    → is_int (pos n) ≡ true
    → ends rest ≡ true
    → get_int (digits_before (suc n) n [] ++ rest) ≡ some (pos n, rest)
unfolding get_int
get_int-natural n rest i e =
    let (c, t, e', d) = digits_before-HasDigit n n rest (omega arith) in
    let (plain, kept) =
      signed-HasDigit (digits_before (suc n) n [] ++ rest)
        (c, t, digits_before-append (suc n) n [] rest ∙ e', d) in
    ap signed kept
    ∙ plain
    ∙ ap (with_sign false) (unsigned-digits_before n rest e)
    ∙ unfold with_sign in rw i refl

get_int-minus : (t : Str) → get_int (b'-' ∷ t) ≡ with_sign true (unsigned t)
unfolding get_int signed skip_space
get_int-minus t = refl

minus : (n : ℕ) → sub_ℕ 0 (suc n) ≡ negsuc n
minus n = ground arith

with_sign_minus :
    (n : ℕ) (rest : Str)
    → is_int (negsuc n) ≡ true
    → with_sign true (some (suc n, rest)) ≡ some (negsuc n, rest)
unfolding with_sign
with_sign_minus n rest i = ap (λ z. if is_int z then some (z, rest) else none) (minus n) ∙ rw i refl

-- An `int` that is printed in front of a text that begins with no digit is read back, and the text
-- is left.
pub get_int-to_string :
    (z : ℤ) (rest : Str)
    → is_int z ≡ true
    → ends rest ≡ true
    → get_int (to_string z ++ rest) ≡ some (z, rest)
unfolding to_string
get_int-to_string (pos n) rest i e = get_int-natural n rest i e
get_int-to_string (negsuc n) rest i e =
    get_int-minus (digits_before (suc (suc n)) (suc n) [] ++ rest)
    ∙ ap (with_sign true) (unsigned-digits_before (suc n) rest e)
    ∙ with_sign_minus n rest i

pub stoi-to_string : (z : ℤ) → is_int z ≡ true → stoi (to_string z) ≡ some z
unfolding stoi
stoi-to_string z i =
    ap number_only (ap get_int (sym (append-nil (to_string z))) ∙ get_int-to_string z [] i refl)
