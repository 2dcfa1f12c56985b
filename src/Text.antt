-- ===== src/Text.antt =====
-- What the code uses of `std::string`, `std::stringstream` and `std::stoi`. A stream is the text that
-- is left to read; a position in a text is the rest of the text from there on.
pub mod Search
pub mod Numbers
pub mod Words
pub mod Rounds
use ctd_project.Base.{
  ℕ, zero, suc, ◌+◌, ◌-◌, ◌*◌, ◌^◌, Bool, true, false, not, ◌&&◌, ◌||◌, Option, none, some, List,
  [], ◌∷◌, ◌==◌, ltb, leb, if◌then◌else◌, ℤ, pos, negsuc, int_leb, sub_ℕ, Str, length,
}

-- `rfind(prefix, 0) == 0`
unfoldable pub starts_with : Str → Str → Bool
starts_with [] s = true
starts_with (p ∷ ps) [] = false
starts_with (p ∷ ps) (c ∷ s) = (p == c) && starts_with ps s

-- `substr(n)`
abbrev pub drop : ℕ → Str → Str
drop zero s = s
drop (suc n) [] = []
drop (suc n) (c ∷ s) = drop n s

abbrev pub after : ℕ → Option (Str × Str) → Option (Str × Str)
after c none = none
after c (some (before, rest)) = some (c ∷ before, rest)

-- `find(pattern)`: what stands before the first occurrence, and the rest, which begins with it.
unfoldable pub cut : Str → Str → Option (Str × Str)
cut pattern [] = if starts_with pattern [] then some ([], []) else none
cut pattern (c ∷ s) =
    let later = after c (cut pattern s) in
    if starts_with pattern (c ∷ s) then some ([], c ∷ s) else later

abbrev pub rest_of : Option (Str × Str) → Option Str
rest_of none = none
rest_of (some (before, rest)) = some rest

abbrev pub before_of : Option (Str × Str) → Option Str
before_of none = none
before_of (some (before, rest)) = some before

abbrev pub find : Str → Str → Option Str
find pattern s = rest_of (cut pattern s)

-- `find_first_of`
unfoldable pub cut_at : (ℕ → Bool) → Str → Option (Str × Str)
cut_at test [] = none
cut_at test (c ∷ s) =
    let later = after c (cut_at test s) in if test c then some ([], c ∷ s) else later

-- The white space of the "C" locale.
abbrev pub is_space : ℕ → Bool
is_space c = (c == 32) || (ltb 8 c && ltb c 14)

-- `while (ss >> token)`; `word` is the token read so far, its last character first.
close_word : Str → List Str → List Str
close_word [] rest = rest
close_word (c ∷ word) rest = reversed [] (c ∷ word) ∷ rest
  where
    reversed : Str → Str → Str
    reversed done [] = done
    reversed done (c ∷ s) = reversed (c ∷ done) s

tokens_from : Str → Str → List Str
unfolding close_word
tokens_from word [] = close_word word []
tokens_from word (c ∷ line) =
    let rest = tokens_from (if is_space c then [] else c ∷ word) line in
    if is_space c then close_word word rest else rest

unfoldable pub tokens : Str → List Str
unfolding tokens_from
tokens line = tokens_from [] line

-- `ss >> std::ws`
unfoldable pub skip_space : Str → Str
skip_space [] = []
skip_space (c ∷ s) = let rest = skip_space s in if is_space c then rest else c ∷ s

unfoldable pub word_of : Str → Str × Str
word_of [] = ([], [])
word_of (c ∷ s) =
    let (word, rest) = word_of s in if is_space c then ([], c ∷ s) else (c ∷ word, rest)

-- `ss >> word`; the word is empty where the stream has ended.
unfoldable pub get_word : Str → Str × Str
get_word s = word_of (skip_space s)

abbrev pub is_digit : ℕ → Bool
is_digit c = leb b'0' c && leb c b'9'

-- The digits that follow, behind a number that is read already.
unfoldable pub read_digits : ℕ → Str → ℕ × Str
read_digits n [] = (n, [])
read_digits n (c ∷ s) =
    let more = read_digits (n * 10 + (c - b'0')) s in if is_digit c then more else (n, c ∷ s)

unsigned : Str → Option (ℕ × Str)
unsigned [] = none
unsigned (c ∷ s) = if is_digit c then some (read_digits 0 (c ∷ s)) else none

-- The values of a 32-bit `int`.
abbrev pub is_int : ℤ → Bool
is_int z = int_leb (negsuc (2 ^ 31 - 1)) z && int_leb z (pos (2 ^ 31 - 1))

with_sign : Bool → Option (ℕ × Str) → Option (ℤ × Str)
with_sign negative none = none
with_sign negative (some (n, rest)) =
    let z = if negative then sub_ℕ 0 n else pos n in if is_int z then some (z, rest) else none

unfoldable pub signed : Str → Option (ℤ × Str)
unfolding unsigned with_sign
signed [] = none
signed (c ∷ s) =
    if c == b'-'
    then with_sign true (unsigned s)
    else if c == b'+'
    then with_sign false (unsigned s)
    else with_sign false (unsigned (c ∷ s))

-- `ss >> number` for an `int`; without a result the stream has failed.
unfoldable pub get_int : Str → Option (ℤ × Str)
unfolding signed
get_int s = signed (skip_space s)

abbrev pub number_only : Option (ℤ × Str) → Option ℤ
number_only none = none
number_only (some (z, rest)) = some z

-- `std::stoi`, with no result where it throws.
unfoldable pub stoi : Str → Option ℤ
stoi s = number_only (get_int s)

-- A loop whose rounds find something and what is left, until nothing is found.
unfoldable pub rounds : (Str → Option (Str × Str)) → ℕ → Str → List Str
rounds step zero s = []
rounds step (suc fuel) s = elim (step s) [
  | none ↦ []
  | some (found, rest) ↦ found ∷ rounds step fuel rest
]

-- As many rounds as the text has characters.
unfoldable pub all_rounds : (Str → Option (Str × Str)) → Str → List Str
all_rounds step s = rounds step (length s) s
