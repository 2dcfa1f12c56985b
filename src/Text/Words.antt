-- ===== src/Text/Words.antt =====
-- Words that are written with a space between them and read again.
use ctd_project.Base.{◌≡◌, refl, ap, ◌∙◌, true, false, not, ◌&&◌, ◌∷◌, [], ◌++◌, Bool, Str, arith}
use ctd_project.Text.{is_space, skip_space, word_of, get_word}

-- A word: it has a character, and no space.
abbrev pub no_space : Str → Bool
no_space [] = true
no_space (c ∷ s) = not (is_space c) && no_space s

abbrev pub is_word : Str → Bool
is_word [] = false
is_word (c ∷ s) = no_space (c ∷ s)

-- Nothing follows, or a space.
abbrev pub breaks : Str → Bool
breaks [] = true
breaks (c ∷ s) = is_space c

word_of-no_space :
    (w rest : Str) → no_space w ≡ true → breaks rest ≡ true → word_of (w ++ rest) ≡ (w, rest)
unfolding word_of
word_of-no_space [] [] n b = refl
word_of-no_space [] (c ∷ rest) n b = ground arith
word_of-no_space (c ∷ w) rest n b = ground (arith, word_of-no_space w rest)

skip_space-is_word : (w rest : Str) → is_word w ≡ true → skip_space (w ++ rest) ≡ w ++ rest
unfolding skip_space
skip_space-is_word [] rest n = cc
skip_space-is_word (c ∷ w) rest n = ground arith

pub no_space-is_word : (w : Str) → is_word w ≡ true → no_space w ≡ true
no_space-is_word [] n = refl
no_space-is_word (c ∷ w) n = n

-- A word in front of a space, or of the end, is read, and the text behind it is left.
pub get_word-is_word :
    (w rest : Str) → is_word w ≡ true → breaks rest ≡ true → get_word (w ++ rest) ≡ (w, rest)
unfolding get_word
get_word-is_word w rest n b =
    ap word_of (skip_space-is_word w rest n) ∙ word_of-no_space w rest (no_space-is_word w n) b

-- A space in front makes no difference to what is read.
pub get_word_space : (s : Str) → get_word (b' ' ∷ s) ≡ get_word s
unfolding get_word skip_space
get_word_space s = refl
