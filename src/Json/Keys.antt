-- ===== src/Json/Keys.antt =====
-- Names that are told apart from the keys of an object.
use ctd_project.Base.{
  ◌≡◌, subst, ℕ, zero, suc, Bool, true, not, ◌&&◌, some, List, [], ◌∷◌, Str, str_eq, get_elem?,
  both, and_left, and_right,
}
use ctd_project.Text.Search.{lacks}
use ctd_project.Json.{Field}
use ctd_project.Json.Lookup.{is_other}

abbrev pub none_equal : List Str → Str → Bool
none_equal [] n = true
none_equal (k ∷ ks) n = not (str_eq k n) && none_equal ks n

-- A text without quotes that is none of the keys.
abbrev pub is_apart : List Str → Str → Bool
is_apart keys n = lacks b'"' n && none_equal keys n

unequal :
    (ks : List Str) (i : ℕ) (k n : Str)
    → get_elem? ks i ≡ some k
    → none_equal ks n ≡ true
    → not (str_eq k n) ≡ true
unequal [] i k n e o = absurd (cc e)
unequal (c ∷ ks) zero k n e o = subst (λ x. not (str_eq x n) ≡ true) (cc e) (and_left _ _ o)
unequal (c ∷ ks) (suc i) k n e o = unequal ks i k n e (and_right _ _ o)

-- It is other than the key in the given place.
pub other :
    (keys : List Str) (i : ℕ) (k n : Str)
    → get_elem? keys i ≡ some k
    → is_apart keys n ≡ true
    → is_other k n ≡ true
other keys i k n e o = both (and_left _ _ o) (unequal keys i k n e (and_right _ _ o))

-- The first fields, and those behind them.
abbrev pub first : ℕ → List Field → List Field
first zero fs = []
first (suc n) [] = []
first (suc n) (f ∷ fs) = f ∷ first n fs

abbrev pub behind : ℕ → List Field → List Field
behind zero fs = fs
behind (suc n) [] = []
behind (suc n) (f ∷ fs) = behind n fs
