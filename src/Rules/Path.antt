-- ===== src/Rules/Path.antt =====
-- The walk along a line: it ends, and it finds every piece between the ends.
use ctd_project.Base.{
  ℕ, zero, suc, ◌+◌, ◌-◌, subst, ◌≤◌, ◌<◌, ◌≡◌, refl, sym, ◌∙◌, ap, ◌≢◌, ◌⊎◌, inl, inr, Bool, true,
  false, Option, none, some, arith, Bool-cases, ℤ, pos, negsuc, pos_part, neg_part, ◌+ℤ◌, ◌-ℤ◌, abs,
  -ℤ_parts, eq_of_parts, int_laws, Option-cases,
}
use native.Mathlib.Decide.{dec_lt, ℕ_discrete}
use ctd_project.Piece.{Position, position, pos_eq, Ref}
use ctd_project.Piece.Laws.{pos_eq_iff}
use ctd_project.Board.{Board, get_piece_at}
use ctd_project.Rules.{step_of, advance, walk, distance}

-- `k` steps of `s` from `x`.
abbrev pub shift : ℕ → ℤ → ℤ → ℤ
shift zero s x = x
shift (suc k) s x = shift k s x +ℤ s

-- The cell `k` steps on from `p`.
abbrev pub along : Position → ℤ → ℤ → ℕ → Position
along p sr sc k = position (shift k sr p.row) (shift k sc p.col)

-- A step that is 1, 0 or -1.
abbrev pub IsUnit : ℤ → Type 0
IsUnit s = (s ≡ pos 1) ⊎ ((s ≡ pos 0) ⊎ (s ≡ negsuc 0))

pub step_of-IsUnit : (d : ℤ) → IsUnit (step_of d)
unfolding step_of
step_of-IsUnit (pos zero) = inr (inl refl)
step_of-IsUnit (pos (suc n)) = inl refl
step_of-IsUnit (negsuc n) = inr (inr refl)

shift_up :
    (k : ℕ) (x : ℤ)
    → pos_part (shift k (pos 1) x) + neg_part x ≡ neg_part (shift k (pos 1) x) + pos_part x + k
shift_up zero x = omega arith
shift_up (suc k) x = omega (int_laws, shift_up k x)

shift_down :
    (k : ℕ) (x : ℤ)
    → pos_part (shift k (negsuc 0) x) + neg_part x + k
      ≡ neg_part (shift k (negsuc 0) x) + pos_part x
shift_down zero x = omega arith
shift_down (suc k) x = omega (int_laws, shift_down k x)

shift_zero : (k : ℕ) (x : ℤ) → shift k (pos 0) x ≡ x
shift_zero zero x = refl
shift_zero (suc k) x = rw (shift_zero k x) (omega int_laws)

-- As many steps as the distance lead from one coordinate to the other.
shift-step_of : (x y d : ℤ) → y -ℤ x ≡ d → shift (abs d) (step_of d) x ≡ y
unfolding step_of
shift-step_of x y (pos zero) e = eq_of_parts x y (omega (arith, rw e at (-ℤ_parts y x)))
shift-step_of x y (pos (suc n)) e =
    let steps : suc n + 0 ≡ suc n = omega arith in
    rw steps (eq_of_parts _ y (omega (arith, shift_up (suc n) x, rw e at (-ℤ_parts y x))))
shift-step_of x y (negsuc n) e =
    let steps : 0 + suc n ≡ suc n = omega arith in
    rw steps (eq_of_parts _ y (omega (arith, shift_down (suc n) x, rw e at (-ℤ_parts y x))))

shift_still : (x y d : ℤ) (k : ℕ) → y -ℤ x ≡ d → abs d ≡ 0 → shift k (step_of d) x ≡ y
unfolding step_of
shift_still x y (pos zero) k e h =
    shift_zero k x ∙ eq_of_parts x y (omega (arith, rw e at (-ℤ_parts y x)))
shift_still x y (pos (suc n)) k e h = absurd (omega arith)
shift_still x y (negsuc n) k e h = absurd (omega arith)

step_of_ne_zero : (d : ℤ) → 0 < abs d → step_of d ≢ pos 0
unfolding step_of
step_of_ne_zero (pos zero) h = absurd (omega arith)
step_of_ne_zero (pos (suc n)) h = λ e. cc
step_of_ne_zero (negsuc n) h = λ e. cc

-- A row, a column or a diagonal.
abbrev pub IsLine : Position → Position → Type 0
IsLine src dest =
    (abs (dest.row -ℤ src.row) ≡ 0)
    ⊎ ((abs (dest.col -ℤ src.col) ≡ 0) ⊎ (abs (dest.row -ℤ src.row) ≡ abs (dest.col -ℤ src.col)))

-- The cell `k` steps on from `src` in the direction of `dest`.
abbrev pub toward : Position → Position → ℕ → Position
toward src dest = along src (step_of (dest.row -ℤ src.row)) (step_of (dest.col -ℤ src.col))

shift_line :
    (x y : ℤ) (k : ℕ) → (abs (y -ℤ x) ≡ k) ⊎ (abs (y -ℤ x) ≡ 0) → shift k (step_of (y -ℤ x)) x ≡ y
shift_line x y k (inl e) = rw (← e) (shift-step_of x y (y -ℤ x) refl)
shift_line x y k (inr e) = shift_still x y (y -ℤ x) k refl e

-- On a line the walk meets its end after as many steps as the distance.
pub toward-distance :
    (src dest : Position) → IsLine src dest → toward src dest (distance src dest) ≡ dest
toward-distance src dest l =
    let row_ok = shift_line src.row dest.row (distance src dest) (omega arith) in
    let col_ok = shift_line src.col dest.col (distance src dest) (omega arith) in
    rw (row_ok, col_ok)

shift_up_injective : (x : ℤ) (j k : ℕ) → shift j (pos 1) x ≡ shift k (pos 1) x → j ≡ k
shift_up_injective x j k e = omega (arith, shift_up j x, shift_up k x, ap pos_part e, ap neg_part e)

shift_down_injective : (x : ℤ) (j k : ℕ) → shift j (negsuc 0) x ≡ shift k (negsuc 0) x → j ≡ k
shift_down_injective x j k e =
    omega (arith, shift_down j x, shift_down k x, ap pos_part e, ap neg_part e)

shift_injective : (s x : ℤ) (j k : ℕ) → IsUnit s → s ≢ pos 0 → shift j s x ≡ shift k s x → j ≡ k
shift_injective s x j k (inl u) n e = shift_up_injective x j k (rw u at e)
shift_injective s x j k (inr (inl u)) n e = absurd (n u)
shift_injective s x j k (inr (inr u)) n e = shift_down_injective x j k (rw u at e)

-- What the walk finds between the steps `i` and `k`.
pub data Finding (b : Board) (cell : ℕ → Position) (i k : ℕ) : Option Bool → Type 0 where
  clear :
      ((n : ℕ) → i ≤ n → n < k → get_piece_at b (cell n) ≡ none) → Finding b cell i k (some true)
  blocked :
      (n : ℕ) (r : Ref)
      → i ≤ n
      → n < k
      → get_piece_at b (cell n) ≡ some r
      → Finding b cell i k (some false)

Finding-earlier :
    {b : Board} {cell : ℕ → Position} {i k : ℕ} {res : Option Bool}
    → get_piece_at b (cell i) ≡ none
    → Finding b cell (suc i) k res
    → Finding b cell i k res
Finding-earlier {b} {cell} {i} free (clear empty) = clear λ n low high. elim (ℕ_discrete i n) [
  | yes here ↦ rw here at free
  | no later ↦ empty n (omega arith) high
]
Finding-earlier free (blocked n r low high there) = blocked n r (omega arith) high there

module _ (b : Board) (p : Position) (sr sc : ℤ) (ur : IsUnit sr) (uc : IsUnit sc)
    (moves : (sr ≢ pos 0) ⊎ (sc ≢ pos 0)) where
  along_injective : (j k : ℕ) → along p sr sc j ≡ along p sr sc k → j ≡ k
  along_injective j k e = elim moves [
    | inl n ↦ shift_injective sr p.row j k ur n (ap (λ q. q.row) e)
    | inr n ↦ shift_injective sc p.col j k uc n (ap (λ q. q.col) e)
  ]

  pos_eq-along : (j k : ℕ) → j < k → pos_eq (along p sr sc j) (along p sr sc k) ≡ false
  pos_eq-along j k lt = elim (Bool-cases (pos_eq (along p sr sc j) (along p sr sc k))) [
    | inr e ↦ e
    | inl e ↦ absurd (omega (arith, along_injective j k ((pos_eq_iff _ _).0 e)))
  ]

  -- With a round for each cell that is left, the walk ends with the right answer.
  walk-Finding :
      (m fuel i k : ℕ)
      → m < fuel
      → i + m ≡ k
      → Finding b (along p sr sc) i k (walk fuel b (along p sr sc i) (along p sr sc k) sr sc)
  unfolding walk
  walk-Finding m zero i k f e = elim f [ ]
  walk-Finding zero (suc fuel) i k f e =
      let same : i ≡ k = omega arith in
      rw ((pos_eq_iff (along p sr sc i) (along p sr sc k)).1 (ap (along p sr sc) same))
        (clear λ n low high. absurd (omega arith))
  walk-Finding (suc m) (suc fuel) i k f e =
      rw (pos_eq-along i k (omega arith)) (elim (Option-cases (get_piece_at b (along p sr sc i))) [
        | inl free ↦
            rw free
              (Finding-earlier free (walk-Finding m fuel (suc i) k (omega arith) (omega arith)))
        | inr (r, there) ↦ rw there (blocked i r (omega arith) (omega arith) there)
      ])

ne_zero_of_distance :
    (src dest : Position)
    → 0 < distance src dest
    → (step_of (dest.row -ℤ src.row) ≢ pos 0) ⊎ (step_of (dest.col -ℤ src.col) ≢ pos 0)
ne_zero_of_distance src dest h = elim (dec_lt 0 (abs (dest.row -ℤ src.row))) [
  | yes row ↦ inl (step_of_ne_zero (dest.row -ℤ src.row) row)
  | no still ↦ inr (step_of_ne_zero (dest.col -ℤ src.col) (omega arith))
]

walk_still :
    (fuel : ℕ) (b : Board) (src dest : Position)
    → distance src dest ≡ 0
    → let sr = step_of (dest.row -ℤ src.row) in
      let sc = step_of (dest.col -ℤ src.col) in
      walk (suc fuel) b (advance src sr sc) dest sr sc ≡ some true
unfolding walk
walk_still fuel b src dest d =
    let row_ok = shift_line src.row dest.row 1 (inr (omega arith)) in
    let col_ok = shift_line src.col dest.col 1 (inr (omega arith)) in
    rw ((pos_eq_iff (toward src dest 1) dest).1 (λ i. position (row_ok i) (col_ok i)))

-- The loop of `is_path_clear`, as it is called.
abbrev pub path_walk : Board → Position → Position → Option Bool
path_walk b src dest =
    let sr = step_of (dest.row -ℤ src.row) in
    let sc = step_of (dest.col -ℤ src.col) in
    walk (distance src dest + 1) b (advance src sr sc) dest sr sc

path_walk_apart :
    (b : Board) (src dest : Position)
    → IsLine src dest
    → 0 < distance src dest
    → Finding b (toward src dest) 1 (distance src dest) (path_walk b src dest)
path_walk_apart b src dest l apart =
    subst
      (λ q.
        Finding b (toward src dest) 1 (distance src dest)
          (walk (distance src dest + 1) b (advance src sr sc) q sr sc))
      (toward-distance src dest l)
      (walk-Finding b src sr sc (step_of-IsUnit (dest.row -ℤ src.row))
        (step_of-IsUnit (dest.col -ℤ src.col)) (ne_zero_of_distance src dest apart)
        (distance src dest - 1) (distance src dest + 1) 1 (distance src dest) (omega arith)
        (omega arith))
  where
    sr : ℤ
    sr = step_of (dest.row -ℤ src.row)

    sc : ℤ
    sc = step_of (dest.col -ℤ src.col)

path_walk_still :
    (b : Board) (src dest : Position) → distance src dest ≡ 0 → path_walk b src dest ≡ some true
path_walk_still b src dest same =
    ap
      (λ fuel.
        walk fuel b (toward src dest 1) dest (step_of (dest.row -ℤ src.row))
          (step_of (dest.col -ℤ src.col)))
      one
    ∙ walk_still 0 b src dest same
  where
    one : distance src dest + 1 ≡ 1
    one = omega arith

-- On a row, a column or a diagonal the loop ends within its fuel. It finds all cells strictly between the two ends
-- empty, or one of them occupied.
pub path_walk-Finding :
    (b : Board) (src dest : Position)
    → IsLine src dest
    → Finding b (toward src dest) 1 (distance src dest) (path_walk b src dest)
path_walk-Finding b src dest l = elim (dec_lt 0 (distance src dest)) [
  | yes apart ↦ path_walk_apart b src dest l apart
  | no same ↦
      subst (Finding b (toward src dest) 1 (distance src dest))
        (sym (path_walk_still b src dest (omega arith))) (clear λ n low high. absurd (omega arith))
]
