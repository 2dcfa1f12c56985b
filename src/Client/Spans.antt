-- ===== src/Client/Spans.antt =====
-- The loops over the arrays of a state run to their end.
pub mod Elements
use ctd_project.Base.{
  ◌≡◌, refl, ℕ, zero, suc, ◌≤◌, ◌<◌, Option, none, some, List, [], ◌∷◌, ◌>>=◌, if◌then◌else◌,
  length, Str, arith,
}
use ctd_project.Text.{starts_with, cut, rest_of, drop, all_rounds}
use ctd_project.Text.Rounds.{NotLonger, Shorter, cut-NotLonger, go_on, all_rounds-go_on}
use ctd_project.Client.Reading.{next_span, spans}

-- The two steps of a round.
close_span : Option (Str × Str) → Option (Str × Str)
close_span y = do span ← y; some (span.0, drop 1 span.1)

close_span-Shorter :
    (m n : ℕ) (y : Option (Str × Str)) → NotLonger m y → m < n → Shorter n (close_span y)
unfolding close_span
close_span-Shorter m n none h l = omega arith
close_span-Shorter m n (some (inner, [])) h l = omega arith
close_span-Shorter m n (some (inner, d ∷ rest)) h l = omega arith

open_span : ℕ → Option Str → Option (Str × Str)
unfolding close_span
open_span c x = do from ← x; close_span (cut (c ∷ []) (drop 1 from))

open_span-Shorter :
    (c n : ℕ) (x : Option (Str × Str)) → NotLonger n x → Shorter n (open_span c (rest_of x))
unfolding open_span
open_span-Shorter c n none h = h
open_span-Shorter c n (some (before, [])) h = unfold cut starts_with close_span in omega arith
open_span-Shorter c n (some (before, d ∷ from)) h =
    close_span-Shorter (length from) n (cut (c ∷ []) from) (cut-NotLonger (c ∷ []) from)
      (omega arith)

next_span-Shorter : (o c : ℕ) (s : Str) → Shorter (length s) (next_span o c s)
unfolding next_span
next_span-Shorter o c s =
    unfold open_span close_span in
    open_span-Shorter c (length s) (cut (o ∷ []) s) (cut-NotLonger (o ∷ []) s)

-- The loop over an array runs to its end: it is a round followed by the loop over what the round has
-- left.
pub spans-go_on : (o c : ℕ) (s : Str) → spans o c s ≡ go_on (spans o c) (next_span o c s)
unfolding spans
spans-go_on o c s = all_rounds-go_on (next_span o c) (next_span-Shorter o c) s
