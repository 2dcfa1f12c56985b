-- ===== src/Server/Matchmaking/Pairs.antt =====
-- src/network/socket_server.cpp: what the matching of clients achieves.
use ctd_project.Base.{
  ◌≡◌, refl, subst, ◌∙◌, Bool, true, false, ◌&&◌, ℕ, leb, List, [], ◌∷◌, arith, if◌then◌else◌,
  if_cases, zero, suc, get_elem?, some, ◌<◌,
}
use ctd_project.Server.{Server, ClientRef, ClientInfo}
use ctd_project.Server.Matchmaking.{elo_diff, pair_up, seek, match_all}

-- Both search, with close ratings.
abbrev pub fits : (ClientRef → ClientInfo) → ClientRef → ClientRef → Bool
fits info c d =
    (info c).is_searching && ((info d).is_searching && leb (elo_diff (info c) (info d)) 100)

-- Ratings stay, and nobody starts to search.
record Calmer (s s' : Server) : Type 0 where
  elo : (c : ClientRef) → (s'.info c).elo ≡ (s.info c).elo
  searches : (c : ClientRef) → (s'.info c).is_searching ≡ true → (s.info c).is_searching ≡ true

Calmer-refl : (s : Server) → Calmer s s
Calmer-refl s = record { elo = λ c. refl; searches = λ c e. e }

Calmer-trans : {s t u : Server} → Calmer s t → Calmer t u → Calmer s u
Calmer-trans f g = record {
  elo = λ c. g.elo c ∙ f.elo c;
  searches = λ c e. f.searches c (g.searches c e);
}

pair_up-Calmer : (s : Server) (c d : ClientRef) → Calmer s (pair_up s c d)
unfolding pair_up
pair_up-Calmer s c d = record { elo = λ q. ground arith; searches = λ q e. ground arith }

pair_up_matched : (s : Server) (c d : ClientRef) → ((pair_up s c d).info c).is_searching ≡ false
unfolding pair_up
pair_up_matched s c d = ground arith

seek-Calmer : (s : Server) (c : ClientRef) (ds : List ClientRef) → Calmer s (seek s c ds)
unfolding seek
seek-Calmer s c [] = Calmer-refl s
seek-Calmer s c (d ∷ ds) =
    if_cases (Calmer s) ((s.info d).is_searching && leb (elo_diff (s.info c) (s.info d)) 100)
      (λ _. pair_up-Calmer s c d) (λ _. seek-Calmer s c ds)

step-Calmer :
    (s : Server) (c : ClientRef) (cs : List ClientRef)
    → Calmer s (if (s.info c).is_searching then seek s c cs else s)
step-Calmer s c cs =
    if_cases (Calmer s) (s.info c).is_searching (λ _. seek-Calmer s c cs) (λ _. Calmer-refl s)

match_all-Calmer : (cs : List ClientRef) (s : Server) → Calmer s (match_all s cs)
unfolding match_all
match_all-Calmer [] s = Calmer-refl s
match_all-Calmer (c ∷ cs) s =
    Calmer-trans (step-Calmer s c cs)
      (match_all-Calmer cs (if (s.info c).is_searching then seek s c cs else s))

-- The clients that fit no longer do so later.
Calmer-fits :
    {s s' : Server} (c d : ClientRef)
    → Calmer s s'
    → fits s.info c d ≡ false
    → fits s'.info c d ≡ false
Calmer-fits c d f e = ground (arith, f.elo c, f.elo d, f.searches c, f.searches d)

-- The clients that do not fit when `seek` passes them.
passed :
    (s : Server) (c e : ClientRef) (ds : List ClientRef)
    → ((s.info e).is_searching && leb (elo_diff (s.info c) (s.info e)) 100) ≡ false
    → fits (seek s c ds).info c e ≡ false
passed s c e ds far = Calmer-fits c e (seek-Calmer s c ds) (rw far (ground arith))

unmatched :
    (s : Server) (c d : ClientRef) → (s.info c).is_searching ≡ false → fits s.info c d ≡ false
unmatched s c d e = rw e refl

seek_settles :
    (s : Server) (c : ClientRef) (ds : List ClientRef) (j : ℕ) (d : ClientRef)
    → get_elem? ds j ≡ some d
    → fits (seek s c ds).info c d ≡ false
unfolding seek
seek_settles s c [] j d at = cc
seek_settles s c (e ∷ ds) zero d at =
    if_cases (λ (t : Server). fits t.info c d ≡ false)
      ((s.info e).is_searching && leb (elo_diff (s.info c) (s.info e)) 100)
      (λ _. unmatched (pair_up s c e) c d (pair_up_matched s c e))
      (λ far. subst (λ q. fits (seek s c ds).info c q ≡ false) (same e d at) (passed s c e ds far))
  where
    same : (e d : ClientRef) → get_elem? (e ∷ ds) 0 ≡ some d → e ≡ d
    same e d at = ground arith
seek_settles s c (e ∷ ds) (suc j) d at =
    if_cases (λ (t : Server). fits t.info c d ≡ false)
      ((s.info e).is_searching && leb (elo_diff (s.info c) (s.info e)) 100)
      (λ _. unmatched (pair_up s c e) c d (pair_up_matched s c e)) (λ _. seek_settles s c ds j d at)

step_settles :
    (s : Server) (c : ClientRef) (cs : List ClientRef) (j : ℕ) (d : ClientRef)
    → get_elem? cs j ≡ some d
    → fits (if (s.info c).is_searching then seek s c cs else s).info c d ≡ false
step_settles s c cs j d at =
    if_cases (λ (t : Server). fits t.info c d ≡ false) (s.info c).is_searching
      (λ _. seek_settles s c cs j d at) (λ e. unmatched s c d e)

-- Of two clients in the list, the first one before the second, at least one does not search any
-- more after the matching, or their ratings are more than 100 apart.
pub match_all-Settled :
    (s : Server) (cs : List ClientRef) (i j : ℕ) (c d : ClientRef)
    → i < j
    → get_elem? cs i ≡ some c
    → get_elem? cs j ≡ some d
    → fits (match_all s cs).info c d ≡ false
unfolding match_all
match_all-Settled s [] i j c d lt at_i at_j = cc
match_all-Settled s (c' ∷ cs) zero zero c d lt at_i at_j = absurd (omega arith)
match_all-Settled s (c' ∷ cs) zero (suc j) c d lt at_i at_j =
    Calmer-fits c d (match_all-Calmer cs (if (s.info c').is_searching then seek s c' cs else s)) (
      subst (λ q. fits (if (s.info c').is_searching then seek s c' cs else s).info q d ≡ false)
        (ground arith) (step_settles s c' cs j d at_j))
match_all-Settled s (c' ∷ cs) (suc i) zero c d lt at_i at_j = absurd (omega arith)
match_all-Settled s (c' ∷ cs) (suc i) (suc j) c d lt at_i at_j =
    match_all-Settled (if (s.info c').is_searching then seek s c' cs else s) cs i j c d
      (omega arith) at_i at_j
