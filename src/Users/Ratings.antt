-- ===== src/Users/Ratings.antt =====
-- src/io/user_manager.cpp: what the end of a game does to the accounts.
use ctd_project.Base.{
  ℕ, ◌+◌, ◌≡◌, arith, ◌≢◌, refl, sym, Bool, true, false, some, Str, str_eq, str_eq_iff, str_eq_refl,
  Bool-cases, inl, inr, if◌then◌else◌,
}
use ctd_project.Users.{User, Rate, rate_players}
use ctd_project.Users.File.{save}
use ctd_project.Users.Manager.{UserManager, rate_known, save_users, update_elo_after_game}

str_eq_apart : (s t : Str) → s ≢ t → str_eq s t ≡ false
str_eq_apart s t apart = elim (Bool-cases (str_eq s t)) [
  | inl e ↦ absurd (apart ((str_eq_iff s t).0 e))
  | inr e ↦ e
]

-- An account with the same name and password.
abbrev pub rerated : User → (elo wins losses : ℕ) → User
rerated u elo wins losses = record {
  username = u.username;
  password = u.password;
  elo = elo;
  wins = wins;
  losses = losses;
}

-- After a game between two different known accounts both have the new rating; the winner has a win
-- more and the loser a loss more, unless the game was drawn; no other account changes, and the file
-- has the accounts as they are now.
pub update_elo_after_game_lem :
    (rate : Rate) (m : UserManager) (winner loser other : Str) (is_draw : Bool) (a b : User)
    → m.users winner ≡ some a
    → m.users loser ≡ some b
    → winner ≢ loser
    → other ≢ winner
    → other ≢ loser
    → let m' = update_elo_after_game rate m winner loser is_draw in
      (m'.users winner
        ≡ some (
            rerated a
              (rate a.elo b.elo is_draw true)
              (if is_draw then a.wins else a.wins + 1)
              a.losses))
      × (m'.users loser
          ≡ some (
              rerated b
                (rate b.elo a.elo is_draw false)
                b.wins
                (if is_draw then b.losses else b.losses + 1)))
      × (m'.users other ≡ m.users other)
      × (m'.file ≡ some (save (m.listing m'.users)))
unfolding update_elo_after_game rate_known rate_players save_users
update_elo_after_game_lem rate m winner loser other is_draw a b ew el apart not_winner not_loser =
    rw (ew, el)
      (
        rw (str_eq_apart winner loser apart, str_eq_refl winner, ew) (ground arith),
        rw (str_eq_refl loser, str_eq_apart loser winner (λ e. apart (sym e)), el) (ground arith),
        rw (str_eq_apart other loser not_loser, str_eq_apart other winner not_winner) refl,
        refl,
      )
