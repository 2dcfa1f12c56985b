-- ===== src/Users/File/Account.antt =====
-- One account, as it is saved and read.
use mathlib.Core.List.{append_assoc}
use ctd_project.Base.{
  ◌≡◌, refl, sym, ap, ◌∙◌, ℕ, Bool, true, false, ◌&&◌, none, some, List, [], ◌∷◌, ◌++◌, pos, Str,
  codes, str_eq, to_string, both, and_left, and_right, get_elem?,
}
use ctd_project.Text.{is_int, stoi, get_int, skip_space, signed}
use ctd_project.Text.Search.{lacks, lacks-append}
use ctd_project.Text.Numbers.{stoi-to_string}
use ctd_project.Json.{quoted, Field, string_field, int_field}
use ctd_project.Json.Lookup.{is_other, lacks-none_pass, to_string_plain}
use ctd_project.Json.Keys.{is_apart, other}
use ctd_project.Users.{User, default_elo}
use ctd_project.Users.File.{entry_text, account_text, extract_val, number_or, read_user}
use ctd_project.Users.File.Values.{is_plain_value, lines_text, extract_val-text, extract_val-number}

abbrev pub account_keys : List Str
account_keys =
    codes "username" ∷ codes "password" ∷ codes "elo" ∷ codes "wins" ∷ codes "losses" ∷ []

-- A name or password that can be saved: it does not begin with a space or a quote, it has no quote,
-- comma, brace or end of a line, and it is none of the keys.
abbrev pub is_savable : Str → Bool
is_savable s = is_plain_value s && (is_apart account_keys s && lacks b'}' s)

-- The numbers fit an `int`.
abbrev pub IsSavable : User → Type 0
IsSavable u =
    (is_savable u.username ≡ true)
    × (is_savable u.password ≡ true)
    × (is_int (pos u.elo) ≡ true)
    × (is_int (pos u.wins) ≡ true)
    × (is_int (pos u.losses) ≡ true)
    × (str_eq u.username [] ≡ false)

savable_apart : (s : Str) → is_savable s ≡ true → is_apart account_keys s ≡ true
savable_apart s h =
    and_left (is_apart account_keys s) (lacks b'}' s)
      (and_right (is_plain_value s) (is_apart account_keys s && lacks b'}' s) h)

stoi_nothing : stoi [] ≡ none
unfolding stoi get_int skip_space signed
stoi_nothing = refl

number_or-stoi : (d : ℕ) (s : Str) (n : ℕ) → stoi s ≡ some (pos n) → number_or d s ≡ some n
unfolding number_or
number_or-stoi d [] n e =
    let clash : none ≡ some (pos n) = sym stoi_nothing ∙ e in absurd (cc clash)
number_or-stoi d (c ∷ s) n e = rw e refl

module _ (u : User) (savable : IsSavable u) where
  abbrev behind_losses : Str
  behind_losses = codes "\n  "

  abbrev behind_wins : Str
  behind_wins =
      codes "\n    " ++ (entry_text (codes "losses") (to_string (pos u.losses)) ++ behind_losses)

  abbrev behind_elo : Str
  behind_elo =
      codes "\n    " ++ (entry_text (codes "wins") (to_string (pos u.wins)) ++ b',' ∷ behind_wins)

  abbrev behind_password : Str
  behind_password =
      codes "\n    " ++ (entry_text (codes "elo") (to_string (pos u.elo)) ++ b',' ∷ behind_elo)

  abbrev behind_username : Str
  behind_username =
      codes "\n    "
      ++ (entry_text (codes "password") (quoted u.password) ++ b',' ∷ behind_password)

  abbrev name_line : Field
  name_line = string_field (codes "username") u.username

  abbrev password_line : Field
  password_line = string_field (codes "password") u.password

  abbrev elo_line : Field
  elo_line = int_field (codes "elo") (pos u.elo)

  abbrev wins_line : Field
  wins_line = int_field (codes "wins") (pos u.wins)

  split_username :
      account_text u ≡ entry_text (codes "username") (quoted u.username) ++ b',' ∷ behind_username
  unfolding account_text
  split_username = simp (append_assoc)

  split_password :
      account_text u
      ≡ lines_text (name_line ∷ [])
        ++ (entry_text (codes "password") (quoted u.password) ++ b',' ∷ behind_password)
  unfolding account_text
  split_password = simp (append_assoc)

  split_elo :
      account_text u
      ≡ lines_text (name_line ∷ password_line ∷ [])
        ++ (entry_text (codes "elo") (to_string (pos u.elo)) ++ b',' ∷ behind_elo)
  unfolding account_text
  split_elo = simp (append_assoc)

  split_wins :
      account_text u
      ≡ lines_text (name_line ∷ password_line ∷ elo_line ∷ [])
        ++ (entry_text (codes "wins") (to_string (pos u.wins)) ++ b',' ∷ behind_wins)
  unfolding account_text
  split_wins = simp (append_assoc)

  split_losses :
      account_text u
      ≡ lines_text (name_line ∷ password_line ∷ elo_line ∷ wins_line ∷ [])
        ++ (entry_text (codes "losses") (to_string (pos u.losses)) ++ behind_losses)
  unfolding account_text
  split_losses = simp (append_assoc)

  -- No name or password misleads the search for the key in the given place.
  apart :
      (i : ℕ) (k : Str)
      → get_elem? account_keys i ≡ some k
      → (is_other k u.username ≡ true) × (is_other k u.password ≡ true)
  apart i k e = (
    other account_keys i k u.username e (savable_apart u.username savable.0),
    other account_keys i k u.password e (savable_apart u.password savable.1),
  )

  name_read : extract_val (account_text u) (codes "username") ≡ u.username
  unfolding account_text
  name_read =
      ap (λ t. extract_val t (codes "username")) split_username
      ∙ extract_val-text (codes "username") [] refl refl u.username behind_username
          (and_left _ _ savable.0)

  password_read : extract_val (account_text u) (codes "password") ≡ u.password
  unfolding str_eq
  password_read =
      ap (λ t. extract_val t (codes "password")) split_password
      ∙ extract_val-text (codes "password") (name_line ∷ []) refl
          (both (apart 1 (codes "password") refl).0 refl) u.password behind_password
          (and_left _ _ savable.1)

  elo_read : extract_val (account_text u) (codes "elo") ≡ to_string (pos u.elo)
  unfolding str_eq
  elo_read =
      ap (λ t. extract_val t (codes "elo")) split_elo
      ∙ extract_val-number (codes "elo") (name_line ∷ password_line ∷ []) refl
          (both (apart 2 (codes "elo") refl).0 (both (apart 2 (codes "elo") refl).1 refl))
          (pos u.elo) b',' behind_elo refl refl

  wins_read : extract_val (account_text u) (codes "wins") ≡ to_string (pos u.wins)
  unfolding str_eq
  wins_read =
      ap (λ t. extract_val t (codes "wins")) split_wins
      ∙ extract_val-number (codes "wins") (name_line ∷ password_line ∷ elo_line ∷ []) refl
          (both (apart 3 (codes "wins") refl).0 (both (apart 3 (codes "wins") refl).1 refl))
          (pos u.wins) b',' behind_wins refl refl

  losses_read : extract_val (account_text u) (codes "losses") ≡ to_string (pos u.losses)
  unfolding str_eq
  losses_read =
      ap (λ t. extract_val t (codes "losses")) split_losses
      ∙ extract_val-number (codes "losses") (name_line ∷ password_line ∷ elo_line ∷ wins_line ∷ [])
          refl
          (both (apart 4 (codes "losses") refl).0 (both (apart 4 (codes "losses") refl).1 refl))
          (pos u.losses) b'\n' (codes "  ") refl refl

  pub read_user-account_text : read_user (account_text u) ≡ some u
  unfolding read_user
  read_user-account_text =
      let (nu, np, ie, iw, il, full) = savable in
      rw elo_read (
        rw
          (number_or-stoi default_elo (to_string (pos u.elo)) u.elo (stoi-to_string (pos u.elo) ie))
          (rw wins_read (
            rw (number_or-stoi 0 (to_string (pos u.wins)) u.wins (stoi-to_string (pos u.wins) iw)) (
              rw losses_read (
                rw
                  (number_or-stoi 0 (to_string (pos u.losses)) u.losses
                    (stoi-to_string (pos u.losses) il))
                  (rw name_read (rw password_read refl)))))))

-- No brace stands in an account.
entry-lacks :
    (key v t : Str)
    → lacks b'}' key ≡ true
    → lacks b'}' v ≡ true
    → lacks b'}' t ≡ true
    → lacks b'}' (entry_text key v ++ t) ≡ true
entry-lacks key v t k n m =
    lacks-append b'}' (quoted key ++ b':' ∷ b' ' ∷ v) t
      (lacks-append b'}' (quoted key) (b':' ∷ b' ' ∷ v) (lacks-append b'}' key (b'"' ∷ []) k refl)
        n)
      m

pub quoted-lacks : (s : Str) → is_savable s ≡ true → lacks b'}' (quoted s) ≡ true
quoted-lacks s h =
    lacks-append b'}' s (b'"' ∷ [])
      (and_right (is_apart account_keys s) (lacks b'}' s)
        (and_right (is_plain_value s) (is_apart account_keys s && lacks b'}' s) h))
      refl

number-lacks : (n : ℕ) → lacks b'}' (to_string (pos n)) ≡ true
number-lacks n = lacks-none_pass b'}' (to_string (pos n)) refl (to_string_plain (pos n))

pub account-lacks : (u : User) → IsSavable u → lacks b'}' (account_text u) ≡ true
unfolding account_text
account-lacks u (nu, np, ie, iw, il, full) =
    entry-lacks (codes "username") (quoted u.username) _ refl (quoted-lacks u.username nu) (
      entry-lacks (codes "password") (quoted u.password) _ refl (quoted-lacks u.password np) (
        entry-lacks (codes "elo") (to_string (pos u.elo)) _ refl (number-lacks u.elo) (
          entry-lacks (codes "wins") (to_string (pos u.wins)) _ refl (number-lacks u.wins) (
            entry-lacks (codes "losses") (to_string (pos u.losses)) (codes "\n  ") refl
              (number-lacks u.losses) refl))))

-- An account begins with the key of its name.
pub named : (u : User) → (t : Str) × (account_text u ≡ quoted (codes "username") ++ t)
unfolding account_text
named u = (_, refl)
