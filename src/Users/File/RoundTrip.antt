-- ===== src/Users/File/RoundTrip.antt =====
-- The accounts are saved and loaded again.
use mathlib.Core.List.{append-nil, append_assoc}
use ctd_project.Base.{
  ◌≡◌, refl, sym, ap, ◌∙◌, ℕ, suc, ◌≤◌, true, false, Option, none, some, List, [], ◌∷◌, ◌++◌, ◌>>=◌,
  Str, codes, str_eq, arith, map, length,
}
use ctd_project.Text.{cut, find, rest_of, drop, starts_with, all_rounds}
use ctd_project.Text.Search.{lacks, lacks-Skips, lacks-append, cut-Skips, cut-lacks, behind}
use ctd_project.Text.Rounds.{NotLonger, Shorter, cut-NotLonger, go_on, all_rounds-go_on}
use ctd_project.Json.{quoted}
use ctd_project.Users.{User, Users, store_user}
use ctd_project.Users.File.{
  account_text, user_text, users_text, save, next_account, add_user, add_named, read_users, load,
}
use ctd_project.Users.File.Account.{IsSavable, read_user-account_text, account-lacks, named}

-- A round leaves less of the text.
close_account : Option (Str × Str) → Option (Str × Str)
close_account y = do account ← y; some (account.0, drop 1 account.1)

close_account-Shorter :
    (m n : ℕ) (y : Option (Str × Str))
    → NotLonger m y
    → m ≤ suc n
    → Shorter (suc n) (close_account y)
unfolding close_account
close_account-Shorter m n none h l = omega arith
close_account-Shorter m n (some (account, [])) h l = omega arith
close_account-Shorter m n (some (account, d ∷ rest)) h l = omega arith

from_name : Option Str → Option (Str × Str)
unfolding close_account
from_name x = do at ← x; close_account (cut (codes "}") at)

from_name-Shorter :
    (n : ℕ) (x : Option (Str × Str)) → NotLonger (suc n) x → Shorter (suc n) (from_name (rest_of x))
unfolding from_name
from_name-Shorter n none h = h
from_name-Shorter n (some (before, at)) h =
    close_account-Shorter (length at) n (cut (codes "}") at) (cut-NotLonger (codes "}") at) h

next_account-Shorter : (s : Str) → Shorter (length s) (next_account s)
unfolding next_account
next_account-Shorter [] = unfold cut starts_with in omega arith
next_account-Shorter (c ∷ s) =
    unfold from_name close_account in
    from_name-Shorter (length s) (cut (quoted (codes "username")) (c ∷ s))
      (cut-NotLonger (quoted (codes "username")) (c ∷ s))

accounts : Str → List Str
accounts s = all_rounds next_account s

accounts-go_on : (s : Str) → accounts s ≡ go_on accounts (next_account s)
unfolding accounts
accounts-go_on s = all_rounds-go_on next_account next_account-Shorter s

next_account-account_text :
    (before rest : Str) (u : User)
    → lacks b'"' before ≡ true
    → IsSavable u
    → next_account (before ++ (account_text u ++ b'}' ∷ rest)) ≡ some (account_text u, rest)
unfolding next_account
next_account-account_text before rest u n savable =
    let (t, e) = named u in
    let key = quoted (codes "username") in
    let at : find key (before ++ (account_text u ++ b'}' ∷ rest))
        ≡ some (account_text u ++ b'}' ∷ rest) =
      ap (λ a. find key (before ++ (a ++ b'}' ∷ rest))) e
      ∙ ap rest_of
          (cut-Skips key before (t ++ b'}' ∷ rest) (lacks-Skips b'"' (codes "username\"") before n))
      ∙ ap (λ a. some (a ++ b'}' ∷ rest)) (sym e) in
    rw at (rw (cut-lacks b'}' (account_text u) rest (account-lacks u savable)) refl)

accounts-account_text :
    (before rest : Str) (u : User)
    → lacks b'"' before ≡ true
    → IsSavable u
    → accounts (before ++ (account_text u ++ b'}' ∷ rest)) ≡ account_text u ∷ accounts rest
accounts-account_text before rest u n savable =
    accounts-go_on (before ++ (account_text u ++ b'}' ∷ rest))
    ∙ ap (go_on accounts) (next_account-account_text before rest u n savable)

-- Every account can be saved.
abbrev pub AllSavable : List User → Type 0
AllSavable [] = true ≡ true
AllSavable (u ∷ us) = IsSavable u × AllSavable us

next_account-none : (s : Str) → lacks b'"' s ≡ true → next_account s ≡ none
unfolding next_account
next_account-none s n =
    let key = quoted (codes "username") in
    let nothing : find key s ≡ none =
      ap rest_of (ap (cut key) (sym (append-nil s)) ∙ lacks-Skips b'"' (codes "username\"") s n [])
      ∙ cut_nothing s in
    rw nothing refl
  where
    cut_nothing : (s : Str) → rest_of (behind s (cut (quoted (codes "username")) [])) ≡ none
    cut_nothing s = unfold cut starts_with in refl

accounts-none : (s : Str) → lacks b'"' s ≡ true → accounts s ≡ []
accounts-none s n = accounts-go_on s ∙ ap (go_on accounts) (next_account-none s n)

abbrev opening : Str
opening = codes "  {\n    "

split_user :
    (before rest : Str) (u : User)
    → before ++ (user_text u ++ rest) ≡ (before ++ opening) ++ (account_text u ++ b'}' ∷ rest)
unfolding user_text
split_user before rest u = simp (append_assoc)

accounts-user_text :
    (before rest : Str) (u : User)
    → lacks b'"' before ≡ true
    → IsSavable u
    → accounts (before ++ (user_text u ++ rest)) ≡ account_text u ∷ accounts rest
accounts-user_text before rest u n savable =
    ap accounts (split_user before rest u)
    ∙ accounts-account_text (before ++ opening) rest u (lacks-append b'"' before opening n refl)
        savable

accounts-users_text :
    (before : Str) (us : List User)
    → lacks b'"' before ≡ true
    → AllSavable us
    → accounts (before ++ (users_text us ++ codes "\n]\n")) ≡ map account_text us
unfolding users_text
accounts-users_text before [] n savable =
    accounts-none (before ++ codes "\n]\n") (lacks-append b'"' before (codes "\n]\n") n refl)
accounts-users_text before (u ∷ []) n (savable, all) =
    accounts-user_text before (codes "\n]\n") u n savable
    ∙ ap (λ later. account_text u ∷ later) (accounts-none (codes "\n]\n") refl)
accounts-users_text before (u ∷ v ∷ us) n (savable, all) =
    let rest = users_text (v ∷ us) ++ codes "\n]\n" in
    ap (λ t. accounts (before ++ t)) (split_users u (users_text (v ∷ us)))
    ∙ accounts-user_text before (codes ",\n" ++ rest) u n savable
    ∙ ap (λ later. account_text u ∷ later) (accounts-users_text (codes ",\n") (v ∷ us) refl all)
  where
    split_users :
        (u : User) (t : Str)
        → (user_text u ++ (codes ",\n" ++ t)) ++ codes "\n]\n"
          ≡ user_text u ++ (codes ",\n" ++ (t ++ codes "\n]\n"))
    split_users u t = append_assoc (user_text u) (codes ",\n" ++ t) (codes "\n]\n")

-- The accounts of a list, the later ones in place of earlier ones with their names.
abbrev pub stored : Users → List User → Users
stored users [] = users
stored users (u ∷ us) = stored (store_user users u.username u) us

add_named_lem :
    (users : Users) (u : User) (name : Str)
    → str_eq name [] ≡ false
    → add_named users u name ≡ store_user users name u
unfolding add_named str_eq
add_named_lem users u [] n = absurd (cc n)
add_named_lem users u (c ∷ name) n = refl

read_users-account_text :
    (users : Users) (us : List User)
    → AllSavable us
    → read_users users (map account_text us) ≡ some (stored users us)
unfolding read_users
read_users-account_text users [] h = refl
read_users-account_text users (u ∷ us) (savable, all) = rw (read_user-account_text u savable) (
    ap (λ v. read_users v (map account_text us))
      (unfold add_user in add_named_lem users u u.username savable.5)
    ∙ read_users-account_text (store_user users u.username u) us all)

-- The accounts that are saved are loaded again, in place of all that were known, whatever the order in
-- which they are saved. Their numbers must fit an `int`; no name or password may begin with a space,
-- have a quote, a comma, a brace or an end of line in it, or be one of the keys; no name may be empty.
pub load-save : (us : List User) → AllSavable us → load (save us) ≡ some (stored (λ n. none) us)
unfolding load save accounts
load-save us savable =
    ap (read_users (λ n. none)) (accounts-users_text (codes "[\n") us refl savable)
    ∙ read_users-account_text (λ n. none) us savable
