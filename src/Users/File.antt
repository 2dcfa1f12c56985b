-- ===== src/Users/File.antt =====
-- src/io/user_manager.cpp: `save`, the text of the file of the accounts, and `load`, which reads it.
-- The order in which `std::unordered_map` lists the accounts is open: they are saved as a list.
pub mod Values
pub mod Account
pub mod RoundTrip
use ctd_project.Base.{
  ℕ, zero, suc, Bool, true, false, ◌||◌, Option, none, some, List, [], ◌∷◌, ◌++◌, ◌>>=◌, ◌==◌,
  if◌then◌else◌, ℤ, pos, negsuc, map, length, Str, codes, to_string,
}
use ctd_project.Text.{all_rounds, cut, find, drop, stoi}
use ctd_project.Json.{quoted}
use ctd_project.Users.{User, Users, store_user, default_elo}

-- A key with its value.
abbrev pub entry_text : Str → Str → Str
entry_text key value = quoted key ++ b':' ∷ b' ' ∷ value

abbrev pub next_line : Str
next_line = codes ",\n    "

-- What is saved of an account, without its braces.
unfoldable pub account_text : User → Str
account_text u =
    entry_text (codes "username") (quoted u.username)
    ++ (next_line
        ++ (entry_text (codes "password") (quoted u.password)
            ++ (next_line
                ++ (entry_text (codes "elo") (to_string (pos u.elo))
                    ++ (next_line
                        ++ (entry_text (codes "wins") (to_string (pos u.wins))
                            ++ (next_line
                                ++ (entry_text (codes "losses") (to_string (pos u.losses))
                                    ++ codes "\n  "))))))))

unfoldable pub user_text : User → Str
user_text u = codes "  {\n    " ++ (account_text u ++ codes "}")

unfoldable pub users_text : List User → Str
users_text [] = []
users_text (u ∷ []) = user_text u
users_text (u ∷ v ∷ us) = user_text u ++ (codes ",\n" ++ users_text (v ∷ us))

unfoldable pub save : List User → Str
save us = codes "[\n" ++ (users_text us ++ codes "\n]\n")

-- The text from the next name to the brace behind it, and what follows.
unfoldable pub next_account : Str → Option (Str × Str)
next_account s = do
  at ← find (quoted (codes "username")) s
  account ← cut (codes "}") at
  some (account.0, drop 1 account.1)

-- `obj_str[val_start] == ' ' || obj_str[val_start] == '"'`
abbrev pub is_lead : ℕ → Bool
is_lead c = (c == b' ') || (c == b'"')

unfoldable pub skip_lead : Str → Str
skip_lead [] = []
skip_lead (c ∷ s) = let rest = skip_lead s in if is_lead c then rest else c ∷ s

abbrev pub ends_value : ℕ → Bool
ends_value c = (c == b'"') || ((c == b',') || ((c == b'\n') || ((c == b'\r') || (c == b'}'))))

unfoldable pub take_value : Str → Str
take_value [] = []
take_value (c ∷ s) = let rest = take_value s in if ends_value c then [] else c ∷ rest

value_from : Option Str → Str
value_from none = []
value_from (some colon) = take_value (skip_lead (drop 1 colon))

unfoldable pub extract_val : Str → Str → Str
unfolding value_from
extract_val obj key = value_from (do at ← find (quoted key) obj; find (codes ":") at)

-- `text.empty() ? default : std::stoi(text)`. There is no result where `std::stoi` throws, nor for a
-- number below zero.
unfoldable pub number_or : ℕ → Str → Option ℕ
number_or default [] = some default
number_or default (c ∷ s) = do z ← stoi (c ∷ s); elim z [ pos n ↦ some n | negsuc n ↦ none ]

unfoldable pub read_user : Str → Option User
read_user obj = do
  elo ← number_or default_elo (extract_val obj (codes "elo"))
  wins ← number_or 0 (extract_val obj (codes "wins"))
  losses ← number_or 0 (extract_val obj (codes "losses"))
  some (record {
    username = extract_val obj (codes "username");
    password = extract_val obj (codes "password");
    elo = elo;
    wins = wins;
    losses = losses;
  })

-- An account without a name is passed over.
add_named : Users → User → Str → Users
add_named users u [] = users
add_named users u (c ∷ name) = store_user users (c ∷ name) u

add_user : Users → User → Users
unfolding add_named
add_user users u = add_named users u u.username

unfoldable pub read_users : Users → List Str → Option Users
unfolding add_user
read_users users [] = some users
read_users users (obj ∷ objs) = do u ← read_user obj; read_users (add_user users u) objs

-- The accounts that are known before are forgotten.
unfoldable pub load : Str → Option Users
load text = read_users (λ n. none) (all_rounds next_account text)
