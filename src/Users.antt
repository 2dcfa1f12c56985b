-- ===== src/Users.antt =====
-- src/io/user_manager.cpp: the accounts, as a map from names. Users/File has the text of their file,
-- and Users/Manager the operations that read and write it. Ratings are not negative.
pub mod Login
pub mod Ratings
pub mod File
pub mod Manager
use ctd_project.Base.{ℕ, suc, Bool, true, false, Option, none, some, [], if◌then◌else◌, Str, str_eq}

pub record User : Type 0 where
  pub username : Str
  pub password : Str
  pub elo : ℕ
  pub wins : ℕ
  pub losses : ℕ

abbrev pub default_elo : ℕ
default_elo = 1200

abbrev pub Users : Type 0
Users = Str → Option User

-- `m_users[name] = user`
abbrev pub store_user : Users → Str → User → Users
store_user users name user = λ n. if str_eq n name then some user else users n

abbrev pub new_user : Str → Str → User
new_user name password = record {
  username = name;
  password = password;
  elo = default_elo;
  wins = 0;
  losses = 0;
}

found : Str → Option User → User
found name none = new_user name []
found name (some user) = user

pub get_user : Users → Str → User
unfolding found
get_user users name = found name (users name)

-- The new rating of a player, from its rating, the opponent's, whether the game is drawn and whether
-- the player has won. It is computed with the mathematical library (`std::pow`, `std::round`), and
-- is a parameter here.
abbrev pub Rate : Type 0
Rate = (own other : ℕ) (is_draw won : Bool) → ℕ

-- A change through the reference `m_users[name]`, which is there already.
abbrev pub changed : (User → User) → Option User → Option User
changed f none = none
changed f (some user) = some (f user)

abbrev pub modify : Users → Str → (User → User) → Users
modify users name f = λ n. if str_eq n name then changed f (users n) else users n

abbrev pub win : ℕ → Bool → User → User
win elo is_draw u = record u { elo = elo; wins = if is_draw then u.wins else suc u.wins }

abbrev pub lose : ℕ → Bool → User → User
lose elo is_draw u = record u { elo = elo; losses = if is_draw then u.losses else suc u.losses }

unfoldable pub rate_players : Rate → Users → Str → Str → Bool → Option User → Option User → Users
rate_players rate users winner loser is_draw none b = users
rate_players rate users winner loser is_draw (some a) none = users
rate_players rate users winner loser is_draw (some a) (some b) =
    let users' = modify users winner (win (rate a.elo b.elo is_draw true) is_draw) in
    modify users' loser (lose (rate b.elo a.elo is_draw false) is_draw)
