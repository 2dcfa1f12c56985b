-- ===== src/Users/Login.antt =====
-- src/io/user_manager.cpp: what a login does to the accounts and to their file.
use ctd_project.Base.{
  ◌≡◌, refl, ap, sym, ◌∙◌, Bool, true, false, Option, none, some, List, ◌>>=◌, if◌then◌else◌, Str,
  str_eq, str_eq_iff, Option-cases, Bool-cases, if_cases, inl, inr,
}
use ctd_project.Users.{User, Users, found, get_user}
use ctd_project.Users.File.{save}
use ctd_project.Users.File.RoundTrip.{AllSavable, stored, load-save}
use ctd_project.Users.Manager.{
  UserManager, admit, reread, loaded, save_users, authenticate_or_register,
}

-- The account is known, with this password.
abbrev pub is_known_as : Option User → Str → Bool
is_known_as none password = false
is_known_as (some user) password = str_eq user.password password

-- A login as `name` among the accounts `known`: the account that it gets, the accounts afterwards, and
-- the file, which is written anew unless the account was known with this password.
pub record LoggedIn (known : Users) (name password : Str) (m m' : UserManager) (user : User)
    : Type 0 where
  pub password_set : user.password ≡ password
  pub accounts :
      (other : Str) → m'.users other ≡ (if str_eq other name then some user else known other)
  pub elo : user.elo ≡ (get_user known name).elo
  pub wins : user.wins ≡ (get_user known name).wins
  pub losses : user.losses ≡ (get_user known name).losses
  pub file :
      m'.file
      ≡ (if is_known_as (known name) password then m.file else some (save (m.listing m'.users)))

get_user-found :
    (users : Users) (name : Str) {o : Option User}
    → users name ≡ o
    → get_user users name ≡ found name o
unfolding get_user
get_user-found users name e = ap (found name) e

kept :
    (users : Users) (name other : Str) (user : User)
    → users name ≡ some user
    → users other ≡ (if str_eq other name then some user else users other)
kept users name other user e =
    if_cases (λ o. users other ≡ o) (str_eq other name)
      (λ same. ap users ((str_eq_iff other name).0 same) ∙ e) (λ _. refl)

-- What the search and the change of the map do.
admit-LoggedIn :
    (m : UserManager) (name password : Str)
    → let (m', user, accepted) = admit m name password (m.users name) in
      LoggedIn m.users name password m m' user × (accepted ≡ true)
unfolding found admit save_users
admit-LoggedIn m name password = elim (Option-cases (m.users name)) [
  | inl e ↦
      let g = get_user-found m.users name e in
      rw e (
        record {
          password_set = refl;
          accounts = λ other. refl;
          elo = sym (ap (λ (u : User). u.elo) g);
          wins = sym (ap (λ (u : User). u.wins) g);
          losses = sym (ap (λ (u : User). u.losses) g);
          file = rw e refl;
        },
        refl,
      )
  | inr (user, e) ↦
      let g = get_user-found m.users name e in
      elim (Bool-cases (str_eq user.password password)) [
        | inl same ↦
            rw (e, same)
              (
                record {
                  password_set = (str_eq_iff user.password password).0 same;
                  accounts = λ other. kept m.users name other user e;
                  elo = sym (ap (λ (u : User). u.elo) g);
                  wins = sym (ap (λ (u : User). u.wins) g);
                  losses = sym (ap (λ (u : User). u.losses) g);
                  file = rw (e, same) refl;
                },
                refl,
              )
        | inr differs ↦
            rw (e, differs)
              (
                record {
                  password_set = refl;
                  accounts = λ other. refl;
                  elo = sym (ap (λ (u : User). u.elo) g);
                  wins = sym (ap (λ (u : User). u.wins) g);
                  losses = sym (ap (λ (u : User). u.losses) g);
                  file = rw (e, differs) refl;
                },
                refl,
              )
      ]
]

reread-save :
    (m : UserManager) (us : List User)
    → m.file ≡ some (save us)
    → AllSavable us
    → reread m m.file ≡ some (record m { users = stored (λ n. none) us })
unfolding reread loaded
reread-save m us saved savable = ap (reread m) saved ∙ ap (loaded m) (load-save us savable)

-- Where the file was saved with a list of accounts, each fit to be read again, every login succeeds.
-- Afterwards the account has the password that was given, a known account keeps its rating and its
-- record, a new one has the default rating, and the others are the accounts of the file, whatever was
-- in memory. The file is written anew, with all accounts, unless the password was the known one.
pub authenticate_or_register_lem :
    (m : UserManager) (us : List User) (name password : Str)
    → m.file ≡ some (save us)
    → AllSavable us
    → (m' : UserManager) × (user : User) × (authenticate_or_register m name password
        ≡ some (m', user, true))
      × LoggedIn (stored (λ n. none) us) name password m m' user
unfolding authenticate_or_register
authenticate_or_register_lem m us name password saved savable =
    let known = stored (λ n. none) us in
    let m1 : UserManager = record m { users = known } in
    let (m', user, accepted) = admit m1 name password (known name) in
    let (logged_in, accepts) = admit-LoggedIn m1 name password in
    let read : reread m m.file ≡ some m1 = reread-save m us saved savable in
    let done : authenticate_or_register m name password
        ≡ some (admit m1 name password (known name)) =
      ap (λ o. o >>= λ (n : UserManager). some (admit n name password (n.users name))) read in
    (
      m',
      user,
      done ∙ ap (λ b. some (m', user, b)) accepts,
      record {
        password_set = logged_in.password_set;
        accounts = logged_in.accounts;
        elo = logged_in.elo;
        wins = logged_in.wins;
        losses = logged_in.losses;
        file = logged_in.file;
      },
    )
