-- ===== src/Users/Manager.antt =====
-- src/io/user_manager.cpp: the operations of the `UserManager`, with the file that they read and write.
-- A file can always be written; what the standard library leaves open, the order in which an
-- `std::unordered_map` is listed, is a field. There is no result where `std::stoi` throws.
use ctd_project.Base.{Bool, true, Option, none, some, List, ◌>>=◌, if◌then◌else◌, Str, str_eq}
use ctd_project.Users.{User, Users, Rate, store_user, new_user, rate_players}
use ctd_project.Users.File.{save, load}

-- `file` is the text of the file, if it is there; `listing` is the order of the accounts.
pub record UserManager : Type 0 where
  pub users : Users
  pub file : Option Str
  pub listing : Users → List User

-- The loops that write all accounts to the file.
unfoldable pub save_users : UserManager → UserManager
save_users m = record m { file = some (save (m.listing m.users)) }

unfoldable pub loaded : UserManager → Option Users → Option UserManager
loaded m none = none
loaded m (some us) = some (record m { users = us })

-- Every login reads the accounts anew from the file, if it is there.
unfoldable pub reread : UserManager → Option Str → Option UserManager
unfolding loaded
reread m none = some m
reread m (some text) = loaded m (load text)

unfoldable pub admit : UserManager → Str → Str → Option User → UserManager × User × Bool
admit m name password none =
    let user = new_user name password in
    (save_users (record m { users = store_user m.users name user }), user, true)
admit m name password (some user) =
    let renewed : User = record user { password = password } in
    if str_eq user.password password
    then (m, user, true)
    else (save_users (record m { users = store_user m.users name renewed }), renewed, true)

-- The user is the parameter that is passed out; the `Bool` is the result.
unfoldable pub authenticate_or_register :
    UserManager → Str → Str → Option (UserManager × User × Bool)
authenticate_or_register m name password = do
  m1 ← reread m m.file
  some (admit m1 name password (m1.users name))

unfoldable pub rate_known :
    Rate → UserManager → (winner loser : Str) → Bool → (a b : Option User) → UserManager
rate_known rate m winner loser is_draw none b = m
rate_known rate m winner loser is_draw (some a) none = m
rate_known rate m winner loser is_draw (some a) (some b) =
    save_users
      (record m { users = rate_players rate m.users winner loser is_draw (some a) (some b) })

unfoldable pub update_elo_after_game :
    Rate → UserManager → (winner loser : Str) → Bool → UserManager
unfolding rate_known
update_elo_after_game rate m winner loser is_draw =
    rate_known rate m winner loser is_draw (m.users winner) (m.users loser)
