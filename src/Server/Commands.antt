-- ===== src/Server/Commands.antt =====
-- src/network/socket_server.cpp: `on_message`, from the text of a message to the operation.
pub mod Sent
use ctd_project.Base.{
  ℕ, Bool, true, false, Option, none, some, List, [], ◌∷◌, ◌++◌, ◌>>=◌, ◌==◌, if◌then◌else◌, ℤ, Str,
  codes, str_eq,
}
use ctd_project.Piece.{Position, position}
use ctd_project.Text.{skip_space, get_word, get_int}
use ctd_project.Server.{Server, Hdl}
use ctd_project.Server.Sessions.{login}
use ctd_project.Server.Lobby.{find_match, cancel_match, create_room, join_room}
use ctd_project.Server.Play.{move, jump}

pub data Command : Type 0 where
  login_as : (user password : Str) → Command
  look_for_match stop_looking : Command
  open_room enter : Str → Command
  move_piece : (seq : ℤ) (src dst : Position) → Command
  jump_piece : (seq : ℤ) (at : Position) → Command
  unknown : Command

-- `std::getline`
line_of : Str → Str
line_of [] = []
line_of (c ∷ s) = let rest = line_of s in if c == b'\n' then [] else c ∷ rest

read_login : Str → Command
read_login s =
    let (user, s1) = get_word s in let (password, s2) = get_word s1 in login_as user password

unfoldable pub read_move : Str → Option Command
read_move s = do
  seq ← get_int s
  sr ← get_int seq.1
  sc ← get_int sr.1
  dr ← get_int sc.1
  dc ← get_int dr.1
  some (move_piece seq.0 (position sr.0 sc.0) (position dr.0 dc.0))

unfoldable pub read_jump : Str → Option Command
read_jump s = do
  seq ← get_int s
  r ← get_int seq.1
  c ← get_int r.1
  some (jump_piece seq.0 (position r.0 c.0))

-- The words behind the first one. There is no result where a number cannot be read: the code goes on
-- with variables that were never set.
unfoldable pub read_arguments : (cmd rest : Str) → Option Command
unfolding read_login line_of
read_arguments cmd rest =
    if str_eq cmd (codes "LOGIN")
    then some (read_login rest)
    else if str_eq cmd (codes "FIND_MATCH")
    then some look_for_match
    else if str_eq cmd (codes "CANCEL_MATCH")
    then some stop_looking
    else if str_eq cmd (codes "CREATE_ROOM")
    then some (open_room (line_of (skip_space rest)))
    else if str_eq cmd (codes "JOIN_ROOM")
    then some (enter (get_word rest).0)
    else if str_eq cmd (codes "MOVE")
    then read_move rest
    else if str_eq cmd (codes "JUMP")
    then read_jump rest
    else some unknown

unfoldable pub read_command : Str → Option Command
read_command payload = let (cmd, rest) = get_word payload in read_arguments cmd rest

-- There is no result where a login reads a number of the file that is none.
unfoldable pub obey : Server → Hdl → ℕ → Command → Option Server
obey s h now (login_as user password) = login s h user password
obey s h now look_for_match = some (find_match s h now)
obey s h now stop_looking = some (cancel_match s h)
obey s h now (open_room name) = some (create_room s h name)
obey s h now (enter room) = some (join_room s h room)
obey s h now (move_piece seq src dst) = some (move s h seq src dst)
obey s h now (jump_piece seq at) = some (jump s h seq at)
obey s h now unknown = some s

unfoldable pub on_message : Server → Hdl → ℕ → Str → Option Server
on_message s h now payload = do command ← read_command payload; obey s h now command
