-- ===== src/Client/Messages.antt =====
-- src/network/socket_client.cpp: `on_message`, and what the client sends. Its own log is not modelled.
-- A text that is not one of the short messages is the state of a game.
use ctd_project.Base.{
  ℕ, ◌+◌, ◌%◌, ◌^◌, Bool, true, false, ◌&&◌, not, Option, some, [], ◌∷◌, ◌++◌, ◌>>=◌, if◌then◌else◌,
  ℤ, pos, Str, codes, str_eq, to_string,
}
use ctd_project.Text.{starts_with, drop, get_word, get_int}
use ctd_project.GameState.{set_game_over}
use ctd_project.Server.{is_empty}
use ctd_project.Client.{Client, idle, searching, matched, timeout}
use ctd_project.Client.Updating.{parse_and_update_state}

-- There is no result where the number cannot be read: the code goes on with a variable that was never
-- set, or was set to the end of its range.
auth_ok : Client → Str → Option Client
auth_ok c s = do
  color ← some (get_word s)
  uname ← some (get_word color.1)
  elo ← get_int uname.1
  some (record c { assigned_color = color.0; username = uname.0; elo = elo.0; logged_in = true })

-- A game begins: the last one is not over any more.
start_game : Client → Client
start_game c = record c {
  match_state = matched;
  server_game_over = false;
  world = set_game_over c.world false;
}

match_found : Client → Str → Option Client
unfolding start_game
match_found c s = do
  col ← some (get_word s)
  w_usr ← some (get_word col.1)
  w_e ← get_int w_usr.1
  b_usr ← some (get_word w_e.1)
  b_e ← get_int b_usr.1
  some (
      start_game (record c {
        assigned_color = col.0;
        white_user =
            if not (is_empty w_usr.0) && not (str_eq w_usr.0 (codes "WHITE"))
            then w_usr.0
            else c.white_user;
        white_elo = w_e.0;
        black_user =
            if not (is_empty b_usr.0) && not (str_eq b_usr.0 (codes "BLACK"))
            then b_usr.0
            else c.black_user;
        black_elo = b_e.0;
      }))

enter_room : Client → (id name color : Str) → Bool → Client
unfolding start_game
enter_room c id name color viewer = start_game (record c {
  room_id = id;
  room_name = name;
  assigned_color = color;
  is_viewer = viewer;
  show_popup = false;
})

room_created : Client → Str → Client
unfolding enter_room
room_created c s =
    let (r_id, s1) = get_word s in
    let (r_name, s2) = get_word s1 in
    let (r_color, s3) = get_word s2 in
    let c1 = enter_room c r_id r_name r_color false in
    if str_eq r_color (codes "WHITE")
    then record c1 { white_user = c.username; white_elo = c.elo; black_user = codes "BLACK" }
    else c1

room_joined : Client → Str → Client
unfolding enter_room
room_joined c s =
    let (r_id, s1) = get_word s in
    let (r_name, s2) = get_word s1 in
    let (r_color, s3) = get_word s2 in
    let c1 = enter_room c r_id r_name r_color (str_eq r_color (codes "VIEWER")) in
    if str_eq r_color (codes "BLACK")
    then record c1 { black_user = c.username; black_elo = c.elo }
    else c1

abbrev pub timeout_text : Str
timeout_text = codes "No opponent found within +-100 ELO range.\nPlease try again later."

-- The branches of `on_message`.
receive : Client → Str → Option Client
unfolding auth_ok match_found room_created room_joined
receive c payload =
    if starts_with (codes "AUTH_OK ") payload
    then auth_ok c (drop 8 payload)
    else if starts_with (codes "AUTH_FAIL") payload
    then some c
    else if starts_with (codes "COLOR ") payload
    then some (record c { assigned_color = drop 6 payload })
    else if str_eq payload (codes "SEARCHING")
    then some (record c { match_state = searching })
    else if str_eq payload (codes "SEARCH_CANCELLED")
    then some (record c { match_state = idle })
    else if starts_with (codes "MATCH_FOUND ") payload
    then match_found c (drop 12 payload)
    else if starts_with (codes "ROOM_CREATED ") payload
    then some (room_created c (drop 13 payload))
    else if starts_with (codes "ROOM_JOINED ") payload
    then some (room_joined c (drop 12 payload))
    else if starts_with (codes "ROOM_ERROR ") payload
    then some (record c { show_popup = true; popup_msg = codes "Room Error: " ++ drop 11 payload })
    else if str_eq payload (codes "MATCH_TIMEOUT")
    then some (record c { match_state = timeout; popup_msg = timeout_text; show_popup = true })
    else parse_and_update_state c payload

-- There is no result where a number cannot be read.
unfoldable pub on_message : Client → Str → Option Client
unfolding receive
on_message c payload = do c1 ← receive c payload; some (record c1 { state_updated = true })

abbrev pub send : Client → Str → Client
send c t = record c { sent = c.sent ++ t ∷ [] }

-- A space and a number.
abbrev pub spaced : ℤ → Str → Str
spaced z rest = b' ' ∷ (to_string z ++ rest)

unfoldable pub move_text : ℕ → (sr sc dr dc : ℤ) → Str
move_text seq sr sc dr dc =
    codes "MOVE" ++ spaced (pos seq) (spaced sr (spaced sc (spaced dr (spaced dc []))))

unfoldable pub jump_text : ℕ → (r c : ℤ) → Str
jump_text seq r c = codes "JUMP" ++ spaced (pos seq) (spaced r (spaced c []))

-- `++m_seq_counter` of a `uint32_t`
abbrev pub next_seq : Client → ℕ
next_seq c = (c.seq_counter + 1) % 2 ^ 32

unfoldable pub send_move : Client → (sr sc dr dc : ℤ) → Client
send_move c sr sc dr dc =
    send (record c { seq_counter = next_seq c }) (move_text (next_seq c) sr sc dr dc)

unfoldable pub send_jump : Client → (row col : ℤ) → Client
send_jump c row col = send (record c { seq_counter = next_seq c }) (jump_text (next_seq c) row col)

-- The user's name is set before the server has accepted it.
unfoldable pub send_login : Client → (username password : Str) → Client
send_login c username password =
    send (record c { username = username }) (codes "LOGIN " ++ (username ++ b' ' ∷ password))

unfoldable pub send_find_match : Client → Client
send_find_match c =
    send (record c { match_state = searching; show_popup = false }) (codes "FIND_MATCH")

unfoldable pub send_cancel_match : Client → Client
send_cancel_match c = send (record c { match_state = idle }) (codes "CANCEL_MATCH")

unfoldable pub send_create_room : Client → Str → Client
send_create_room c room_name =
    send (record c { show_popup = false }) (codes "CREATE_ROOM " ++ room_name)

unfoldable pub send_join_room : Client → Str → Client
send_join_room c room_id = send (record c { show_popup = false }) (codes "JOIN_ROOM " ++ room_id)
