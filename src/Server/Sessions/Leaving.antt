-- ===== src/Server/Sessions/Leaving.antt =====
-- src/network/socket_server.cpp: what a closed connection leaves behind in its room.
use ctd_project.Base.{
  ◌≡◌, refl, Bool, false, not, ◌&&◌, ◌||◌, ℕ, Option, none, some, arith, is_some, Str, Bool-cases,
  inl, inr,
}
use ctd_project.GameState.{is_game_over, set_game_over}
use ctd_project.Server.{Server, Room, ClientRef, ClientInfo, Hdl, is_same_connection}
use ctd_project.Server.Sessions.{is_seat_of, vacate, leave_room}

-- Two players are seated, or one, or none.
abbrev pub one_left : Room → Bool
one_left r = is_some r.white_player || is_some r.black_player

module _ (info : ClientRef → ClientInfo) (hdl : Hdl) where
  vacate-is_seat_of :
      (seat : Option ClientRef)
      → is_seat_of info hdl (vacate (is_seat_of info hdl seat) seat) ≡ false
  unfolding is_seat_of
  vacate-is_seat_of none = refl
  vacate-is_seat_of (some p) = elim (Bool-cases (is_same_connection (info p).hdl hdl)) [
    | inl e ↦ rw e refl
    | inr e ↦ rw (e, e)
  ]

-- Neither seat of the room belongs to the connection afterwards. The game is over exactly if it was
-- over before or nobody is left. The room waits for a player exactly if somebody is left and either the
-- connection had a seat while the game was running, or the room was waiting before.
pub leave_room_lem :
    (info : ClientRef → ClientInfo) (hdl : Hdl) (username : Str) (now : ℕ) (r : Room)
    → let r' = leave_room info hdl username now r in
      (is_seat_of info hdl r'.white_player ≡ false)
      × (is_seat_of info hdl r'.black_player ≡ false)
      × (is_game_over r'.game_engine.world
          ≡ (is_game_over r.game_engine.world || not (one_left r')))
      × (r'.is_disconnected ≡ (
          one_left r'
          && (((is_seat_of info hdl r.white_player || is_seat_of info hdl r.black_player)
                && not (is_game_over r.game_engine.world))
              || r.is_disconnected)))
unfolding leave_room set_game_over
leave_room_lem info hdl username now r =
    let w = vacate-is_seat_of info hdl r.white_player in
    let b = vacate-is_seat_of info hdl r.black_player in
    (ground (arith, w), ground (arith, b), ground arith, ground arith)
