-- ===== src/Server/Loop/Once.antt =====
-- src/network/socket_server.cpp: the ratings change at most once for the game of a room.
use ctd_project.Base.{
  ◌≡◌, refl, ap, ◌∙◌, Bool, true, false, not, ◌&&◌, ◌||◌, Option, none, some, List, [], ◌∷◌,
  if_cases, arith,
}
use ctd_project.GameState.{is_game_over}
use ctd_project.Users.{Rate}
use ctd_project.Server.{Server, Room, ClientRef, find_room, update_room, has_id}
use ctd_project.Server.Loop.{settle_seats, settle_game, refresh, settle_room, room_won}

pub find_room-update_room :
    (test : Room → Bool) (f : Room → Room) (rs : List Room) (r : Room)
    → find_room test rs ≡ some r
    → ((q : Room) → test (f q) ≡ test q)
    → find_room test (update_room test f rs) ≡ some (f r)
unfolding find_room update_room
find_room-update_room test f [] r found keeps = cc
find_room-update_room test f (q ∷ rs) r found keeps =
    ground (arith, keeps q, find_room-update_room test f rs r)

settle_seats_rooms :
    (rate : Rate) (s : Server) (won : Bool) (o p : Option ClientRef)
    → (settle_seats rate s won o p).rooms ≡ s.rooms
unfolding settle_seats settle_game refresh
settle_seats_rooms rate s won (some w) (some b) = refl
settle_seats_rooms rate s won (some w) none = refl
settle_seats_rooms rate s won none p = refl

settled : (over done : Bool) → (over && not (over || done)) ≡ false
settled over done = ground arith

due_marked : (over done : Bool) → (over && not done) ≡ true → true ≡ (over || done)
due_marked over done e = ground (arith, e)

kept_mark : (over done : Bool) → (over && not done) ≡ false → done ≡ (over || done)
kept_mark over done e = ground (arith, e)

-- Once the loop has settled a room that it found by its id, the room is marked as settled exactly
-- if its game is over or it was marked before, and settling it again changes nothing.
pub settle_room-settle_room :
    (rate : Rate) (s : Server) (r : Room)
    → find_room (has_id r.id) s.rooms ≡ some r
    → let s' = settle_room rate s r in
      let r' = record r { elo_updated = is_game_over r.game_engine.world || r.elo_updated } in
      (find_room (has_id r.id) s'.rooms ≡ some r') × (settle_room rate s' r' ≡ s')
unfolding settle_room
settle_room-settle_room rate s r found =
    let over = is_game_over r.game_engine.world in
    let marked : Bool → Room = λ b. record r { elo_updated = b } in
    let s1 : Server = record s {
      rooms = update_room (has_id r.id) (λ q. record q { elo_updated = true }) s.rooms;
    } in
    let due = over && not r.elo_updated in
    let r' = marked (over || r.elo_updated) in
    (
      if_cases (λ (t : Server). find_room (has_id r.id) t.rooms ≡ some r') due
          (λ e.
            ap (find_room (has_id r.id))
              (settle_seats_rooms rate s1 (room_won s1 r) r.white_player r.black_player)
            ∙ find_room-update_room (has_id r.id) (λ q. record q { elo_updated = true }) s.rooms r
                found (λ q. refl)
            ∙ ap (λ b. some (marked b)) (due_marked over r.elo_updated e))
          (λ e. found ∙ ap (λ b. some (marked b)) (kept_mark over r.elo_updated e)),
      if_cases (λ t. t ≡ settle_room rate s r) (over && not (over || r.elo_updated))
          (λ e. absurd (cc (e, settled over r.elo_updated))) (λ _. refl),
    )
