-- ===== src/Server/Loop/Forfeits.antt =====
-- src/network/socket_server.cpp: the game of a player who does not come back.
use ctd_project.Base.{
  ◌⊎◌, inl, inr, ◌≡◌, refl, ap, sym, ◌||◌, str_eq, ◌∙◌, Bool, true, not, ◌&&◌, Option, none, some,
  ℕ, ◌+◌, ◌≤◌, leb, ◌∷◌, ◌++◌, if_cases, [], Str, arith,
}
use ctd_project.GameState.{is_game_over, set_game_over}
use ctd_project.Engine.{GameEngine, update}
use ctd_project.Users.{Rate}
use ctd_project.Server.{
  Server, Room, ClientRef, elapsed_sec, find_room, update_room, has_id, quiet, sounds_of,
}
use ctd_project.Server.Play.{broadcast_room_state, put_engine, put_in_room}
use ctd_project.Server.Loop.{
  forfeit, settle_room, settle_seats, after_update, broadcast_again, room_round,
}
use ctd_project.Server.Loop.Once.{find_room-update_room, settle_room-settle_room}

waited : (start now : ℕ) → start + 20000 ≤ now → leb 20 (elapsed_sec start now) ≡ true
waited start now h = ground arith

-- A seat of the room is empty, and the player has been away for at least 20 seconds.
pub record IsForfeited (now : ℕ) (r : Room) : Type 0 where
  pub empty : (r.white_player ≡ none) ⊎ (r.black_player ≡ none)
  pub away : r.is_disconnected ≡ true
  pub since : r.disconnect_start_time + 20000 ≤ now

forfeit-is_game_over :
    (now : ℕ) (r : Room) → IsForfeited now r → is_game_over (forfeit now r).game_engine.world ≡ true
unfolding forfeit set_game_over
forfeit-is_game_over now r f = ground (arith, f.away, waited r.disconnect_start_time now f.since)

forfeit_empty :
    (now : ℕ) (r : Room)
    → (r.white_player ≡ none) ⊎ (r.black_player ≡ none)
    → ((forfeit now r).white_player ≡ none) ⊎ ((forfeit now r).black_player ≡ none)
unfolding forfeit
forfeit_empty now r e = ground (arith, e)

forfeit-id : (now : ℕ) (r : Room) → (forfeit now r).id ≡ r.id
unfolding forfeit
forfeit-id now r = ground arith

settle_seats-none :
    (rate : Rate) (s : Server) (won : Bool) (white black : Option ClientRef)
    → (white ≡ none) ⊎ (black ≡ none)
    → settle_seats rate s won white black ≡ s
unfolding settle_seats
settle_seats-none rate s won none black e = refl
settle_seats-none rate s won (some c) none e = refl
settle_seats-none rate s won (some c) (some d) (inl e) = absurd (cc e)
settle_seats-none rate s won (some c) (some d) (inr e) = absurd (cc e)

settle_room-users :
    (rate : Rate) (s : Server) (r : Room)
    → (r.white_player ≡ none) ⊎ (r.black_player ≡ none)
    → (settle_room rate s r).users ≡ s.users
unfolding settle_room
settle_room-users rate s r e =
    if_cases (λ (x : Server). x.users ≡ s.users)
      (is_game_over r.game_engine.world && not r.elo_updated)
      (λ due.
        ap (λ (t : Server). t.users) (settle_seats-none rate _ _ r.white_player r.black_player e))
      (λ due. refl)

-- The room of an id, with a property.
abbrev pub Has : Server → Str → (Room → Type 0) → Type 0
Has s id P = (r : Room) × (find_room (has_id id) s.rooms ≡ some r) × (r.id ≡ id) × P r

abbrev pub IsOver : Room → Type 0
IsOver r = is_game_over r.game_engine.world ≡ true

-- The engine of a room moves on; its seats and its waiting stay as they are.
put_engine-Has :
    (now : ℕ) (s : Server) (id : Str) (g : GameEngine)
    → Has s id (IsForfeited now)
    → Has (put_engine s id g) id (IsForfeited now) × ((put_engine s id g).users ≡ s.users)
unfolding put_engine put_in_room
put_engine-Has now s [] g h = (h, refl)
put_engine-Has now s (a ∷ id) g (r, found, named, f) =
    let change : Room → Room = λ q. record q {
      game_engine = quiet g;
      pending_sounds = q.pending_sounds ++ sounds_of g.world.events;
    } in
    rw found (
      (
        change r,
        find_room-update_room (has_id (a ∷ id)) change s.rooms r found (λ q. refl),
        named,
        record { empty = f.empty; away = f.away; since = f.since },
      ),
      refl,
    )

broadcast_again-Has :
    (s : Server) (id : Str)
    → Has s id IsOver
    → let s' = broadcast_again s (find_room (has_id id) s.rooms) in
      Has s' id IsOver × (s'.users ≡ s.users)
unfolding broadcast_again broadcast_room_state
broadcast_again-Has s id (r, found, named, over) =
    let cleared : Room → Room = λ q. record q { pending_sounds = [] } in
    rw found (
      (
        cleared r,
        ap (λ i. find_room (has_id id) (update_room (has_id i) cleared s.rooms)) named
            ∙ find_room-update_room (has_id id) cleared s.rooms r found (λ q. refl),
        named,
        over,
      ),
      refl,
    )

settle_room-Has :
    (rate : Rate) (s : Server) (id : Str) (r : Room)
    → find_room (has_id id) s.rooms ≡ some r
    → r.id ≡ id
    → IsOver r
    → Has (settle_room rate s r) id IsOver
settle_room-Has rate s id r found named over =
    let again =
      settle_room-settle_room rate s r (ap (λ i. find_room (has_id i) s.rooms) named ∙ found) in
    (
      record r { elo_updated = is_game_over r.game_engine.world || r.elo_updated },
      ap (λ i. find_room (has_id i) (settle_room rate s r).rooms) (sym named) ∙ again.0,
      named,
      over,
    )

after_update-Has :
    (rate : Rate) (now : ℕ) (s : Server) (id : Str)
    → Has s id (IsForfeited now)
    → let s' = after_update rate now s id (find_room (has_id id) s.rooms) in
      Has s' id IsOver × (s'.users ≡ s.users)
unfolding after_update
after_update-Has rate now s id (r, found, named, f) =
    let s1 : Server = record s { rooms = update_room (has_id id) (forfeit now) s.rooms } in
    let at : find_room (has_id id) s1.rooms ≡ some (forfeit now r) =
      find_room-update_room (has_id id) (forfeit now) s.rooms r found
        (λ q. ap (λ i. str_eq i id) (forfeit-id now q)) in
    let settled =
      settle_room-Has rate s1 id (forfeit now r) at (forfeit-id now r ∙ named)
        (forfeit-is_game_over now r f) in
    let sent = broadcast_again-Has (settle_room rate s1 (forfeit now r)) id settled in
    rw found
      (sent.0, sent.1 ∙ settle_room-users rate s1 (forfeit now r) (forfeit_empty now r f.empty))

-- When a seat of a room is empty and the player who has left has been away for 20 seconds, a
-- round of the loop for that room ends its game, if it was not over; but no account changes, neither
-- that of the player who has stayed nor that of the one who has left.
pub room_round-forfeit :
    (rate : Rate) (now : ℕ) (s : Server) (r : Room)
    → find_room (has_id r.id) s.rooms ≡ some r
    → IsForfeited now r
    → let s' = room_round rate now s r.id (some r) in Has s' r.id IsOver × (s'.users ≡ s.users)
unfolding room_round
room_round-forfeit rate now s r found f =
    let (moved, same) =
      put_engine-Has now s r.id (update (quiet r.game_engine) 30) (r, found, refl, f) in
    let (over, kept) =
      after_update-Has rate now (put_engine s r.id (update (quiet r.game_engine) 30)) r.id moved in
    (over, kept ∙ same)
