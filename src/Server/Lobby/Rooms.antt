-- ===== src/Server/Lobby/Rooms.antt =====
-- src/network/socket_server.cpp: the rooms after CREATE_ROOM.
use ctd_project.Base.{
  ◌≡◌, refl, Bool, true, suc, some, List, [], ◌∷◌, ◌++◌, Str, codes, str_eq_refl, to_string, pos,
  Bool-cases, inl, inr,
}
use ctd_project.Server.{Server, Room, ClientRef, Hdl, find_room, find_client}
use ctd_project.Server.Lobby.{
  has_name_or_id, erase_rooms, or_default, new_room, open_room, create_room, on_client,
  find_last_room,
}

find_room-erase_rooms :
    (test : Room → Bool) (r : Room) (rs : List Room)
    → test r ≡ true
    → find_room test (erase_rooms test rs ++ r ∷ []) ≡ some r
unfolding find_room erase_rooms
find_room-erase_rooms test r [] fits = rw fits refl
find_room-erase_rooms test r (q ∷ rs) fits = elim (Bool-cases (test q)) [
  | inl e ↦ rw e (find_room-erase_rooms test r rs fits)
  | inr e ↦ rw (e, e) (find_room-erase_rooms test r rs fits)
]

find_last_room-snoc :
    (test : Room → Bool) (r : Room) (rs : List Room)
    → test r ≡ true
    → find_last_room test (rs ++ r ∷ []) ≡ some r
unfolding find_last_room
find_last_room-snoc test r [] fits = rw fits refl
find_last_room-snoc test r (q ∷ rs) fits = rw (find_last_room-snoc test r rs fits) refl

-- After a known client has created a room, the rooms with its name are that room alone: from either
-- end of the list it is the first one that is found.
pub create_room_found :
    (s : Server) (hdl : Hdl) (room_name : Str) (c : ClientRef)
    → find_client s.info hdl s.clients ≡ some c
    → let name = or_default room_name in
      let room = new_room (codes "RM-" ++ to_string (pos (suc s.room_counter))) name c in
      let rooms' = (create_room s hdl room_name).rooms in
      (find_room (has_name_or_id name) rooms' ≡ some room)
      × (find_last_room (has_name_or_id name) rooms' ≡ some room)
unfolding create_room on_client open_room
create_room_found s hdl room_name c known =
    let name = or_default room_name in
    let room = new_room (codes "RM-" ++ to_string (pos (suc s.room_counter))) name c in
    let named : has_name_or_id name room ≡ true = rw (str_eq_refl name) refl in
    rw known (
      find_room-erase_rooms (has_name_or_id name) room s.rooms named,
      find_last_room-snoc (has_name_or_id name) room (erase_rooms (has_name_or_id name) s.rooms)
          named,
    )
