-- ===== src/Server/Play/Numbers.antt =====
-- src/network/socket_server.cpp: the numbers of the commands.
use ctd_project.Base.{
  ◌≡◌, refl, sym, ap, ◌∙◌, Bool, true, false, ◌&&◌, not, List, [], ◌∷◌, arith, if_cases, Option,
  some, none, ℤ, int_leb, Str,
}
use ctd_project.Piece.{Position}
use ctd_project.Board.{get_piece_at}
use ctd_project.Engine.{GameEngine, request_move, request_jump}
use ctd_project.Server.{
  Server, Room, ClientRef, ClientInfo, Hdl, set_info, find_client, find_room, has_id, quiet,
  is_empty,
}
use ctd_project.Server.Play.{
  move, jump, owns, numbered, command, on_piece, broadcast_move, broadcast_found,
  broadcast_room_state, put_engine, put_in_room, target_engine,
}

-- The clients and what is known of them stay as they are.
record SameClients (s s' : Server) : Type 0 where
  info : s'.info ≡ s.info
  clients : s'.clients ≡ s.clients

same_refl : (s : Server) → SameClients s s
same_refl s = record { info = refl; clients = refl }

same_trans : {s t u : Server} → SameClients s t → SameClients t u → SameClients s u
same_trans f g = record { info = g.info ∙ f.info; clients = g.clients ∙ f.clients }

put_in_room-SameClients :
    (s : Server) (id : Str) (g : GameEngine) (o : Option Room)
    → SameClients s (put_in_room s id g o)
unfolding put_in_room
put_in_room-SameClients s id g none = record { info = refl; clients = refl }
put_in_room-SameClients s id g (some r) = record { info = refl; clients = refl }

put_engine-SameClients :
    (s : Server) (id : Str) (g : GameEngine) → SameClients s (put_engine s id g)
unfolding put_engine
put_engine-SameClients s [] g = record { info = refl; clients = refl }
put_engine-SameClients s (a ∷ id) g = put_in_room-SameClients s (a ∷ id) g _

on_piece-SameClients :
    (request : GameEngine → GameEngine) (at : Position) (s : Server) (i : ClientInfo)
    (g : GameEngine)
    → SameClients s (on_piece request at s i g)
unfolding on_piece
on_piece-SameClients request at s i g =
    if_cases (SameClients s) (not i.is_viewer && owns g i.color (get_piece_at g.world.board at))
      (λ _. put_engine-SameClients s i.room_id (request (quiet g))) (λ _. same_refl s)

broadcast_found-SameClients : (s : Server) (o : Option Room) → SameClients s (broadcast_found s o)
unfolding broadcast_found broadcast_room_state
broadcast_found-SameClients s none = same_refl s
broadcast_found-SameClients s (some r) = record { info = refl; clients = refl }

broadcast_move-SameClients :
    (at : Position) (i : ClientInfo) (g : GameEngine) (s : Server)
    → SameClients s (broadcast_move at i g s)
unfolding broadcast_move
broadcast_move-SameClients at i g s =
    if_cases (SameClients s)
      (not i.is_viewer
        && owns g i.color (get_piece_at g.world.board at)
        && not (is_empty i.room_id))
      (λ _. broadcast_found-SameClients s (find_room (has_id i.room_id) s.rooms)) (λ _. same_refl s)

command-SameClients :
    (request : GameEngine → GameEngine) (broadcasts : Bool) (at : Position) (s : Server)
    (i : ClientInfo) (o : Option GameEngine)
    → SameClients s (command request broadcasts at s i o)
unfolding command
command-SameClients request broadcasts at s i none = same_refl s
command-SameClients request true at s i (some g) =
    same_trans (on_piece-SameClients request at s i g) (broadcast_move-SameClients at i g _)
command-SameClients request false at s i (some g) = on_piece-SameClients request at s i g

-- A change of a client that keeps its connection does not change who is found.
find_client-set_info :
    (s : Server) (c : ClientRef) (n : ℤ) (h : Hdl) (cs : List ClientRef)
    → find_client (set_info s c (record (s.info c) { last_seq = n })).info h cs
      ≡ find_client s.info h cs
unfolding find_client
find_client-set_info s c n h [] = refl
find_client-set_info s c n h (d ∷ cs) = ground (arith, find_client-set_info s c n h cs)

int_leb_refl : (n : ℤ) → int_leb n n ≡ true
int_leb_refl n = ground arith

numbered_stale :
    (request : GameEngine → GameEngine) (broadcasts : Bool) (at : Position) (seq : ℤ) (s : Server)
    (o : Option ClientRef)
    → ((c : ClientRef) → o ≡ some c → int_leb seq (s.info c).last_seq ≡ true)
    → numbered request broadcasts at seq s o ≡ s
unfolding numbered
numbered_stale request broadcasts at seq s none stale = refl
numbered_stale request broadcasts at seq s (some c) stale = rw (stale c refl) refl

-- After a command: the clients are the same, found by the same connections, and the sender has at
-- least the number of the command.
record Taken (seq : ℤ) (o : Option ClientRef) (s s' : Server) : Type 0 where
  clients : s'.clients ≡ s.clients
  found : (h : Hdl) (cs : List ClientRef) → find_client s'.info h cs ≡ find_client s.info h cs
  number : (c : ClientRef) → o ≡ some c → int_leb seq (s'.info c).last_seq ≡ true

after_command :
    (request : GameEngine → GameEngine) (broadcasts : Bool) (at : Position) (seq : ℤ) (s : Server)
    (c : ClientRef)
    → let i = record (s.info c) { last_seq = seq } in
      Taken seq
        (some c)
        s
        (command request broadcasts at (set_info s c i) i (target_engine s i.room_id))
after_command request broadcasts at seq s c =
    let i = record (s.info c) { last_seq = seq } in
    let same =
      command-SameClients request broadcasts at (set_info s c i) i (target_engine s i.room_id) in
    record {
      clients = same.clients;
      found = λ h cs.
          ap (λ (f : ClientRef → ClientInfo). find_client f h cs) same.info
          ∙ find_client-set_info s c seq h cs;
      number = λ d e.
          ap (λ (f : ClientRef → ClientInfo). int_leb seq (f d).last_seq) same.info
          ∙ ground (arith, int_leb_refl seq);
    }

numbered-Taken :
    (request : GameEngine → GameEngine) (broadcasts : Bool) (at : Position) (seq : ℤ) (s : Server)
    (o : Option ClientRef)
    → Taken seq o s (numbered request broadcasts at seq s o)
unfolding numbered
numbered-Taken request broadcasts at seq s none = record {
  clients = refl;
  found = λ h cs. refl;
  number = λ c e. cc;
}
numbered-Taken request broadcasts at seq s (some c) =
    if_cases (Taken seq (some c) s) (int_leb seq (s.info c).last_seq)
      (λ stale. record {
        clients = refl;
        found = λ h cs. refl;
        number = λ d e. ground (arith, stale);
      })
      (λ _. after_command request broadcasts at seq s c)

-- The two commands that carry a number.
pub data Numbered : Type 0 where
  moves : (src dest : Position) → Numbered
  jumps : (at : Position) → Numbered

abbrev pub obeyed : Server → Hdl → ℤ → Numbered → Server
obeyed s hdl seq (moves src dest) = move s hdl seq src dest
obeyed s hdl seq (jumps at) = jump s hdl seq at

obeyed-Taken :
    (s : Server) (hdl : Hdl) (seq : ℤ) (c : Numbered)
    → Taken seq (find_client s.info hdl s.clients) s (obeyed s hdl seq c)
unfolding move jump
obeyed-Taken s hdl seq (moves src dest) =
    numbered-Taken (λ g. request_move g src dest) true src seq s _
obeyed-Taken s hdl seq (jumps at) = numbered-Taken (λ g. request_jump g at) false at seq s _

obeyed_stale :
    (s : Server) (hdl : Hdl) (seq : ℤ) (c : Numbered)
    → ((d : ClientRef)
        → find_client s.info hdl s.clients ≡ some d
        → int_leb seq (s.info d).last_seq ≡ true)
    → obeyed s hdl seq c ≡ s
unfolding move jump
obeyed_stale s hdl seq (moves src dest) stale =
    numbered_stale (λ g. request_move g src dest) true src seq s _ stale
obeyed_stale s hdl seq (jumps at) stale =
    numbered_stale (λ g. request_jump g at) false at seq s _ stale

int_leb_trans : (a b c : ℤ) → int_leb a b ≡ true → int_leb b c ≡ true → int_leb a c ≡ true
int_leb_trans a b c p q = ground arith

-- After a MOVE or a JUMP, a MOVE or a JUMP from the same connection that comes directly after it, with
-- the same number or a smaller one, has no effect.
pub obeyed-obeyed :
    (s : Server) (hdl : Hdl) (seq seq' : ℤ) (c c' : Numbered)
    → int_leb seq' seq ≡ true
    → obeyed (obeyed s hdl seq c) hdl seq' c' ≡ obeyed s hdl seq c
obeyed-obeyed s hdl seq seq' c c' le =
    let taken = obeyed-Taken s hdl seq c in
    let s1 = obeyed s hdl seq c in
    obeyed_stale s1 hdl seq' c' (λ d e. int_leb_trans seq' seq (s1.info d).last_seq le (
      taken.number d
        (sym (ap (find_client s.info hdl) taken.clients) ∙ sym (taken.found hdl s1.clients) ∙ e)))
