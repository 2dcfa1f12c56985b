-- ===== src/Server/Matchmaking.antt =====
-- src/network/socket_server.cpp: `process_matchmaking`.
pub mod Pairs
use ctd_project.Base.{
  ℕ, ◌+◌, ◌-◌, true, false, ◌&&◌, List, [], ◌∷◌, ◌++◌, if◌then◌else◌, pos, Str, codes, to_string,
  leb,
}
use ctd_project.BoardFactory.{create_default_board}
use ctd_project.Engine.{new_engine}
use ctd_project.Server.{
  Server, ClientInfo, ClientRef, white_seat, black_seat, set_info, send, elapsed_sec,
}

-- The clients that search, in their order.
unfoldable pub searching : (ClientRef → ClientInfo) → List ClientRef → List ClientRef
searching info [] = []
searching info (c ∷ cs) =
    let rest = searching info cs in if (info c).is_searching then c ∷ rest else rest

abbrev pub elo_diff : ClientInfo → ClientInfo → ℕ
elo_diff a b = (a.elo - b.elo) + (b.elo - a.elo)

match_text : Str → ClientInfo → ClientInfo → Str
match_text color a b =
    codes "MATCH_FOUND "
    ++ color
    ++ codes " "
    ++ a.username
    ++ codes " "
    ++ to_string (pos a.elo)
    ++ codes " "
    ++ b.username
    ++ codes " "
    ++ to_string (pos b.elo)

-- Two clients are given a new game.
pub pair_up : Server → ClientRef → ClientRef → Server
unfolding match_text
pair_up s c1 c2 =
    let (h, b) = create_default_board in
    let i = record (s.info c1) { is_searching = false; in_game = true; color = white_seat } in
    let s1 = set_info s c1 i in
    let j = record (s1.info c2) { is_searching = false; in_game = true; color = black_seat } in
    let s2 : Server = record (set_info s1 c2 j) {
      game_engine = new_engine h b;
      elo_updated_for_game = false;
    } in
    let i1 = s2.info c1 in
    let i2 = s2.info c2 in
    send (send s2 i1.hdl (match_text (codes "WHITE") i1 i2)) i2.hdl
      (match_text (codes "BLACK") i1 i2)

-- The loop over `j`: the first that still searches and is close enough.
pub seek : Server → ClientRef → List ClientRef → Server
seek s c [] = s
seek s c (d ∷ ds) =
    let rest = seek s c ds in
    if (s.info d).is_searching && leb (elo_diff (s.info c) (s.info d)) 100
    then pair_up s c d
    else rest

-- The loop over `i`.
pub match_all : Server → List ClientRef → Server
match_all s [] = s
match_all s (c ∷ cs) = match_all (if (s.info c).is_searching then seek s c cs else s) cs

-- A client that has searched for a minute is told so.
unfoldable pub time_out : ℕ → Server → List ClientRef → Server
time_out now s [] = s
time_out now s (c ∷ cs) =
    let i = s.info c in
    let s' =
      send (set_info s c (record i { is_searching = false })) i.hdl (codes "MATCH_TIMEOUT") in
    time_out now (if i.is_searching && leb 60 (elapsed_sec i.search_start_time now) then s' else s)
      cs

unfoldable pub process_matchmaking : Server → ℕ → Server
process_matchmaking s now =
    let found = searching s.info s.clients in time_out now (match_all s found) found
