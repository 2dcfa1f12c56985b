-- ===== src/Client/Updating.antt =====
-- src/network/socket_client.cpp: `parse_sounds`, `parse_pieces`, `parse_motions`, `parse_jumps` and
-- `parse_and_update_state`.
pub mod Placing
use ctd_project.Base.{
  Bool, true, false, ◌&&◌, ◌||◌, not, Option, none, some, List, [], ◌∷◌, ◌++◌, ◌>>=◌, ◌==◌,
  if◌then◌else◌, ltb, Str, codes, str_eq,
}
use ctd_project.Piece.{Ref, Heap, make_shared}
use ctd_project.Board.{Board, new_board, add_piece}
use ctd_project.MessageBus.{sound}
use ctd_project.Motion.{Motion, Jump, Cooldown}
use ctd_project.GameState.{
  World, new_game_state, emit, set_white_score, set_black_score, set_game_over,
}
use ctd_project.Server.{is_empty}
use ctd_project.Client.{Client, is_positive}
use ctd_project.Client.Reading.{
  PieceEntry, CooldownEntry, MotionEntry, JumpEntry, StateFields, read_fields, sound_names,
  piece_entries, motion_entries, jump_entries,
}
use ctd_project.Client.Merging.{
  any_motion, any_jump, king_capture, final_motions, final_jumps, kept_cooldowns, final_cooldowns,
}

-- The sounds that end a game wait until the king is captured on the screen.
hear : Client → Str → Client
hear c name =
    let ends = str_eq name (codes "game_win") || str_eq name (codes "game_over") in
    if is_empty name
    then c
    else if ends && king_capture c.world.heap c.arbiter.active_motions
    then record c { delayed_sounds = c.delayed_sounds ++ name ∷ [] }
    else record c { world = emit c.world (sound name) }

hear_all : Client → List Str → Client
unfolding hear
hear_all c [] = c
hear_all c (name ∷ names) = hear_all (hear c name) names

unfoldable pub parse_sounds : Client → Str → Client
unfolding hear_all
parse_sounds c s = hear_all c (sound_names s)

-- `operator<` of `std::string`
unfoldable pub str_lt : Str → Str → Bool
str_lt [] [] = false
str_lt [] (d ∷ t) = true
str_lt (c ∷ s) [] = false
str_lt (c ∷ s) (d ∷ t) = ltb c d || ((c == d) && str_lt s t)

-- `parsed_pieces`, a `std::map`: ordered by the ids.
abbrev pub PieceMap : Type 0
PieceMap = List (Str × Ref)

unfoldable pub put : Str → Ref → PieceMap → PieceMap
put id r [] = (id, r) ∷ []
put id r ((id', r') ∷ rest) =
    let later = put id r rest in
    if str_eq id id'
    then (id', r) ∷ rest
    else if str_lt id id'
    then (id, r) ∷ (id', r') ∷ rest
    else (id', r') ∷ later

unfoldable pub lookup : Str → PieceMap → Option Ref
lookup id [] = none
lookup id ((id', r) ∷ rest) = if str_eq id id' then some r else lookup id rest

pub record Parsed : Type 0 where
  pub heap : Heap
  pub pieces : PieceMap
  pub cds : List Cooldown

cooldown_entry : Ref → Option CooldownEntry → List Cooldown
cooldown_entry r none = []
cooldown_entry r (some c) =
    record {
      piece = some r;
      remaining_ms = c.remaining;
      total_ms = c.total;
      is_long_rest = c.is_long_rest;
    }
    ∷ []

add_entry : Parsed → PieceEntry → Parsed
unfolding cooldown_entry
add_entry p e = record {
  heap = make_shared p.heap e.piece;
  pieces = put e.piece.id p.heap.next p.pieces;
  cds = p.cds ++ cooldown_entry p.heap.next e.cooldown;
}

unfoldable pub parse_pieces : Parsed → List PieceEntry → Parsed
unfolding add_entry
parse_pieces p [] = p
parse_pieces p (e ∷ es) = parse_pieces (add_entry p e) es

-- A motion of an unknown piece is passed over.
add_motion : PieceMap → MotionEntry → Option Ref → List Motion → List Motion
add_motion pieces e none rest = rest
add_motion pieces e (some attacker) rest =
    record {
      piece = some attacker;
      source = e.source;
      dest = e.dest;
      remaining_ms = e.remaining_ms;
      total_ms = e.total_ms;
      captured_piece = if is_empty e.victim_id then none else lookup e.victim_id pieces;
    }
    ∷ rest

unfoldable pub parse_motions : PieceMap → List MotionEntry → List Motion
unfolding add_motion
parse_motions pieces [] = []
parse_motions pieces (e ∷ es) =
    add_motion pieces e (lookup e.piece_id pieces) (parse_motions pieces es)

-- `Jump{piece, pos, total_ms, remaining_ms}`: the first number initialises `remaining_ms`, the second
-- `total_ms`.
add_jump : JumpEntry → Option Ref → List Jump → List Jump
add_jump e none rest = rest
add_jump e (some piece) rest =
    record {
      piece = some piece;
      spot = e.spot;
      remaining_ms = e.total_ms;
      total_ms = e.remaining_ms;
    }
    ∷ rest

unfoldable pub parse_jumps : PieceMap → List JumpEntry → List Jump
unfolding add_jump
parse_jumps pieces [] = []
parse_jumps pieces (e ∷ es) = add_jump e (lookup e.piece_id pieces) (parse_jumps pieces es)

-- The pieces that are neither under way nor in the air are put on the board, in the order of the ids.
unfoldable pub place_pieces : Heap → List Motion → List Jump → PieceMap → Board → Board
place_pieces h ms js [] b = b
place_pieces h ms js ((id, r) ∷ rest) b =
    let is_in_flight = any_motion h (some r) ms || any_jump h (some r) js in
    place_pieces h ms js rest (if is_in_flight then b else (add_piece h b (some r)).0)

-- The fields of the state, where they name something.
unfoldable pub take_fields : Client → StateFields → Client
take_fields c f = record c {
  white_user =
      if not (is_empty f.w_user) && not (str_eq f.w_user (codes "White"))
      then f.w_user
      else c.white_user;
  white_elo = if is_positive f.w_elo then f.w_elo else c.white_elo;
  black_user =
      if not (is_empty f.b_user) && not (str_eq f.b_user (codes "Black"))
      then f.b_user
      else c.black_user;
  black_elo = if is_positive f.b_elo then f.b_elo else c.black_elo;
  room_id = if not (is_empty f.r_id) then f.r_id else c.room_id;
  room_name = if not (is_empty f.r_name) then f.r_name else c.room_name;
}

-- The new game state, on the new board.
unfoldable pub new_world : World → Heap → Board → StateFields → Bool → World
new_world w h b f over =
    let fresh : World = record {
      heap = h;
      board = b;
      game = new_game_state h b;
      events = w.events;
    } in
    set_game_over (set_black_score (set_white_score fresh f.white_score) f.black_score) over

unfoldable pub update_state :
    Client → StateFields → List PieceEntry → List MotionEntry → List JumpEntry → Client
unfolding new_world
update_state c f piece_list motion_list jump_list =
    let parsed = parse_pieces (record { heap = c.world.heap; pieces = []; cds = [] }) piece_list in
    let h = parsed.heap in
    let motions = parse_motions parsed.pieces motion_list in
    let jumps = parse_jumps parsed.pieces jump_list in
    let board = place_pieces h motions jumps parsed.pieces (new_board 8 8) in
    let over = f.game_over && not (king_capture h c.arbiter.active_motions) in
    let moved = final_motions h c.arbiter.active_motions motions in
    record c {
      world = new_world c.world h board f over;
      server_game_over = f.game_over;
      disconnect_user = f.disc_user;
      disconnect_countdown = f.disc_cd;
      arbiter = record {
        active_motions = moved;
        active_jumps = final_jumps h c.arbiter.active_jumps jumps;
        active_cooldowns =
            final_cooldowns h moved (kept_cooldowns h board c.arbiter.active_cooldowns) parsed.cds;
      };
    }

unfoldable pub parse_and_update_state : Client → Str → Option Client
parse_and_update_state c s = do
  fields ← read_fields s
  piece_list ← piece_entries s
  motion_list ← motion_entries s
  jump_list ← jump_entries s
  some
      (update_state (parse_sounds (take_fields c fields) s) fields piece_list motion_list jump_list)
