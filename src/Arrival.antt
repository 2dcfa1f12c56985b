-- ===== src/Arrival.antt =====
-- src/realtime/real_time_arbiter.cpp: the body of the loop of `advance_time`, the end of one motion
-- or one jump.
pub mod Keeping
pub mod Outcomes
pub mod Captures
use ctd_project.Base.{
  ℕ, ◌+◌, ◌-◌, Bool, true, false, not, ◌&&◌, ◌||◌, Option, none, some, List, [], ◌∷◌, ◌++◌, leb,
  ltb, ◌==◌, if◌then◌else◌, pos, ◌-ℤ◌, int_eq, Str, codes, str_eq, to_string,
}
use ctd_project.Piece.{
  Position, pos_eq, PieceKind, king, queen, rook, bishop, knight, pawn, PieceColor, is_white,
  is_king, is_pawn, is_captured, idle, captured, Ref, Heap, Piece, set_state, set_cell, set_kind,
}
use ctd_project.Board.{Board, get_height, get_piece_at, add_piece, remove_piece}
use ctd_project.MessageBus.{log, sound, status}
use ctd_project.Motion.{Motion, Jump, Cooldown, RealTimeArbiter}
use ctd_project.GameState.{World, emit, set_game_over, add_to_white_score, add_to_black_score}
use ctd_project.Rules.{same_color}

unfoldable pub get_piece_value : PieceKind → ℕ
get_piece_value pawn = 1
get_piece_value knight = 3
get_piece_value bishop = 3
get_piece_value rook = 5
get_piece_value queen = 9
get_piece_value king = 10

-- What the loop over the events changes.
pub record Sweep : Type 0 where
  pub world : World
  pub cooldowns : List Cooldown
  pub handled_motions : List Bool
  pub handled_jumps : List Bool

-- `active_cooldowns.push_back(Cooldown{piece, 3000, 3000, is_long_rest})`
abbrev pub rest : Ref → Bool → Cooldown
rest r is_long_rest = record {
  piece = some r;
  remaining_ms = 3000;
  total_ms = 3000;
  is_long_rest = is_long_rest;
}

abbrev pub cell_text : Position → Str
cell_text p = codes "(" ++ to_string p.row ++ codes "," ++ to_string p.col ++ codes ")"

-- `piece->cell = cell; board->add_piece(piece)`
pub put_down : World → Ref → Position → World
put_down w r cell =
    let h = set_cell w.heap r cell in
    record w { heap = h; board = (add_piece h w.board (some r)).0 }

-- `piece->state = IDLE`, and the cooldown.
pub come_to_rest : Sweep → Ref → Bool → Sweep
come_to_rest s r is_long_rest = record s {
  world = record (s.world) { heap = set_state (s.world).heap r idle };
  cooldowns = s.cooldowns ++ rest r is_long_rest ∷ [];
}

-- Publishes on behalf of the loop.
abbrev pub say : (World → World) → Sweep → Sweep
say f s = record s { world = f s.world }

-- The points for a piece of kind `k` go to the side `c`, if there is a game state to keep them.
pub award : (tracked : Bool) → PieceColor → PieceKind → World → World
award tracked c k w =
    if tracked
    then if is_white c
      then add_to_white_score w (get_piece_value k)
      else add_to_black_score w (get_piece_value k)
    else w

land_piece : Sweep → Ref → Position → Sweep
land_piece s r spot =
    let text = (s.world.heap.piece r).id ++ codes " landed at " ++ cell_text spot in
    say (λ w. emit w (log text)) (come_to_rest s r true)

is_ref : Ref → Option Ref → Bool
is_ref r none = false
is_ref r (some q) = q == r

pub land_jump : Sweep → Position → Option Ref → Sweep
unfolding land_piece is_ref
land_jump s spot none = s
land_jump s spot (some r) =
    if is_ref r (get_piece_at s.world.board spot) then land_piece s r spot else s

has_id : Heap → Str → Option Ref → Bool
has_id h id none = false
has_id h id (some r) = str_eq (h.piece r).id id

-- Whether a motion that is not handled yet belongs to the piece with this id.
unfoldable pub is_escaping : Heap → Str → List Bool → List Motion → Bool
unfolding has_id
is_escaping h id (done ∷ handled) (m ∷ ms) =
    (not done && has_id h id m.piece) || is_escaping h id handled ms
is_escaping h id [] ms = false
is_escaping h id (done ∷ handled) [] = false

pub still_there : Heap → List Bool → List Motion → Option Ref → Option Ref
still_there h handled ms none = none
still_there h handled ms (some r) = if is_escaping h (h.piece r).id handled ms then none else some r

-- The first jump over `dest` that has not ended before `arrival`.
unfoldable pub jumper_at : ℕ → ℕ → Position → List Jump → Option Ref
jumper_at ms arrival dest [] = none
jumper_at ms arrival dest (j ∷ js) =
    let later = jumper_at ms arrival dest js in
    if pos_eq j.spot dest && not (leb j.remaining_ms ms && ltb j.remaining_ms arrival)
    then j.piece
    else later

-- The piece returns to where it came from.
pub block : Str → Ref → Position → Sweep → Sweep
block text r src s =
    let id = (s.world.heap.piece r).id in
    say
      (λ w.
        emit (emit w (sound (codes "block")))
          (log (text ++ id ++ codes " stuck at " ++ cell_text src)))
      (come_to_rest (say (λ w. put_down w r src) s) r false)

-- The piece in the air takes the piece that arrives below it.
pub capture_below : Bool → Ref → Ref → Position → Sweep → Sweep
capture_below tracked jumper r dest s =
    let p = s.world.heap.piece r in
    let j = s.world.heap.piece jumper in
    let text =
      codes "Mid-air capture. Jumping "
      ++ j.id
      ++ codes " captured "
      ++ p.id
      ++ codes " at "
      ++ cell_text dest in
    say
      (λ w. award tracked j.color p.kind (
        emit (emit (record w { heap = set_state w.heap r captured }) (sound (codes "capture")))
          (log text)))
      s

-- A pawn that has reached the last row of its side becomes a queen.
is_promoted : Piece → Board → Position → Bool
is_promoted p b dest =
    is_pawn p.kind
    && ((is_white p.color && int_eq dest.row (pos 0))
        || (not (is_white p.color) && int_eq dest.row (pos (get_height b) -ℤ pos 1)))

pub promote : (loud : Bool) → Ref → Position → World → World
unfolding is_promoted
promote loud r dest w =
    let crowned = record w { heap = set_kind w.heap r queen } in
    if is_promoted (w.heap.piece r) w.board dest
    then if loud then emit crowned (sound (codes "coronation")) else crowned
    else w

pub end_game : Bool → World → World
end_game tracked w =
    emit (emit (if tracked then set_game_over w true else w) (status (codes "game_over")))
      (sound (codes "game_win"))

-- What follows the capture of `v` by `p`: the end of the game, the points, the promotion.
pub after_capture : Bool → (p v : Piece) → Ref → Position → World → World
after_capture tracked p v r dest w =
    promote true r dest
      (award tracked p.color v.kind (if is_king v.kind then end_game tracked w else w))

-- The piece takes what stands at its destination.
pub capture : Bool → Ref → Ref → Position → Sweep → Sweep
capture tracked victim r dest s =
    let (h, b) = remove_piece s.world.heap s.world.board dest in
    let p = h.piece r in
    let v = h.piece victim in
    let text = p.id ++ codes " captured " ++ v.id ++ codes " at " ++ cell_text dest in
    let placed =
      come_to_rest (say (λ w. put_down (record w { heap = h; board = b }) r dest) s) r false in
    say (λ w. after_capture tracked p v r dest (emit w (log text))) placed

pub settle : Ref → Position → Sweep → Sweep
unfolding promote
settle r dest s =
    let text = (s.world.heap.piece r).id ++ codes " moved to " ++ cell_text dest in
    say (λ w. promote false r dest (emit w (log text)))
      (come_to_rest (say (λ w. put_down w r dest) s) r false)

-- Who is met at the destination decides: a piece in the air first, then one on the board.
pub meet : Bool → Ref → Position → Position → (jumper at_dest : Option Ref) → Sweep → Sweep
unfolding block capture_below capture settle
meet tracked r src dest (some j) at_dest s =
    if same_color s.world.heap j r
    then block (codes "Friendly block mid-air. ") r src s
    else capture_below tracked j r dest s
meet tracked r src dest none (some v) s =
    if same_color s.world.heap v r
    then block (codes "Friendly block. ") r src s
    else capture tracked v r dest s
meet tracked r src dest none none s = settle r dest s

-- The arrival of a motion; the motion itself is marked as handled already.
unfoldable pub arrive : ℕ → Bool → RealTimeArbiter → ℕ → Motion → Option Ref → Sweep → Sweep
unfolding meet still_there
arrive ms tracked a arrival m none s = s
arrive ms tracked a arrival m (some r) s =
    let h = s.world.heap in
    let at_dest =
      still_there h s.handled_motions a.active_motions (get_piece_at s.world.board m.dest) in
    if is_captured (h.piece r).state
    then s
    else meet tracked r m.source m.dest (jumper_at ms arrival m.dest a.active_jumps) at_dest s
