-- ===== src/Engine/Safety.antt =====
-- The invariant of a running game: kept by every request and by the clock.
use ctd_project.Base.{
  ℕ, zero, suc, ◌≡◌, refl, sym, ◌∙◌, ◌≢◌, ◌⊎◌, inl, inr, Bool, true, false, Option, none, some,
  List, [], ◌∷◌, ◌++◌, arith, get_elem?, ap, Bool-cases, if_cases,
}
use ctd_project.Piece.{Ref, Position, Heap, set_state, moving}
use ctd_project.Board.{Board, get_piece_at}
use ctd_project.Motion.{Motion, RealTimeArbiter}
use ctd_project.GameState.{World, check_game_status, is_game_over}
use ctd_project.Coherence.{
  Coherent, Harmless, Harmless-Coherent, clear_cell-Coherent, clear_cell-Off, clear_cell-Off_other,
}
use ctd_project.Arbiter.{start_motion, start_jump, advance_time}
use ctd_project.Arbiter.Flight.{Distinct}
use ctd_project.Arbiter.Invariant.{
  Inv, advance_time-Inv, Distinct-tail, Distinct-cons, Distinct-Apart, Apart,
}
use ctd_project.Engine.{
  GameEngine, new_engine, illegal, is_busy, begin_move, on_verdict, move_piece_of, request_move,
  jump_piece_of, request_jump, update, Request, move, jump, elapse, serve, play,
}

abbrev pub IsSafe : GameEngine → Type 0
IsSafe g = Inv g.world g.arbiter

-- An entry of a longer list stands in the list, or is the new one.
snoc_cases :
    (l : List Motion) (x m : Motion) (i : ℕ)
    → get_elem? (l ++ x ∷ []) i ≡ some m
    → (get_elem? l i ≡ some m) ⊎ (m ≡ x)
snoc_cases [] x m zero e = inr (ground arith)
snoc_cases [] x m (suc i) e = absurd (cc e)
snoc_cases (y ∷ l) x m zero e = inl e
snoc_cases (y ∷ l) x m (suc i) e = snoc_cases l x m i e

snoc_Distinct :
    (l : List Motion) (x : Motion) (r : Ref)
    → x.piece ≡ some r
    → ((i : ℕ) (m : Motion) → get_elem? l i ≡ some m → m.piece ≢ some r)
    → Distinct l
    → Distinct (l ++ x ∷ [])
snoc_Distinct [] x r has new d = Distinct-cons x [] (λ i n q at. absurd (cc at)) d
snoc_Distinct (y ∷ l) x r has new d =
    Distinct-cons y (l ++ x ∷ []) apart
      (snoc_Distinct l x r has (λ k o. new (suc k) o) (Distinct-tail y l d))
  where
    apart : Apart y (l ++ x ∷ [])
    apart i n q bt p p' = elim (snoc_cases l x n i bt) [
      | inl old ↦ Distinct-Apart y l d i n q old p p'
      | inr last ↦ new 0 y refl (p ∙ sym p' ∙ ap (λ (m : Motion). m.piece) last ∙ has)
    ]

-- A motion starts with a piece that stands on its source.
begin_move-IsSafe :
    (g : GameEngine) (r : Ref) (src dest : Position)
    → get_piece_at g.world.board src ≡ some r
    → IsSafe g
    → IsSafe (begin_move g r src dest)
unfolding begin_move start_motion
begin_move-IsSafe g r src dest there v = record {
  coherent = clear_cell-Coherent h' b (Harmless-Coherent marked v.coherent) src;
  airborne = λ i m at. elim (snoc_cases _ _ m i at) [
    | inl old ↦
        let (q, holds, off) = v.airborne i m old in
        (q, holds, clear_cell-Off_other g.world.heap b v.coherent src q off)
    | inr last ↦
        (r, ap (λ (m : Motion). m.piece) last, clear_cell-Off g.world.heap b v.coherent src r there)
  ];
  distinct =
      snoc_Distinct g.arbiter.active_motions _ r refl
        (λ i m at carries.
          let (q, holds, off) = v.airborne i m at in off src (there ∙ sym carries ∙ holds))
        v.distinct;
}
  where
    b : Board
    b = g.world.board

    h' : Heap
    h' = set_state g.world.heap r moving

    marked : Harmless g.world (record (g.world) { heap = h' })
    marked = record { board = refl; cells = λ q. ground arith }

on_verdict-IsSafe :
    (g : GameEngine) (r : Ref) (src dest : Position) (o : Option Bool)
    → get_piece_at g.world.board src ≡ some r
    → IsSafe g
    → IsSafe (on_verdict g r src dest o)
unfolding on_verdict illegal
on_verdict-IsSafe g r src dest none there v = v
on_verdict-IsSafe g r src dest (some false) there v = record {
  coherent = v.coherent;
  airborne = v.airborne;
  distinct = v.distinct;
}
on_verdict-IsSafe g r src dest (some true) there v = begin_move-IsSafe g r src dest there v

move_piece_of-IsSafe :
    (g : GameEngine) (src dest : Position) (o : Option Ref)
    → get_piece_at g.world.board src ≡ o
    → IsSafe g
    → IsSafe (move_piece_of g src dest o)
unfolding move_piece_of
move_piece_of-IsSafe g src dest none there v = record {
  coherent = v.coherent;
  airborne = v.airborne;
  distinct = v.distinct;
}
move_piece_of-IsSafe g src dest (some r) there v = elim (Bool-cases (is_busy g (some r))) [
  | inl busy ↦
      rw busy (record { coherent = v.coherent; airborne = v.airborne; distinct = v.distinct })
  | inr free ↦ rw free (on_verdict-IsSafe g r src dest _ there v)
]

request_move-IsSafe :
    (g : GameEngine) (src dest : Position) → IsSafe g → IsSafe (request_move g src dest)
unfolding request_move
request_move-IsSafe g src dest v =
    if_cases IsSafe (is_game_over g.world) (λ over. v)
      (λ on. move_piece_of-IsSafe g src dest _ refl v)

jump_piece_of-IsSafe :
    (g : GameEngine) (spot : Position) (o : Option Ref) → IsSafe g → IsSafe (jump_piece_of g spot o)
unfolding jump_piece_of start_jump
jump_piece_of-IsSafe g spot none v = v
jump_piece_of-IsSafe g spot (some r) v = elim (Bool-cases (is_busy g (some r))) [
  | inl busy ↦ rw busy v
  | inr free ↦ rw free (record {
    coherent = Harmless-Coherent marked v.coherent;
    airborne = v.airborne;
    distinct = v.distinct;
  })
]
  where
    marked : Harmless g.world (record (g.world) { heap = set_state g.world.heap r moving })
    marked = record { board = refl; cells = λ q. ground arith }

request_jump-IsSafe : (g : GameEngine) (spot : Position) → IsSafe g → IsSafe (request_jump g spot)
unfolding request_jump
request_jump-IsSafe g spot v =
    if_cases IsSafe (is_game_over g.world) (λ over. v) (λ on. jump_piece_of-IsSafe g spot _ v)

-- Checking the status touches neither the board nor the pieces.
pub check_game_status-same :
    (w : World) (a : RealTimeArbiter)
    → ((check_game_status w a).heap ≡ w.heap) × ((check_game_status w a).board ≡ w.board)
unfolding check_game_status
check_game_status-same w a = ground arith

update-IsSafe : (g : GameEngine) (ms : ℕ) → IsSafe g → IsSafe (update g ms)
unfolding update
update-IsSafe g ms v =
    let (w, a) = advance_time ms true g.world g.arbiter in
    let k = advance_time-Inv ms true g.world g.arbiter v in
    let (heap, board) = check_game_status-same w a in
    record {
      coherent = rw (heap, board) k.coherent;
      airborne = λ i m at. rw board (k.airborne i m at);
      distinct = k.distinct;
    }

serve-IsSafe : (g : GameEngine) (q : Request) → IsSafe g → IsSafe (serve g q)
unfolding serve
serve-IsSafe g (move src dest) v = request_move-IsSafe g src dest v
serve-IsSafe g (jump spot) v = request_jump-IsSafe g spot v
serve-IsSafe g (elapse ms) v = update-IsSafe g ms v

pub play-IsSafe : (g : GameEngine) (qs : List Request) → IsSafe g → IsSafe (play g qs)
unfolding play
play-IsSafe g [] v = v
play-IsSafe g (q ∷ qs) v = play-IsSafe (serve g q) qs (serve-IsSafe g q v)

new_engine-IsSafe : (h : Heap) (b : Board) → Coherent h b → IsSafe (new_engine h b)
unfolding new_engine
new_engine-IsSafe h b c = record {
  coherent = c;
  airborne = λ i m at. absurd (cc at);
  distinct = λ i j m n r at. absurd (cc at);
}

-- In a game that starts from a coherent board, after any requests and any lapses of time, board
-- and pieces agree, every motion carries a piece that is off the board, and no piece is in two
-- motions.
pub play-new_engine-IsSafe :
    (h : Heap) (b : Board) (qs : List Request) → Coherent h b → IsSafe (play (new_engine h b) qs)
play-new_engine-IsSafe h b qs c = play-IsSafe (new_engine h b) qs (new_engine-IsSafe h b c)
