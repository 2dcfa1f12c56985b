-- ===== src/Client/Merging.antt =====
-- src/network/socket_client.cpp, `parse_and_update_state`: what the client keeps of its own motions,
-- jumps and cooldowns when the server sends its own. Pieces are told apart by their ids.
pub mod UnderWay
use ctd_project.Base.{
  Bool, false, ◌&&◌, ◌||◌, not, Option, none, some, List, [], ◌∷◌, ◌++◌, if◌then◌else◌, ltb,
}
use ctd_project.Piece.{Position, Ref, Heap, is_king}
use ctd_project.Board.{Board, get_piece_at}
use ctd_project.Motion.{Motion, Jump, Cooldown}
use ctd_project.GameState.{board_cells}
use ctd_project.Arbiter.{same_id}

-- `a && b && a->id == b->id`
abbrev pub both_same : Heap → Option Ref → Option Ref → Bool
both_same h none b = false
both_same h (some r) b = same_id h r b

unfoldable pub any_motion : Heap → Option Ref → List Motion → Bool
any_motion h p [] = false
any_motion h p (m ∷ ms) = both_same h p m.piece || any_motion h p ms

unfoldable pub any_jump : Heap → Option Ref → List Jump → Bool
any_jump h p [] = false
any_jump h p (j ∷ js) = both_same h p j.piece || any_jump h p js

is_king_ref : Heap → Option Ref → Bool
is_king_ref h none = false
is_king_ref h (some r) = is_king (h.piece r).kind

-- `has_active_king_capture`
unfoldable pub king_capture : Heap → List Motion → Bool
unfolding is_king_ref
king_capture h [] = false
king_capture h (m ∷ ms) =
    (is_king_ref h m.captured_piece && ltb 0 m.remaining_ms) || king_capture h ms

-- A motion of the server goes on from where the client's motion of that piece is.
unfoldable pub merge_motion : Heap → List Motion → Motion → Motion
merge_motion h [] pm = pm
merge_motion h (am ∷ ams) pm =
    if both_same h am.piece pm.piece
    then record am { piece = pm.piece; dest = pm.dest; source = pm.source; total_ms = pm.total_ms }
    else merge_motion h ams pm

unfoldable pub merged_motions : Heap → List Motion → List Motion → List Motion
merged_motions h ams [] = []
merged_motions h ams (pm ∷ pms) = merge_motion h ams pm ∷ merged_motions h ams pms

-- The client's own motions that the server does not send any more are ended by the client.
unfoldable pub keep_motions : Heap → List Motion → List Motion → List Motion → List Motion
keep_motions h parsed final [] = final
keep_motions h parsed final (am ∷ ams) =
    let known = any_motion h am.piece parsed || any_motion h am.piece final in
    keep_motions h parsed (if ltb 0 am.remaining_ms && not known then final ++ am ∷ [] else final)
      ams

unfoldable pub final_motions : Heap → List Motion → List Motion → List Motion
final_motions h ams parsed = keep_motions h parsed (merged_motions h ams parsed) ams

unfoldable pub merge_jump : Heap → List Jump → Jump → Jump
merge_jump h [] pj = pj
merge_jump h (aj ∷ ajs) pj =
    if both_same h aj.piece pj.piece
    then record aj { piece = pj.piece; spot = pj.spot; total_ms = pj.total_ms }
    else merge_jump h ajs pj

unfoldable pub merged_jumps : Heap → List Jump → List Jump → List Jump
merged_jumps h ajs [] = []
merged_jumps h ajs (pj ∷ pjs) = merge_jump h ajs pj ∷ merged_jumps h ajs pjs

unfoldable pub keep_jumps : Heap → List Jump → List Jump → List Jump → List Jump
keep_jumps h parsed final [] = final
keep_jumps h parsed final (aj ∷ ajs) =
    let known = any_jump h aj.piece parsed || any_jump h aj.piece final in
    keep_jumps h parsed (if ltb 0 aj.remaining_ms && not known then final ++ aj ∷ [] else final) ajs

unfoldable pub final_jumps : Heap → List Jump → List Jump → List Jump
final_jumps h ajs parsed = keep_jumps h parsed (merged_jumps h ajs parsed) ajs

-- A piece with the id stands on one of the cells.
on_cells : Heap → Board → Option Ref → List Position → Bool
on_cells h b p [] = false
on_cells h b p (q ∷ qs) = both_same h p (get_piece_at b q) || on_cells h b p qs

-- The client's own cooldowns of the pieces on the board that are not over.
unfoldable pub kept_cooldowns : Heap → Board → List Cooldown → List Cooldown
unfolding on_cells
kept_cooldowns h b [] = []
kept_cooldowns h b (c ∷ cs) =
    let rest = kept_cooldowns h b cs in
    if on_cells h b c.piece (board_cells b) && ltb 0 c.remaining_ms then c ∷ rest else rest

-- A cooldown of the server is added in full, unless the piece has one; that one starts anew while the
-- piece is under way.
unfoldable pub merge_cooldown : Heap → List Motion → Cooldown → List Cooldown → List Cooldown
merge_cooldown h motions pcd [] = record pcd { remaining_ms = pcd.total_ms } ∷ []
merge_cooldown h motions pcd (acd ∷ rest) =
    let later = merge_cooldown h motions pcd rest in
    if both_same h acd.piece pcd.piece
    then (if any_motion h pcd.piece motions
        then record acd { remaining_ms = acd.total_ms }
        else acd)
      ∷ rest
    else acd ∷ later

unfoldable pub final_cooldowns : Heap → List Motion → List Cooldown → List Cooldown → List Cooldown
final_cooldowns h motions final [] = final
final_cooldowns h motions final (pcd ∷ pcds) =
    final_cooldowns h motions (merge_cooldown h motions pcd final) pcds
