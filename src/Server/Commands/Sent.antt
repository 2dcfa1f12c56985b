-- ===== src/Server/Commands/Sent.antt =====
-- The messages of a client as the server reads them.
use ctd_project.Base.{◌≡◌, refl, ℕ, true, some, [], ◌++◌, ℤ, pos, Str, codes, str_eq}
use ctd_project.Piece.{Position}
use ctd_project.Text.{get_int, skip_space, is_int}
use ctd_project.Text.Words.{is_word, get_word-is_word, breaks}
use ctd_project.Text.Numbers.{ends, get_int-to_string}
use ctd_project.Client.Messages.{move_text, jump_text, spaced}
use ctd_project.Server.{Server, Hdl}
use ctd_project.Server.Play.{move, jump}
use ctd_project.Server.Commands.{
  move_piece, jump_piece, read_move, read_jump, read_arguments, read_command, obey, on_message,
}

get_int-spaced :
    (z : ℤ) (rest : Str)
    → is_int z ≡ true
    → ends rest ≡ true
    → get_int (spaced z rest) ≡ some (z, rest)
unfolding get_int skip_space
get_int-spaced z rest i e = get_int-to_string z rest i e

-- The coordinates fit an `int`.
abbrev pub FitsInt : Position → Type 0
FitsInt p = (is_int p.row ≡ true) × (is_int p.col ≡ true)

read_move-spaced :
    (n : ℤ) (src dst : Position)
    → is_int n ≡ true
    → FitsInt src
    → FitsInt dst
    → read_move (spaced n (spaced src.row (spaced src.col (spaced dst.row (spaced dst.col [])))))
      ≡ some (move_piece n src dst)
unfolding read_move
read_move-spaced n src dst i (sr, sc) (dr, dc) =
    rw
      (get_int-spaced n (spaced src.row (spaced src.col (spaced dst.row (spaced dst.col [])))) i
        refl)
      (rw (get_int-spaced src.row (spaced src.col (spaced dst.row (spaced dst.col []))) sr refl) (
        rw (get_int-spaced src.col (spaced dst.row (spaced dst.col [])) sc refl) (
          rw (get_int-spaced dst.row (spaced dst.col []) dr refl)
            (rw (get_int-spaced dst.col [] dc refl) refl))))

read_jump-spaced :
    (n : ℤ) (at : Position)
    → is_int n ≡ true
    → FitsInt at
    → read_jump (spaced n (spaced at.row (spaced at.col []))) ≡ some (jump_piece n at)
unfolding read_jump
read_jump-spaced n at i (r, c) = rw (get_int-spaced n (spaced at.row (spaced at.col [])) i refl) (
    rw (get_int-spaced at.row (spaced at.col []) r refl)
      (rw (get_int-spaced at.col [] c refl) refl))

read_command_word :
    (w rest : Str)
    → is_word w ≡ true
    → breaks rest ≡ true
    → read_command (w ++ rest) ≡ read_arguments w rest
unfolding read_command
read_command_word w rest i b = rw (get_word-is_word w rest i b) refl

-- The move that a client sends is the move that the server makes for it, under the number that the
-- client has given it, if the number and the coordinates fit an `int`.
pub on_message-move_text :
    (s : Server) (h : Hdl) (now n : ℕ) (src dst : Position)
    → is_int (pos n) ≡ true
    → FitsInt src
    → FitsInt dst
    → on_message s h now (move_text n src.row src.col dst.row dst.col)
      ≡ some (move s h (pos n) src dst)
unfolding on_message move_text read_arguments obey str_eq
on_message-move_text s h now n src dst i f g =
    let rest =
      spaced (pos n) (spaced src.row (spaced src.col (spaced dst.row (spaced dst.col [])))) in
    rw (read_command_word (codes "MOVE") rest refl refl)
      (rw (read_move-spaced (pos n) src dst i f g) refl)

-- The same for a jump.
pub on_message-jump_text :
    (s : Server) (h : Hdl) (now n : ℕ) (at : Position)
    → is_int (pos n) ≡ true
    → FitsInt at
    → on_message s h now (jump_text n at.row at.col) ≡ some (jump s h (pos n) at)
unfolding on_message jump_text read_arguments obey str_eq
on_message-jump_text s h now n at i f =
    let rest = spaced (pos n) (spaced at.row (spaced at.col [])) in
    rw (read_command_word (codes "JUMP") rest refl refl) (rw (read_jump-spaced (pos n) at i f) refl)
