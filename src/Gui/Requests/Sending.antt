-- ===== src/Gui/Requests/Sending.antt =====
-- A move from the mouse to the server.
use ctd_project.Base.{
  ◌≡◌, refl, ap, ℕ, ◌+◌, ◌%◌, ◌^◌, true, false, none, some, [], ◌∷◌, ◌++◌, ℤ, pos, Str,
}
use ctd_project.Piece.{Position}
use ctd_project.Board.{get_piece_at}
use ctd_project.Text.{is_int}
use ctd_project.Server.{Server, Hdl}
use ctd_project.Server.Play.{move}
use ctd_project.Server.Commands.{on_message}
use ctd_project.Server.Commands.Sent.{FitsInt, on_message-move_text}
use ctd_project.Client.{Client}
use ctd_project.Client.Messages.{move_text, next_seq, send_move}
use ctd_project.Gui.{GuiState, socket_client}
use ctd_project.Gui.Requests.{
  is_waiting, second_click, left_click, move_selected, ask_move, release, handle_left_click_down,
}

left_click-send_move :
    (c : Client) (gs : GuiState) (src cell : Position) (x y : ℤ)
    → is_waiting c ≡ false
    → get_piece_at gs.board cell ≡ none
    → handle_left_click_down
        (record gs { game = socket_client c; selected_cell = some src })
        cell
        x
        y
      ≡ release (record gs { game = socket_client (send_move c src.row src.col cell.row cell.col) })
unfolding handle_left_click_down left_click second_click move_selected ask_move
left_click-send_move c gs src cell x y w e = rw e (rw w refl)

-- The client that a window shows has one message more, that of the move with the next number, and
-- nothing else of it has changed; the window has the board and the dialog it had, and nothing selected.
pub record HasSent (c : Client) (gs gs' : GuiState) (text : Str) (seq : ℕ) : Type 0 where
  pub game : gs'.game ≡ socket_client (record c { seq_counter = seq; sent = c.sent ++ text ∷ [] })
  pub board : gs'.board ≡ gs.board
  pub selected : gs'.selected_cell ≡ none
  pub dragged : gs'.dragged_piece ≡ none

-- A click on an empty cell, with a cell selected and no player away, adds one message to those that the
-- client has sent, counts its number up by one, modulo 2 ^ 32, and selects nothing any more. The server
-- that receives the message makes the move from the selected cell to the clicked one under that number.
-- The number and the coordinates must fit an `int`.
pub on_message-left_click :
    (c : Client) (gs : GuiState) (src cell : Position) (x y : ℤ) (s : Server) (h : Hdl) (now : ℕ)
    → is_waiting c ≡ false
    → get_piece_at gs.board cell ≡ none
    → is_int (pos ((c.seq_counter + 1) % 2 ^ 32)) ≡ true
    → FitsInt src
    → FitsInt cell
    → let before : GuiState = record gs { game = socket_client c; selected_cell = some src } in
      let seq = (c.seq_counter + 1) % 2 ^ 32 in
      (text : Str) × HasSent c gs (handle_left_click_down before cell x y) text seq
      × (on_message s h now text ≡ some (move s h (pos seq) src cell))
unfolding send_move
on_message-left_click c gs src cell x y s h now w e i f g =
    let clicked = left_click-send_move c gs src cell x y w e in
    (
      move_text (next_seq c) src.row src.col cell.row cell.col,
      record {
        game = ap (λ (t : GuiState). t.game) clicked;
        board = ap (λ (t : GuiState). t.board) clicked;
        selected = ap (λ (t : GuiState). t.selected_cell) clicked;
        dragged = ap (λ (t : GuiState). t.dragged_piece) clicked;
      },
      on_message-move_text s h now (next_seq c) src cell i f g,
    )
