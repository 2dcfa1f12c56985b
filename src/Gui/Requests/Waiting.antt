-- ===== src/Gui/Requests/Waiting.antt =====
-- The mouse while the game waits for a player who has left.
use ctd_project.Base.{◌≡◌, refl, true, false, Option, none, some, if_cases, ℤ}
use ctd_project.Piece.{Position, Ref}
use ctd_project.Board.{get_piece_at}
use ctd_project.Client.{Client}
use ctd_project.Gui.{GuiState, socket_client, heap_of}
use ctd_project.Gui.Requests.{
  is_waiting, may_touch, picks, second_click, left_click, right_click, move_selected,
  handle_left_click_down, handle_right_click_down, selected_piece,
}

module _ (c : Client) (gs : GuiState) (cell : Position) (w : is_waiting c ≡ true) where
  -- A window that shows the client's game.
  abbrev window : GuiState
  window = record gs { game = socket_client c }

  no_touch : (r : Ref) → may_touch (socket_client c) r ≡ false
  unfolding may_touch
  no_touch r = rw w refl

  second_click-is_waiting :
      (src : Option Position) → (second_click window cell src).game ≡ socket_client c
  unfolding second_click move_selected
  second_click-is_waiting none = refl
  second_click-is_waiting (some src) = rw w refl

  left_click-is_waiting :
      (x y : ℤ) (p : Option Ref) → (left_click window cell x y p).game ≡ socket_client c
  unfolding left_click
  left_click-is_waiting x y none = second_click-is_waiting gs.selected_cell
  left_click-is_waiting x y (some r) =
      if_cases (λ (x : GuiState). x.game ≡ socket_client c)
        (picks (heap_of window) r (selected_piece window)) (λ e. rw (no_touch r) refl)
        (λ e. second_click-is_waiting gs.selected_cell)

  right_click-is_waiting : (p : Option Ref) → (right_click window cell p).game ≡ socket_client c
  unfolding right_click
  right_click-is_waiting none = refl
  right_click-is_waiting (some r) = rw (no_touch r) refl

  -- While the client waits for a player who has left, pressing a mouse button on the board sends
  -- nothing and makes no sound: the client is as before.
  pub click-is_waiting :
      (x y : ℤ)
      → ((handle_left_click_down window cell x y).game ≡ socket_client c)
        × ((handle_right_click_down window cell).game ≡ socket_client c)
  unfolding handle_left_click_down handle_right_click_down
  click-is_waiting x y = (
    left_click-is_waiting x y (get_piece_at gs.board cell),
    right_click-is_waiting (get_piece_at gs.board cell),
  )
