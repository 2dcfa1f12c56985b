-- ===== src/Gui/Dialog.antt =====
-- The name of a room that is typed in.
use ctd_project.Base.{
  ◌≡◌, refl, sym, subst, ap, ℕ, suc, ◌≤◌, Bool, ◌&&◌, ◌||◌, [], ◌∷◌, ◌++◌, if_cases, ltb, leb, ◌==◌,
  ℤ, pos, negsuc, Str, length, arith,
}
use ctd_project.Server.{is_empty}
use ctd_project.Gui.{
  GuiState, with_client, on_key, pop_back, dialog_key, type_char, join_named, max_room_input_length,
}
use ctd_project.Client.{Client}
use ctd_project.Client.Messages.{send_join_room}

length-pop_back : (s : Str) → length (pop_back s) ≤ length s
unfolding pop_back
length-pop_back [] = omega arith
length-pop_back (c ∷ []) = omega arith
length-pop_back (c ∷ d ∷ s) = let shorter = length-pop_back (d ∷ s) in omega arith

length-snoc : (s : Str) (c : ℕ) → length (s ++ c ∷ []) ≡ suc (length s)
length-snoc [] c = refl
length-snoc (d ∷ s) c = ap suc (length-snoc s c)

abbrev pub IsShort : GuiState → Type 0
IsShort gs = length gs.room_input_text ≤ max_room_input_length

with_client_text :
    (f : Client → Client) (gs : GuiState) → (with_client f gs).room_input_text ≡ gs.room_input_text
with_client_text f gs = refl

join_named_text : (gs : GuiState) → (join_named gs).room_input_text ≡ gs.room_input_text
unfolding join_named
join_named_text gs =
    if_cases (λ (x : GuiState). x.room_input_text ≡ gs.room_input_text)
      (is_empty gs.room_input_text) (λ e. refl)
      (λ e. with_client_text (λ c. send_join_room c gs.room_input_text) gs)

short :
    (gs : GuiState) (t : Str)
    → t ≡ gs.room_input_text
    → IsShort gs
    → length t ≤ max_room_input_length
short gs t e s = subst (λ u. length u ≤ max_room_input_length) (sym e) s

type_char-IsShort : (key : ℕ) (gs : GuiState) → IsShort gs → IsShort (type_char gs key)
unfolding type_char
type_char-IsShort key gs s =
    if_cases IsShort (ltb (length gs.room_input_text) max_room_input_length)
      (λ e. let longer = length-snoc gs.room_input_text key in ground (arith, longer, e)) (λ e. s)

dialog_key-IsShort : (key : ℕ) (gs : GuiState) → IsShort gs → IsShort (dialog_key key gs).0
unfolding dialog_key
dialog_key-IsShort key gs s =
    if_cases (λ (x : GuiState × Bool). IsShort x.0) (key == 8)
      (λ e. let shorter = length-pop_back gs.room_input_text in omega arith)
      (λ e.
        if_cases (λ (x : GuiState × Bool). IsShort x.0) ((key == 13) || (key == 10))
          (λ e'. short gs (join_named gs).room_input_text (join_named_text gs) s)
          (λ e'.
            if_cases (λ (x : GuiState × Bool). IsShort x.0) (leb 32 key && leb key 126)
              (λ e''. type_char-IsShort key gs s) (λ e''. s)))

-- The name of the room in the dialog never has more than 20 characters, whatever key is pressed.
pub on_key-IsShort : (key : ℤ) (gs : GuiState) → IsShort gs → IsShort (on_key key gs).0
unfolding on_key
on_key-IsShort (pos key) gs s =
    if_cases (λ (x : GuiState × Bool). IsShort x.0) gs.show_room_dialog
      (λ e. dialog_key-IsShort key gs s) (λ e. s)
on_key-IsShort (negsuc key) gs s = s
