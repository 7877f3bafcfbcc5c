-- ===== src/Dispatch/Faults.antt =====
-- The ways in which a command can have undefined behaviour.
use pointerpro_animate.Base.{ℕ, ◌≡◌, ◌≤◌, Option, none, some, Bool}
use pointerpro_animate.Base.Int.{ℤ}
use pointerpro_animate.Text.{Text, strtok, long_max}
use pointerpro_animate.Library.{Library}
use pointerpro_animate.Rpc.{nonnegative}
use pointerpro_animate.Users.{find_login}
use pointerpro_animate.Base.{length}

-- generate is asked for the frame LONG_MAX.
pub data AsksForLast (saveptr : Text) : Type 0 where
  asks :
      {c_text c_rest f_text f_rest s_text s_rest e_text e_rest : Text} {end_frame : ℕ}
      → strtok saveptr ≡ (some c_text, c_rest)
      → strtok c_rest ≡ (some f_text, f_rest)
      → strtok f_rest ≡ (some s_text, s_rest)
      → strtok s_rest ≡ (some e_text, e_rest)
      → nonnegative e_text ≡ some end_frame
      → long_max ≤ end_frame
      → AsksForLast saveptr

-- A word of users.txt that handle_login reads does not fit its buffer.
abbrev pub LongWord : Option Text → Type 0
LongWord users =
    (file : Text) × (username : Text) × (users ≡ some file)
    × (find_login (length file) username file ≡ none)

-- A call of the library has undefined behaviour, or the command does.
pub data Fault (a : Library) (users : Option Text) (saveptr : Text) : Type 0 where
  create_canvas : (h w c : ℕ) (l : a.State) → a.create_canvas h w c l ≡ none → Fault a users saveptr
  destroy_canvas : (c : ℕ) (l : a.State) → a.destroy_canvas c l ≡ none → Fault a users saveptr
  create_sprite :
      (path : Text) (l : a.State) → a.create_sprite path l ≡ none → Fault a users saveptr
  create_rectangle :
      (w h c : ℕ) (filled : Bool) (l : a.State)
      → a.create_rectangle w h c filled l ≡ none
      → Fault a users saveptr
  create_circle :
      (r c : ℕ) (filled : Bool) (l : a.State)
      → a.create_circle r c filled l ≡ none
      → Fault a users saveptr
  destroy_sprite : (i : ℕ) (l : a.State) → a.destroy_sprite i l ≡ none → Fault a users saveptr
  place_sprite :
      (c i : ℕ) (x y : ℤ) (l : a.State) → a.place_sprite c i x y l ≡ none → Fault a users saveptr
  placement_up : (p : ℕ) (l : a.State) → a.placement_up p l ≡ none → Fault a users saveptr
  placement_down : (p : ℕ) (l : a.State) → a.placement_down p l ≡ none → Fault a users saveptr
  placement_top : (p : ℕ) (l : a.State) → a.placement_top p l ≡ none → Fault a users saveptr
  placement_bottom : (p : ℕ) (l : a.State) → a.placement_bottom p l ≡ none → Fault a users saveptr
  destroy_placement : (p : ℕ) (l : a.State) → a.destroy_placement p l ≡ none → Fault a users saveptr
  set_animation_params :
      (p : ℕ) (vx vy ax ay : ℤ) (l : a.State)
      → a.set_animation_params p vx vy ax ay l ≡ none
      → Fault a users saveptr
  frame_size_bytes : (c : ℕ) (l : a.State) → a.frame_size_bytes c l ≡ none → Fault a users saveptr
  generate_frame :
      (c frame rate : ℕ) (buf : Text) (l : a.State)
      → a.generate_frame c frame rate buf l ≡ none
      → Fault a users saveptr
  width : (c : ℕ) (l : a.State) → a.width c l ≡ none → Fault a users saveptr
  height : (c : ℕ) (l : a.State) → a.height c l ≡ none → Fault a users saveptr
  long_word : LongWord users → Fault a users saveptr
  last_frame : AsksForLast saveptr → Fault a users saveptr
