-- ===== src/Rpc/Handles.antt =====
-- A handle that the server has printed, as an argument of a later command.
use pointerpro_animate.Base.{
  ℕ, ◌^◌, ◌≤◌, ◌<◌, ◌≡◌, ◌≢◌, refl, ◌∙◌, subst, true, some, [], ◌∷◌, arith, length, take-all,
}
use pointerpro_animate.Text.{Text, same_refl, strtok, print_ulong}
use pointerpro_animate.Text.RoundTrip.{strtoull-print_ulong, strtok-print_ulong}
use pointerpro_animate.Registry.{
  find_canvas_node, canvas_node_delete, client_has_canvas_access, unlink_canvas_node,
}
use pointerpro_animate.Library.{Library}
use pointerpro_animate.Rpc.{
  Server, answer, commands, success, success_handle, handle_argument, positive, nonnegative,
  to_color, copy_username,
}
use pointerpro_animate.Rpc.Canvas.{handle_create_canvas, handle_destroy_canvas, new_canvas_node}
use pointerpro_animate.Rpc.Sharing.{destroy_prefix}
use pointerpro_animate.Rpc.Leaving.{gone, found_goes}

-- A handle is read back as it was printed.
pub handle_argument-print_ulong :
    (n : ℕ) → n ≢ 0 → n < 2 ^ 64 → handle_argument (print_ulong n) ≡ some n
unfolding handle_argument
handle_argument-print_ulong n ne small = ground (arith, strtoull-print_ulong n small)

module _ (a : Library) (s : Server a.State)
    (username saveptr w_text w_rest h_text h_rest c_text c_rest : Text) (width height color c : ℕ)
    (l : a.State) (w_token : strtok saveptr ≡ (some w_text, w_rest))
    (h_token : strtok w_rest ≡ (some h_text, h_rest))
    (c_token : strtok h_rest ≡ (some c_text, c_rest)) (w_value : positive w_text ≡ some width)
    (h_value : positive h_text ≡ some height) (c_value : nonnegative c_text ≡ some color)
    (created : a.create_canvas height width (to_color color) s.library ≡ some (c, l))
    (ne : c ≢ 0) where
  abbrev after_create : Server a.State
  after_create = record s {
    library = l;
    registry = record s.registry { canvases = new_canvas_node c username ∷ s.registry.canvases };
  }

  create_run :
      handle_create_canvas a true username saveptr s ≡ answer (success_handle c) 0 after_create
  unfolding handle_create_canvas commands
  create_run = ground arith

  new_found : find_canvas_node c after_create.registry.canvases ≡ some (new_canvas_node c username)
  unfolding find_canvas_node
  new_found = ground arith

  new_access : client_has_canvas_access (new_canvas_node c username) (copy_username username) ≡ true
  unfolding client_has_canvas_access
  new_access = ground (arith, same_refl (copy_username username))

  new_unlinked : unlink_canvas_node c after_create.registry.canvases ≡ s.registry.canvases
  unfolding unlink_canvas_node
  new_unlinked = ground arith

  -- A user with a name of at most 32 characters creates a canvas, with arguments that are well formed
  -- and memory at hand, and destroys it by the handle in the answer, which is not 0 and a 64-bit
  -- number, while the library has no fault: both commands succeed, the lists of canvases
  -- and sprites are as before, and so is that of placements, less those on a canvas of this handle.
  pub create_canvas-destroy_canvas :
      (l' : a.State)
      → length username ≤ 32
      → c < 2 ^ 64
      → a.destroy_canvas c l ≡ some (tt, l')
      → (t : Server a.State) × (u : Server a.State) × (handle_create_canvas a true username saveptr
            s
          ≡ answer (success_handle c) 0 t)
        × (handle_destroy_canvas a username (print_ulong c) t ≡ answer success 0 u)
        × (u.library ≡ l')
        × (u.registry.canvases ≡ s.registry.canvases)
        × (u.registry.sprites ≡ s.registry.sprites)
        × (u.registry.placements ≡ canvas_node_delete c s.registry.placements)
  create_canvas-destroy_canvas l' short small destroyed =
      let n = new_canvas_node c username in
      let access : client_has_canvas_access n username ≡ true =
        subst (λ u. client_has_canvas_access n u ≡ true) (take-all 32 username short) new_access in
      (
        after_create,
        gone a after_create c username (print_ulong c) (print_ulong c) [] l',
        create_run,
        destroy_prefix a after_create c username (print_ulong c) (print_ulong c) [] n
              (strtok-print_ulong c) (handle_argument-print_ulong c ne small) new_found
            ∙ found_goes a after_create c username (print_ulong c) (print_ulong c) [] n l' access
                (omega arith) destroyed,
        refl,
        new_unlinked,
        refl,
        refl,
      )
