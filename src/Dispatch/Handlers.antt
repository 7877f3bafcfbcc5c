-- ===== src/Dispatch/Handlers.antt =====
-- The invariant AllHaveMemory through the handlers of canvases, sprites and placements.
use pointerpro_animate.Base.{ℕ, ◌≡◌, refl, Bool, false, Option, leb}
use pointerpro_animate.Text.{Text}
use pointerpro_animate.Registry.{CanvasNode, Registry, find_canvas_node}
use pointerpro_animate.Registry.All.{find-All, update-All, unlink-All}
use pointerpro_animate.Library.{Library}
use pointerpro_animate.Rpc.{Server, Handler}
use pointerpro_animate.Rpc.After.{
  Keeps, keep_bind, keep_get, keep_put, keep_if, keep_or, keep_ensure, keep_respond, keep_call,
  keep_argument, keep_if_eq, keep_case, keep_ok,
}
use pointerpro_animate.Rpc.Nodes.{release-NodeIsValid, new_canvas_node-NodeIsValid}
use pointerpro_animate.Rpc.Room.{HasMemory, AllHaveMemory}
use pointerpro_animate.Rpc.Canvas.{
  handle_create_canvas, handle_destroy_canvas, destroy_found, release,
}
use pointerpro_animate.Rpc.Sprite.{
  register_sprite, handle_create_rectangle, handle_create_circle, handle_create_sprite,
  handle_destroy_sprite,
}
use pointerpro_animate.Rpc.Placement.{
  handle_place_sprite, handle_set_animation_params, placement_argument, handle_placement_up,
  handle_placement_down, handle_placement_top, handle_placement_bottom, handle_destroy_placement,
}
use pointerpro_animate.Dispatch.Faults.{Fault}

release-HasMemory :
    (username : Text) (n : CanvasNode)
    → HasMemory n
    → leb (release username n).ref_count 0 ≡ false
    → HasMemory (release username n)
unfolding release
release-HasMemory username n (v, full) kept = (release-NodeIsValid username n v kept, full)

module _ (a : Library) (users : Option Text) (username saveptr : Text) where
  abbrev pub KeepsAll : {A : Type 0} → Handler (Server a.State) A → Type 0
  KeepsAll m = Keeps AllHaveMemory (Fault a users saveptr) m

  pub create_canvas-KeepsAll :
      (memory : Bool) → KeepsAll (handle_create_canvas a memory username saveptr)
  unfolding handle_create_canvas
  create_canvas-KeepsAll memory = keep_bind (keep_argument _) λ w. keep_bind (keep_argument _) λ h.
      keep_bind (keep_argument _) λ c. keep_bind (keep_or _ _) λ width.
        keep_bind (keep_or _ _) λ height. keep_bind (keep_or _ _) λ color.
          keep_bind (keep_call _ (λ l e. Fault.create_canvas _ _ _ l e)) λ canvas.
            keep_bind (keep_ensure _ _) λ _.
              keep_if memory
                (keep_get λ r v.
                  keep_bind (keep_put _ ((new_canvas_node-NodeIsValid canvas username, refl), v))
                    λ _. keep_respond _)
                (keep_bind (keep_call _ (λ l e. Fault.destroy_canvas _ l e)) λ _. keep_respond _)

  destroy_found-KeepsAll :
      (address : ℕ) (r : Registry) (n : CanvasNode)
      → AllHaveMemory r
      → HasMemory n
      → KeepsAll (destroy_found a address username r n)
  unfolding destroy_found
  destroy_found-KeepsAll address r n v vn = keep_bind (keep_ensure _ _) λ _.
      keep_bind
        (keep_if_eq _
          (λ gone. keep_bind (keep_put _ (unlink-All HasMemory address r.canvases v)) λ _.
            keep_bind (keep_call _ (λ l e. Fault.destroy_canvas _ l e))
              λ _. keep_get λ q vq. keep_put _ vq)
          (λ kept.
            keep_put _
              (update-All HasMemory address _ r.canvases (release-HasMemory username n vn kept) v)))
        λ _. keep_respond _

  pub destroy_canvas-KeepsAll : KeepsAll (handle_destroy_canvas a username saveptr)
  unfolding handle_destroy_canvas
  destroy_canvas-KeepsAll = keep_bind (keep_argument _) λ h. keep_bind (keep_or _ _) λ address.
      keep_get λ r v.
        keep_case (find_canvas_node address r.canvases)
          (keep_get λ q vq.
            keep_bind (keep_put _ vq)
              λ _. keep_bind (keep_call _ (λ l e. Fault.destroy_canvas _ l e)) λ _. keep_respond _)
          λ n found.
            destroy_found-KeepsAll address r n v (find-All HasMemory address r.canvases v found)

  register-KeepsAll :
      (memory : Bool) (sprite : ℕ) → KeepsAll (register_sprite a memory username sprite)
  unfolding register_sprite
  register-KeepsAll memory sprite = keep_bind (keep_ensure _ _) λ _.
      keep_if memory (keep_get λ r v. keep_bind (keep_put _ v) λ _. keep_respond _)
        (keep_bind (keep_call _ (λ l e. Fault.destroy_sprite _ l e)) λ _. keep_respond _)

  pub create_rectangle-KeepsAll :
      (memory : Bool) → KeepsAll (handle_create_rectangle a memory username saveptr)
  unfolding handle_create_rectangle
  create_rectangle-KeepsAll memory = keep_bind (keep_argument _) λ w.
      keep_bind (keep_argument _) λ h. keep_bind (keep_argument _) λ c.
        keep_bind (keep_argument _) λ f. keep_bind (keep_or _ _) λ width.
          keep_bind (keep_or _ _) λ height. keep_bind (keep_or _ _) λ color.
            keep_bind (keep_or _ _) λ filled.
              keep_bind (keep_call _ (λ l e. Fault.create_rectangle _ _ _ _ l e))
                λ sprite. register-KeepsAll memory sprite

  pub create_circle-KeepsAll :
      (memory : Bool) → KeepsAll (handle_create_circle a memory username saveptr)
  unfolding handle_create_circle
  create_circle-KeepsAll memory = keep_bind (keep_argument _) λ r. keep_bind (keep_argument _) λ c.
      keep_bind (keep_argument _) λ f. keep_bind (keep_or _ _) λ radius.
        keep_bind (keep_or _ _) λ color. keep_bind (keep_or _ _) λ filled.
          keep_bind (keep_call _ (λ l e. Fault.create_circle _ _ _ l e))
            λ sprite. register-KeepsAll memory sprite

  pub create_sprite-KeepsAll :
      (memory : Bool) → KeepsAll (handle_create_sprite a memory username saveptr)
  unfolding handle_create_sprite
  create_sprite-KeepsAll memory = keep_bind (keep_argument _) λ f.
      keep_bind (keep_call _ (λ l e. Fault.create_sprite _ l e))
        λ sprite. register-KeepsAll memory sprite

  pub destroy_sprite-KeepsAll : KeepsAll (handle_destroy_sprite a username saveptr)
  unfolding handle_destroy_sprite
  destroy_sprite-KeepsAll = keep_bind (keep_argument _) λ h. keep_bind (keep_or _ _) λ sprite.
      keep_get λ r v. keep_bind (keep_ensure _ _) λ _.
        keep_bind (keep_call _ (λ l e. Fault.destroy_sprite _ l e))
          λ failed. keep_if failed (keep_respond _) (keep_bind (keep_put _ v) λ _. keep_respond _)

  pub place_sprite-KeepsAll :
      (memory : Bool) → KeepsAll (handle_place_sprite a memory username saveptr)
  unfolding handle_place_sprite
  place_sprite-KeepsAll memory = keep_bind (keep_argument _) λ c. keep_bind (keep_argument _) λ i.
      keep_bind (keep_argument _) λ xs. keep_bind (keep_argument _) λ ys.
        keep_bind (keep_or _ _) λ canvas. keep_bind (keep_or _ _) λ sprite.
          keep_bind (keep_or _ _) λ x. keep_bind (keep_or _ _) λ y. keep_get λ r v.
            keep_bind (keep_or _ _) λ n. keep_bind (keep_ensure _ _) λ _.
              keep_bind (keep_or _ _) λ node. keep_bind (keep_ensure _ _) λ _.
                keep_bind (keep_call _ (λ l e. Fault.place_sprite _ _ _ _ l e)) λ p.
                  keep_bind (keep_ensure _ _) λ _.
                    keep_if memory (keep_bind (keep_put _ v) λ _. keep_respond _) (
                      keep_bind (keep_call _ (λ l e. Fault.destroy_placement _ l e))
                        λ _. keep_respond _)

  pub set_animation_params-KeepsAll : KeepsAll (handle_set_animation_params a username saveptr)
  unfolding handle_set_animation_params
  set_animation_params-KeepsAll = keep_bind (keep_argument _) λ p. keep_bind (keep_argument _) λ vx.
      keep_bind (keep_argument _) λ vy. keep_bind (keep_argument _) λ ax.
        keep_bind (keep_argument _) λ ay. keep_bind (keep_or _ _) λ placement.
          keep_bind (keep_or _ _) λ x. keep_bind (keep_or _ _) λ y. keep_bind (keep_or _ _) λ z.
            keep_bind (keep_or _ _) λ w. keep_get λ r v. keep_bind (keep_ensure _ _) λ _.
              keep_bind (keep_call _ (λ l e. Fault.set_animation_params _ _ _ _ _ l e))
                λ _. keep_respond _

  placement-KeepsAll : KeepsAll (placement_argument a username saveptr)
  unfolding placement_argument
  placement-KeepsAll =
      keep_bind (keep_argument _)
        λ h. keep_bind (keep_or _ _) λ p. keep_get λ r v. keep_bind (keep_ensure _ _) λ _. keep_ok p

  pub placement_up-KeepsAll : KeepsAll (handle_placement_up a username saveptr)
  unfolding handle_placement_up
  placement_up-KeepsAll =
      keep_bind placement-KeepsAll
        λ p. keep_bind (keep_call _ (λ l e. Fault.placement_up _ l e)) λ _. keep_respond _

  pub placement_down-KeepsAll : KeepsAll (handle_placement_down a username saveptr)
  unfolding handle_placement_down
  placement_down-KeepsAll =
      keep_bind placement-KeepsAll
        λ p. keep_bind (keep_call _ (λ l e. Fault.placement_down _ l e)) λ _. keep_respond _

  pub placement_top-KeepsAll : KeepsAll (handle_placement_top a username saveptr)
  unfolding handle_placement_top
  placement_top-KeepsAll =
      keep_bind placement-KeepsAll
        λ p. keep_bind (keep_call _ (λ l e. Fault.placement_top _ l e)) λ _. keep_respond _

  pub placement_bottom-KeepsAll : KeepsAll (handle_placement_bottom a username saveptr)
  unfolding handle_placement_bottom
  placement_bottom-KeepsAll =
      keep_bind placement-KeepsAll
        λ p. keep_bind (keep_call _ (λ l e. Fault.placement_bottom _ l e)) λ _. keep_respond _

  pub destroy_placement-KeepsAll : KeepsAll (handle_destroy_placement a username saveptr)
  unfolding handle_destroy_placement
  destroy_placement-KeepsAll = keep_bind placement-KeepsAll λ p.
      keep_bind (keep_call _ (λ l e. Fault.destroy_placement _ l e))
        λ _. keep_get λ r v. keep_bind (keep_put _ v) λ _. keep_respond _
