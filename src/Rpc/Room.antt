-- ===== src/Rpc/Room.antt =====
-- handle_share_canvas: the nodes stay consistent, and while no realloc has failed their memory is as
-- large as they claim.
use pointerpro_animate.Base.{ℕ, ◌≡◌, Bool, true, arith, ltb, length, ltb→lt, ◌∙◌}
use pointerpro_animate.Text.{Text}
use pointerpro_animate.Registry.{CanvasNode, Registry, find_canvas_node, client_has_canvas_access}
use pointerpro_animate.Registry.All.{All, find-All, update-All}
use pointerpro_animate.Library.{Library}
use pointerpro_animate.Rpc.{Server}
use pointerpro_animate.Rpc.After.{
  After, Keeps, keep_bind, keep_get, keep_put, keep_or, keep_ensure, keep_respond, keep_crash,
  keep_argument, keep_if_eq, keep_or_eq,
}
use pointerpro_animate.Rpc.Canvas.{handle_share_canvas, share_found, reserve, add_shared}
use pointerpro_animate.Rpc.Nodes.{
  NodeIsValid, IsValid, reserve-NodeIsValid, add_shared-NodeIsValid, reserve_access,
}

-- The memory of the shared users is as large as the node claims.
abbrev pub HasMemory : CanvasNode → Type 0
HasMemory n = NodeIsValid n × (n.allocated ≡ n.shared_capacity)

abbrev pub AllHaveMemory : Registry → Type 0
AllHaveMemory r = All HasMemory r.canvases

reserve-HasMemory : (n : CanvasNode) → HasMemory n → HasMemory (reserve true n).0
unfolding reserve
reserve-HasMemory n (v, full) = (reserve-NodeIsValid true n v, ground arith)

-- There is room for one more then.
reserve_room :
    (n : CanvasNode)
    → HasMemory n
    → ltb (length (reserve true n).0.shared_usernames) (reserve true n).0.allocated ≡ true
unfolding reserve
reserve_room n (v, full) = ground (arith, v.in_memory)

module _ (a : Library) where
  share_found-IsValid :
      (memory : Bool) (address : ℕ) (username target : Text) (r : Registry) (n : CanvasNode)
      → IsValid r
      → NodeIsValid n
      → Keeps IsValid (Unit {0}) (share_found a memory address username target r n)
  unfolding share_found
  share_found-IsValid memory address username target r n v vn =
      let m : CanvasNode = (reserve memory n).0 in
      let vm : NodeIsValid m = reserve-NodeIsValid memory n vn in
      keep_bind (keep_ensure _ _) λ _.
        keep_if_eq (client_has_canvas_access n target) (λ shared. keep_respond _)
          λ new. keep_bind (keep_put _ (update-All NodeIsValid address m r.canvases vm v)) λ _.
            keep_bind (keep_ensure _ _) λ _.
              keep_bind
                (keep_if_eq (ltb (length m.shared_usernames) m.allocated)
                  (λ room. keep_put _ (
                    update-All NodeIsValid address (add_shared target m) r.canvases
                      (add_shared-NodeIsValid target m vm (reserve_access memory n target ∙ new)
                        (ltb→lt _ _ room))
                      v))
                  λ full. keep_crash tt)
                λ _. keep_respond _

  share_canvas-Keeps :
      (memory : Bool) (authorised : Text → Bool) (username saveptr : Text)
      → Keeps IsValid (Unit {0}) (handle_share_canvas a memory authorised username saveptr)
  unfolding handle_share_canvas
  share_canvas-Keeps memory authorised username saveptr = keep_bind (keep_argument saveptr) λ h.
      keep_bind (keep_argument h.1) λ u. keep_bind (keep_ensure _ _) λ _.
        keep_bind (keep_or _ _) λ address. keep_bind (keep_ensure _ _) λ _. keep_get λ r v.
          keep_or_eq (find_canvas_node address r.canvases) _ λ n found.
            share_found-IsValid memory address username u.0 r n v
              (find-All NodeIsValid address r.canvases v found)

  -- Whatever its arguments and whether there is memory, handle_share_canvas, if it does not write
  -- outside an array, returns with consistent canvas nodes if they were so before.
  pub handle_share_canvas-IsValid :
      (memory : Bool) (authorised : Text → Bool) (username saveptr : Text) (s : Server a.State)
      → IsValid s.registry
      → After IsValid (Unit {0}) (handle_share_canvas a memory authorised username saveptr s)
  handle_share_canvas-IsValid memory authorised username saveptr s =
      (share_canvas-Keeps memory authorised username saveptr).at s

  share_found-HasMemory :
      (address : ℕ) (username target : Text) (r : Registry) (n : CanvasNode)
      → AllHaveMemory r
      → HasMemory n
      → Keeps AllHaveMemory ⊥ (share_found a true address username target r n)
  unfolding share_found
  share_found-HasMemory address username target r n v vn =
      let m : CanvasNode = (reserve true n).0 in
      let vm : HasMemory m = reserve-HasMemory n vn in
      keep_bind (keep_ensure _ _) λ _.
        keep_if_eq (client_has_canvas_access n target) (λ shared. keep_respond _)
          λ new. keep_bind (keep_put _ (update-All HasMemory address m r.canvases vm v)) λ _.
            keep_bind (keep_ensure _ _) λ _.
              keep_bind
                (keep_if_eq (ltb (length m.shared_usernames) m.allocated)
                  (λ room. keep_put _ (
                    update-All HasMemory address (add_shared target m) r.canvases
                      (
                        add_shared-NodeIsValid target m vm.0 (reserve_access true n target ∙ new)
                            (ltb→lt _ _ room),
                        vm.1,
                      )
                      v))
                  λ full. keep_crash (absurd (ground (arith, reserve_room n vn, full))))
                λ _. keep_respond _

  pub share_canvas-AllHaveMemory :
      (authorised : Text → Bool) (username saveptr : Text)
      → Keeps AllHaveMemory ⊥ (handle_share_canvas a true authorised username saveptr)
  unfolding handle_share_canvas
  share_canvas-AllHaveMemory authorised username saveptr = keep_bind (keep_argument saveptr) λ h.
      keep_bind (keep_argument h.1) λ u. keep_bind (keep_ensure _ _) λ _.
        keep_bind (keep_or _ _) λ address. keep_bind (keep_ensure _ _) λ _. keep_get λ r v.
          keep_or_eq (find_canvas_node address r.canvases) _ λ n found.
            share_found-HasMemory address username u.0 r n v
              (find-All HasMemory address r.canvases v found)

  -- When there is memory and each consistent node has the memory that it claims, handle_share_canvas,
  -- whatever its arguments, has defined behaviour: it returns, and that stays so.
  pub handle_share_canvas-AllHaveMemory :
      (authorised : Text → Bool) (username saveptr : Text) (s : Server a.State)
      → AllHaveMemory s.registry
      → After AllHaveMemory ⊥ (handle_share_canvas a true authorised username saveptr s)
  handle_share_canvas-AllHaveMemory authorised username saveptr s =
      (share_canvas-AllHaveMemory authorised username saveptr).at s
