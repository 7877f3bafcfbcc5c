-- ===== src/Rpc/Leaving.antt =====
-- handle_destroy_canvas: the reference of one user is given up, the last one destroys the canvas.
use pointerpro_animate.Base.{ap, ℕ, ◌≤◌, ◌≡◌, ◌≢◌, refl, ◌∙◌, true, none, some, arith, ==_refl}
use pointerpro_animate.Text.{Text, same, strtok}
use pointerpro_animate.Registry.{
  CanvasNode, PlacementNode, find_canvas_node, find_placement_node, is_shared,
  client_has_canvas_access, canvas_node_delete, update_canvas_node, unlink_canvas_node,
}
use pointerpro_animate.Registry.Lookup.{
  find-update, find_handle, find-unlink, find-unlink_ne, find_placement-delete, AreUnique,
}
use pointerpro_animate.Library.{Library}
use pointerpro_animate.Rpc.{Server, answer, crash, commands, success, handle_argument}
use pointerpro_animate.Rpc.Canvas.{
  handle_destroy_canvas, destroy_found, destroy_unregistered, release,
}
use pointerpro_animate.Rpc.Nodes.{NodeIsValid}
use pointerpro_animate.Rpc.Sharing.{destroy_prefix, with_canvases}
use pointerpro_animate.Rpc.Release.{
  owner_access, shared_access, update-AreUnique, release_handle, release_count,
  release_owner_access,
}

module _ (a : Library) (s : Server a.State) (address : ℕ) (username saveptr text rest : Text) where
  found_stays :
      (n : CanvasNode)
      → client_has_canvas_access n username ≡ true
      → 2 ≤ n.ref_count
      → destroy_found a address username s.registry n s
        ≡ answer success 0 (
            with_canvases a s address username saveptr text rest
              (update_canvas_node address (release username n) s.registry.canvases))
  unfolding destroy_found release commands
  found_stays n access more = rw access (ground arith)

  -- The state after the last reference has gone, with the library in the state `l`.
  abbrev pub gone : a.State → Server a.State
  gone l = record s {
    library = l;
    registry = record s.registry {
      canvases = unlink_canvas_node address s.registry.canvases;
      placements = canvas_node_delete address s.registry.placements;
    };
  }

  pub found_goes :
      (n : CanvasNode) (l : a.State)
      → client_has_canvas_access n username ≡ true
      → n.ref_count ≤ 1
      → a.destroy_canvas address s.library ≡ some (tt, l)
      → destroy_found a address username s.registry n s ≡ answer success 0 (gone l)
  unfolding destroy_found release commands
  found_goes n l access last run = rw access (ground arith)

  unregistered_run :
      strtok saveptr ≡ (some text, rest)
      → handle_argument text ≡ some address
      → find_canvas_node address s.registry.canvases ≡ none
      → a.destroy_canvas address s.library ≡ none
      → handle_destroy_canvas a username saveptr s ≡ crash
  unfolding handle_destroy_canvas destroy_unregistered commands
  unregistered_run e h f none_left = ground arith

module _ (a : Library) (s : Server a.State) (address : ℕ) (username saveptr text rest : Text)
    (n : CanvasNode) (token : strtok saveptr ≡ (some text, rest))
    (handle : handle_argument text ≡ some address)
    (found : find_canvas_node address s.registry.canvases ≡ some n) (valid : NodeIsValid n) where
  -- When the argument is the handle of a registered canvas with a consistent node, a user with access
  -- who gives up the last reference destroys the canvas, if the library does so without a fault: it
  -- is registered no longer (each canvas having one node), no placement on it is, and other canvases
  -- stay registered as they are.
  pub destroy_canvas-last :
      (l : a.State)
      → AreUnique s.registry.canvases
      → client_has_canvas_access n username ≡ true
      → n.ref_count ≡ 1
      → a.destroy_canvas address s.library ≡ some (tt, l)
      → (t : Server a.State) × (handle_destroy_canvas a username saveptr s ≡ answer success 0 t)
        × (t.library ≡ l)
        × (find_canvas_node address t.registry.canvases ≡ none)
        × ((p : ℕ) (q : PlacementNode)
            → find_placement_node p t.registry.placements ≡ some q
            → q.canvas_handle ≢ address)
        × ((k : ℕ)
            → k ≢ address
            → find_canvas_node k t.registry.canvases ≡ find_canvas_node k s.registry.canvases)
  destroy_canvas-last l unique access last run = (
    gone a s address username saveptr text rest l,
    destroy_prefix a s address username saveptr text rest n token handle found
        ∙ found_goes a s address username saveptr text rest n l access (omega arith) run,
    refl,
    find-unlink address s.registry.canvases unique,
    λ p q. find_placement-delete address p s.registry.placements q,
    λ k ne. find-unlink_ne address k s.registry.canvases ne,
  )

  -- A user with access gives up the last reference to a registered canvas with a consistent node (each
  -- canvas having one node, and the library destroying it without a fault), and the same command is given
  -- again, by whichever user. Where destroying the canvas once more is undefined behaviour of the
  -- library, so is the second call: the handler passes the address on, since it is registered no longer,
  -- and asks for no right to it.
  pub destroy_canvas_twice :
      (l : a.State)
      → AreUnique s.registry.canvases
      → client_has_canvas_access n username ≡ true
      → n.ref_count ≡ 1
      → a.destroy_canvas address s.library ≡ some (tt, l)
      → a.destroy_canvas address l ≡ none
      → (t : Server a.State) × (handle_destroy_canvas a username saveptr s ≡ answer success 0 t)
        × ((other : Text) → handle_destroy_canvas a other saveptr t ≡ crash)
  destroy_canvas_twice l unique access last run freed =
      let (t, ends, same_library, unregistered, gone_too, others_same) =
        destroy_canvas-last l unique access last run in
      (
        t,
        ends,
        λ other.
            unregistered_run a t address other saveptr text rest token handle unregistered
              (ap (a.destroy_canvas address) same_library ∙ freed),
      )

  -- The owner of a registered canvas with a consistent node, which has two references and is shared
  -- with a collaborator, destroys it twice (each canvas having one node, and the library destroying it
  -- without a fault): the first call takes a reference
  -- but leaves the owner's access, so the second takes the collaborator's, and the library destroys
  -- the canvas although the collaborator had access to it until then and has not given it up.
  pub owner_destroys_twice :
      (collaborator : Text) (l : a.State)
      → same n.owner_username username ≡ true
      → n.ref_count ≡ 2
      → is_shared collaborator n.shared_usernames ≡ true
      → AreUnique s.registry.canvases
      → a.destroy_canvas address s.library ≡ some (tt, l)
      → (t : Server a.State) × (u : Server a.State) × (m : CanvasNode) × (handle_destroy_canvas a
            username saveptr s
          ≡ answer success 0 t)
        × (find_canvas_node address t.registry.canvases ≡ some m)
        × (client_has_canvas_access m collaborator ≡ true)
        × (handle_destroy_canvas a username saveptr t ≡ answer success 0 u)
        × (u.library ≡ l)
        × (find_canvas_node address u.registry.canvases ≡ none)
  owner_destroys_twice collaborator l owner two shared unique run =
      let m : CanvasNode = release username n in
      let t : Server a.State =
        with_canvases a s address username saveptr text rest
          (update_canvas_node address m s.registry.canvases) in
      let access : client_has_canvas_access n username ≡ true = owner_access n username owner in
      let found' : find_canvas_node address t.registry.canvases ≡ some m =
        find-update address address m n s.registry.canvases found
          (release_handle username n ∙ find_handle address n s.registry.canvases found)
        ∙ rw (==_refl address) in
      let access' : client_has_canvas_access m username ≡ true =
        release_owner_access username username n valid owner ∙ access in
      let one : m.ref_count ≤ 1 = omega (arith, release_count username n) in
      (
        t,
        gone a t address username saveptr text rest l,
        m,
        destroy_prefix a s address username saveptr text rest n token handle found
            ∙ found_stays a s address username saveptr text rest n access (omega arith),
        found',
        release_owner_access username collaborator n valid owner
            ∙ shared_access n collaborator shared,
        destroy_prefix a t address username saveptr text rest m token handle found'
            ∙ found_goes a t address username saveptr text rest m l access' one run,
        refl,
        find-unlink address t.registry.canvases (
            update-AreUnique address m s.registry.canvases unique
              (release_handle username n ∙ find_handle address n s.registry.canvases found)),
      )
