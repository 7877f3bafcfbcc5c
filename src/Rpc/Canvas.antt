-- ===== src/Rpc/Canvas.antt =====
-- handle_create_canvas, handle_destroy_canvas and handle_share_canvas. `memory` says whether malloc
-- and realloc give memory in this call; strdup is taken to.
use pointerpro_animate.Base.{
  ℕ, ◌+◌, ◌-◌, ◌*◌, Bool, true, false, not, none, some, List, [], ◌∷◌, ◌++◌, ◌==◌, leb, ltb,
  if◌then◌else◌, length,
}
use pointerpro_animate.Text.{Text, same}
use pointerpro_animate.Registry.{
  CanvasNode, Registry, find_canvas_node, client_has_canvas_access, canvas_node_delete,
  update_canvas_node, unlink_canvas_node,
}
use pointerpro_animate.Library.{Library}
use pointerpro_animate.Rpc.{
  Server, crash, Handler, ◌>>=◌, ◌>>◌, value_error, internal_error, success, success_handle,
  respond, or_respond, ensure, call, get_registry, put_registry, next_argument, positive,
  nonnegative, handle_argument, copy_username, to_color,
}

abbrev pub new_canvas_node : ℕ → Text → CanvasNode
new_canvas_node handle username = record {
  canvas_handle = handle;
  owner_username = copy_username username;
  shared_usernames = [];
  shared_capacity = 0;
  allocated = 0;
  ref_count = 1;
  barrier_arrived_count = 0;
}

-- The first entry with this user goes, and those behind it move up.
unfoldable pub unshare : Text → List Text → List Text
unshare username [] = []
unshare username (u ∷ us) = if same u username then us else u ∷ unshare username us

-- The reference of a user is given up.
unfoldable pub release : Text → CanvasNode → CanvasNode
unfolding unshare
release username n = record n {
  ref_count = n.ref_count - 1;
  shared_usernames = unshare username n.shared_usernames;
}

-- Room for one more shared user: the capacity is raised before realloc is called. The flag says
-- whether there is room.
unfoldable pub reserve : Bool → CanvasNode → CanvasNode × Bool
reserve memory n =
    if leb n.shared_capacity (length n.shared_usernames)
    then (let capacity : ℕ = if n.shared_capacity == 0 then 4 else n.shared_capacity * 2 in
        if memory
        then (record n { shared_capacity = capacity; allocated = capacity }, true)
        else (record n { shared_capacity = capacity }, false))
    else (n, true)

abbrev pub add_shared : Text → CanvasNode → CanvasNode
add_shared username n = record n {
  shared_usernames = n.shared_usernames ++ username ∷ [];
  ref_count = n.ref_count + 1;
}

module _ (a : Library) where
  unfoldable pub handle_create_canvas :
      Bool → (username saveptr : Text) → Handler (Server a.State) (Unit {0})
  handle_create_canvas memory username saveptr = do
    (width_str, rest) ← next_argument saveptr
    (height_str, rest) ← next_argument rest
    (color_str, rest) ← next_argument rest
    width ← or_respond (positive width_str) value_error
    height ← or_respond (positive height_str) value_error
    color ← or_respond (nonnegative color_str) value_error
    new_canvas ← call (a.create_canvas height width (to_color color))
    ensure (not (new_canvas == 0)) internal_error
    if memory
        then (do
          r ← get_registry
          put_registry (record r { canvases = new_canvas_node new_canvas username ∷ r.canvases })
          respond (success_handle new_canvas))
        else (do call (a.destroy_canvas new_canvas); respond internal_error)

  -- What handle_destroy_canvas does with the node that it finds.
  unfoldable pub destroy_found :
      ℕ → Text → Registry → CanvasNode → Handler (Server a.State) (Unit {0})
  destroy_found canvas_address username r target_node = do
    ensure (client_has_canvas_access target_node username) value_error
    let n = release username target_node
    if leb n.ref_count 0
        then (do
          put_registry (record r { canvases = unlink_canvas_node canvas_address r.canvases })
          call (a.destroy_canvas canvas_address)
          q ← get_registry
          put_registry (record q { placements = canvas_node_delete canvas_address q.placements }))
        else put_registry (record r { canvases = update_canvas_node canvas_address n r.canvases })
    respond success

  -- And what it does with an address that is not registered.
  unfoldable pub destroy_unregistered : ℕ → Handler (Server a.State) (Unit {0})
  destroy_unregistered canvas_address = do
    r ← get_registry
    put_registry (record r { placements = canvas_node_delete canvas_address r.placements })
    call (a.destroy_canvas canvas_address)
    respond success

  unfoldable pub handle_destroy_canvas :
      (username saveptr : Text) → Handler (Server a.State) (Unit {0})
  unfolding destroy_unregistered
  handle_destroy_canvas username saveptr = do
    (canvas_handle_str, rest) ← next_argument saveptr
    canvas_address ← or_respond (handle_argument canvas_handle_str) value_error
    r ← get_registry
    elim (find_canvas_node canvas_address r.canvases) [
      | none ↦ destroy_unregistered canvas_address
      | some target_node ↦ destroy_found canvas_address username r target_node
    ]

  -- What handle_share_canvas does with the node that it finds.
  unfoldable pub share_found :
      Bool
      → ℕ
      → (username target_username : Text) → Registry
      → CanvasNode
      → Handler (Server a.State) (Unit {0})
  share_found memory canvas_address username target_username r target_node = do
    ensure (client_has_canvas_access target_node username) value_error
    if client_has_canvas_access target_node target_username then respond success else (do
      let reserved = reserve memory target_node
      put_registry (record r { canvases = update_canvas_node canvas_address reserved.0 r.canvases })
      ensure reserved.1 internal_error
      (if ltb (length reserved.0.shared_usernames) reserved.0.allocated
          then put_registry (record r {
            canvases =
                update_canvas_node canvas_address (add_shared target_username reserved.0)
                  r.canvases;
          })
          else λ s. crash)
      respond success)

  -- `authorised` is valid_authorised_username, which reads users.txt.
  unfoldable pub handle_share_canvas :
      Bool → (Text → Bool) → (username saveptr : Text) → Handler (Server a.State) (Unit {0})
  handle_share_canvas memory authorised username saveptr = do
    (canvas_handle_str, rest) ← next_argument saveptr
    (target_username, rest) ← next_argument rest
    ensure (authorised target_username) value_error
    canvas_address ← or_respond (handle_argument canvas_handle_str) value_error
    ensure (leb (length target_username) 32) value_error
    r ← get_registry
    target_node ← or_respond (find_canvas_node canvas_address r.canvases) value_error
    share_found memory canvas_address username target_username r target_node
