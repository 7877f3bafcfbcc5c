-- ===== src/Registry.antt =====
-- The global lists of animate-platform/shared.h and their helpers in animate-platform/registry.c.
-- A linked list is a list, its head first.
pub mod Lookup
pub mod All
use pointerpro_animate.Base.{
  ℕ, Bool, true, false, ◌||◌, Option, none, some, List, [], ◌∷◌, ◌==◌, if◌then◌else◌,
}
use pointerpro_animate.Text.{Text, same}

-- canvas_share_node_t. `shared_count` is the length of `shared_usernames`; `allocated` is the number
-- of entries of its memory block. `ref_count` is at least 1 while a node is in the list.
pub record CanvasNode : Type 0 where
  pub canvas_handle : ℕ
  pub owner_username : Text
  pub shared_usernames : List Text
  pub shared_capacity : ℕ
  pub allocated : ℕ
  pub ref_count : ℕ
  pub barrier_arrived_count : ℕ

-- sprite_node_t
pub record SpriteNode : Type 0 where
  pub sprite_handle : ℕ
  pub owner_username : Text

-- placement_node_t
pub record PlacementNode : Type 0 where
  pub placement_handle : ℕ
  pub canvas_handle : ℕ

pub record Registry : Type 0 where
  pub canvases : List CanvasNode
  pub sprites : List SpriteNode
  pub placements : List PlacementNode

unfoldable pub find_canvas_node : ℕ → List CanvasNode → Option CanvasNode
find_canvas_node handle [] = none
find_canvas_node handle (n ∷ ns) =
    if n.canvas_handle == handle then some n else find_canvas_node handle ns

unfoldable pub find_sprite_node : ℕ → List SpriteNode → Option SpriteNode
find_sprite_node handle [] = none
find_sprite_node handle (n ∷ ns) =
    if n.sprite_handle == handle then some n else find_sprite_node handle ns

unfoldable pub find_placement_node : ℕ → List PlacementNode → Option PlacementNode
find_placement_node handle [] = none
find_placement_node handle (n ∷ ns) =
    if n.placement_handle == handle then some n else find_placement_node handle ns

-- The loop over shared_usernames.
unfoldable pub is_shared : Text → List Text → Bool
is_shared username [] = false
is_shared username (u ∷ us) = same u username || is_shared username us

unfoldable pub client_has_canvas_access : CanvasNode → Text → Bool
unfolding is_shared
client_has_canvas_access n username =
    same n.owner_username username || is_shared username n.shared_usernames

unfoldable pub validate_placement_access : ℕ → Text → Registry → Bool
unfolding find_placement_node
validate_placement_access handle username r = elim (find_placement_node handle r.placements) [
  | none ↦ false
  | some p ↦ elim (find_canvas_node p.canvas_handle r.canvases) [
    | none ↦ false
    | some n ↦ client_has_canvas_access n username
  ]
]

unfoldable pub validate_sprite_access : ℕ → Text → Registry → Bool
validate_sprite_access handle username r = elim (find_sprite_node handle r.sprites) [
  | none ↦ false
  | some n ↦ same n.owner_username username
]

-- Every placement of the canvas goes from the list.
unfoldable pub canvas_node_delete : ℕ → List PlacementNode → List PlacementNode
canvas_node_delete address [] = []
canvas_node_delete address (n ∷ ns) =
    if n.canvas_handle == address
    then canvas_node_delete address ns
    else n ∷ canvas_node_delete address ns

-- A write through a pointer to the node that find_canvas_node finds.
unfoldable pub update_canvas_node : ℕ → CanvasNode → List CanvasNode → List CanvasNode
update_canvas_node handle m [] = []
update_canvas_node handle m (n ∷ ns) =
    if n.canvas_handle == handle then m ∷ ns else n ∷ update_canvas_node handle m ns

-- The node that find_canvas_node finds is unlinked.
unfoldable pub unlink_canvas_node : ℕ → List CanvasNode → List CanvasNode
unlink_canvas_node handle [] = []
unlink_canvas_node handle (n ∷ ns) =
    if n.canvas_handle == handle then ns else n ∷ unlink_canvas_node handle ns

unfoldable pub unlink_sprite_node : ℕ → List SpriteNode → List SpriteNode
unlink_sprite_node handle [] = []
unlink_sprite_node handle (n ∷ ns) =
    if n.sprite_handle == handle then ns else n ∷ unlink_sprite_node handle ns

unfoldable pub unlink_placement_node : ℕ → List PlacementNode → List PlacementNode
unlink_placement_node handle [] = []
unlink_placement_node handle (n ∷ ns) =
    if n.placement_handle == handle then ns else n ∷ unlink_placement_node handle ns
