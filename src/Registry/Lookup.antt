-- ===== src/Registry/Lookup.antt =====
-- Lookups in the global lists after the changes that the handlers make.
use pointerpro_animate.Base.{
  ℕ, ◌≡◌, refl, ◌≢◌, none, some, List, [], ◌∷◌, arith, ◌==◌, if◌then◌else◌,
}
use pointerpro_animate.Registry.{
  CanvasNode, PlacementNode, find_canvas_node, find_placement_node, update_canvas_node,
  unlink_canvas_node, canvas_node_delete,
}

-- A changed node is found under its handle, and no other lookup changes.
pub find-update :
    (h k : ℕ) (m n : CanvasNode) (ns : List CanvasNode)
    → find_canvas_node h ns ≡ some n
    → m.canvas_handle ≡ h
    → find_canvas_node k (update_canvas_node h m ns)
      ≡ (if k == h then some m else find_canvas_node k ns)
unfolding find_canvas_node update_canvas_node
find-update h k m n [] e same = absurd (cc)
find-update h k m n (x ∷ ns) e same = ground (arith, find-update h k m n ns)

pub find_handle :
    (h : ℕ) (n : CanvasNode) (ns : List CanvasNode)
    → find_canvas_node h ns ≡ some n
    → n.canvas_handle ≡ h
unfolding find_canvas_node
find_handle h n [] e = absurd (cc)
find_handle h n (x ∷ ns) e = ground (arith, find_handle h n ns)

-- The lookup of another canvas does not see an unlinked node.
pub find-unlink_ne :
    (h k : ℕ) (ns : List CanvasNode)
    → k ≢ h
    → find_canvas_node k (unlink_canvas_node h ns) ≡ find_canvas_node k ns
unfolding find_canvas_node unlink_canvas_node
find-unlink_ne h k [] ne = refl
find-unlink_ne h k (x ∷ ns) ne = ground (arith, find-unlink_ne h k ns)

-- Each canvas has one node.
abbrev pub AreUnique : List CanvasNode → Type 0
AreUnique [] = Unit
AreUnique (n ∷ ns) = (find_canvas_node n.canvas_handle ns ≡ none) × AreUnique ns

pub find-unlink :
    (h : ℕ) (ns : List CanvasNode)
    → AreUnique ns
    → find_canvas_node h (unlink_canvas_node h ns) ≡ none
unfolding find_canvas_node unlink_canvas_node
find-unlink h [] u = refl
find-unlink h (x ∷ ns) u = ground (arith, find-unlink h ns u.1, u.0)

-- After canvas_node_delete no placement of the canvas is found.
pub find_placement-delete :
    (c p : ℕ) (ns : List PlacementNode) (q : PlacementNode)
    → find_placement_node p (canvas_node_delete c ns) ≡ some q
    → q.canvas_handle ≢ c
unfolding find_placement_node canvas_node_delete
find_placement-delete c p [] q e = absurd (cc)
find_placement-delete c p (x ∷ ns) q e = λ same. ground (arith, find_placement-delete c p ns q)

-- A placement of another canvas is found as before.
pub find_placement-delete_ne :
    (c p : ℕ) (ns : List PlacementNode) (q : PlacementNode)
    → find_placement_node p ns ≡ some q
    → q.canvas_handle ≢ c
    → find_placement_node p (canvas_node_delete c ns) ≡ some q
unfolding find_placement_node canvas_node_delete
find_placement-delete_ne c p [] q e ne = absurd (cc)
find_placement-delete_ne c p (x ∷ ns) q e ne = ground (arith, find_placement-delete_ne c p ns q)
