-- ===== src/Registry/All.antt =====
-- What holds of every canvas node.
use pointerpro_animate.Base.{ℕ, ◌≡◌, some, List, [], ◌∷◌, arith, ◌==◌, Bool-cases, inl, inr, subst}
use pointerpro_animate.Registry.{
  CanvasNode, find_canvas_node, update_canvas_node, unlink_canvas_node,
}

module _ (P : CanvasNode → Type 0) where
  abbrev pub All : List CanvasNode → Type 0
  All [] = Unit
  All (n ∷ ns) = P n × All ns

  pub find-All :
      (handle : ℕ) (ns : List CanvasNode) {n : CanvasNode}
      → All ns
      → find_canvas_node handle ns ≡ some n
      → P n
  unfolding find_canvas_node
  find-All handle [] v e = absurd (cc)
  find-All handle (m ∷ ns) (vm, v) e = elim (Bool-cases (m.canvas_handle == handle)) [
    | inl hit ↦ subst P (ground arith) vm
    | inr miss ↦ find-All handle ns v (ground arith)
  ]

  pub update-All :
      (handle : ℕ) (m : CanvasNode) (ns : List CanvasNode)
      → P m
      → All ns
      → All (update_canvas_node handle m ns)
  unfolding update_canvas_node
  update-All handle m [] vm v = tt
  update-All handle m (n ∷ ns) vm v = elim (Bool-cases (n.canvas_handle == handle)) [
    | inl hit ↦ rw hit (vm, v.1)
    | inr miss ↦ rw miss (v.0, update-All handle m ns vm v.1)
  ]

  pub unlink-All : (handle : ℕ) (ns : List CanvasNode) → All ns → All (unlink_canvas_node handle ns)
  unfolding unlink_canvas_node
  unlink-All handle [] v = tt
  unlink-All handle (n ∷ ns) v = elim (Bool-cases (n.canvas_handle == handle)) [
    | inl hit ↦ rw hit v.1
    | inr miss ↦ rw miss (v.0, unlink-All handle ns v.1)
  ]
