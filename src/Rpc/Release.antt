-- ===== src/Rpc/Release.antt =====
-- Giving up a canvas: the node that `release` leaves, and the list of nodes after it.
use pointerpro_animate.Base.{
  ℕ, ◌-◌, ◌≡◌, refl, ap, subst, true, false, ◌||◌, ◌&&◌, not, none, List, [], ◌∷◌, arith, ◌==◌,
  Bool-cases, inl, inr,
}
use pointerpro_animate.Text.{Text, same, same-eq}
use pointerpro_animate.Registry.{
  CanvasNode, find_canvas_node, is_shared, client_has_canvas_access, update_canvas_node,
}
use pointerpro_animate.Registry.Lookup.{AreUnique}
use pointerpro_animate.Rpc.Canvas.{unshare, release}
use pointerpro_animate.Rpc.Nodes.{NodeIsValid, AreDistinct}

pub is_shared-unshare_ne :
    (u v : Text) (us : List Text) → same u v ≡ false → is_shared v (unshare u us) ≡ is_shared v us
unfolding is_shared unshare
is_shared-unshare_ne u v [] ne = refl
is_shared-unshare_ne u v (w ∷ us) ne = elim (Bool-cases (same w u)) [
  | inl hit ↦ rw (hit, same-eq w u hit, ne)
  | inr miss ↦ rw (miss, is_shared) (ap (λ b. same w v || b) (is_shared-unshare_ne u v us ne))
]

pub is_shared-unshare_self :
    (u : Text) (us : List Text) → AreDistinct us → is_shared u (unshare u us) ≡ false
unfolding is_shared unshare
is_shared-unshare_self u [] d = refl
is_shared-unshare_self u (w ∷ us) d = elim (Bool-cases (same w u)) [
  | inl hit ↦ rw hit (subst (λ x. is_shared x us ≡ false) (same-eq w u hit) d.0)
  | inr miss ↦ rw (miss, is_shared) (rw miss (is_shared-unshare_self u us d.1))
]

pub owner_access :
    (n : CanvasNode) (username : Text)
    → same n.owner_username username ≡ true
    → client_has_canvas_access n username ≡ true
unfolding client_has_canvas_access
owner_access n username h = ground arith

pub shared_access :
    (n : CanvasNode) (username : Text)
    → is_shared username n.shared_usernames ≡ true
    → client_has_canvas_access n username ≡ true
unfolding client_has_canvas_access
shared_access n username h = ground arith

pub find_none-update :
    (h k : ℕ) (m : CanvasNode) (ns : List CanvasNode)
    → m.canvas_handle ≡ h
    → find_canvas_node k ns ≡ none
    → find_canvas_node k (update_canvas_node h m ns) ≡ none
unfolding find_canvas_node update_canvas_node
find_none-update h k m [] e f = refl
find_none-update h k m (x ∷ ns) e f = ground (arith, find_none-update h k m ns)

pub update-AreUnique :
    (h : ℕ) (m : CanvasNode) (ns : List CanvasNode)
    → AreUnique ns
    → m.canvas_handle ≡ h
    → AreUnique (update_canvas_node h m ns)
unfolding update_canvas_node
update-AreUnique h m [] u e = tt
update-AreUnique h m (x ∷ ns) u e = elim (Bool-cases (x.canvas_handle == h)) [
  | inl hit ↦ rw hit (subst (λ k. find_canvas_node k ns ≡ none) (ground arith) u.0, u.1)
  | inr miss ↦
      rw miss (find_none-update h x.canvas_handle m ns e u.0, update-AreUnique h m ns u.1 e)
]

pub unshare_absent : (u : Text) (us : List Text) → is_shared u us ≡ false → unshare u us ≡ us
unfolding is_shared unshare
unshare_absent u [] h = refl
unshare_absent u (w ∷ us) h = ground (arith, unshare_absent u us)

pub release_handle :
    (username : Text) (n : CanvasNode) → (release username n).canvas_handle ≡ n.canvas_handle
unfolding release
release_handle username n = refl

pub release_count :
    (username : Text) (n : CanvasNode) → (release username n).ref_count ≡ n.ref_count - 1
unfolding release
release_count username n = refl

pub release_access :
    (username v : Text) (n : CanvasNode)
    → NodeIsValid n
    → same n.owner_username username ≡ false
    → client_has_canvas_access (release username n) v
      ≡ (client_has_canvas_access n v && not (same username v))
unfolding client_has_canvas_access release
release_access username v n valid other = elim (Bool-cases (same username v)) [
  | inl e ↦
      let uv : username ≡ v = same-eq username v e in
      rw
        (
          e,
          subst (λ x. same n.owner_username x ≡ false) uv other,
          subst (λ x. is_shared x (unshare username n.shared_usernames) ≡ false) uv
              (is_shared-unshare_self username n.shared_usernames valid.distinct),
        )
        (ground arith)
  | inr e ↦ rw (e, is_shared-unshare_ne username v n.shared_usernames e) (ground arith)
]

pub release_owner_access :
    (username v : Text) (n : CanvasNode)
    → NodeIsValid n
    → same n.owner_username username ≡ true
    → client_has_canvas_access (release username n) v ≡ client_has_canvas_access n v
unfolding client_has_canvas_access release
release_owner_access username v n valid owner = rw (
    unshare_absent username n.shared_usernames (
      subst (λ x. is_shared x n.shared_usernames ≡ false) (same-eq n.owner_username username owner)
        valid.owner_apart))
