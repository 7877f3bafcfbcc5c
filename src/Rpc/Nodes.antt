-- ===== src/Rpc/Nodes.antt =====
-- The nodes of the canvas list are consistent, and the handlers of canvases keep them so.
use pointerpro_animate.Base.{
  none, ◌⊎◌, ℕ, ◌+◌, ◌≤◌, ◌<◌, ◌≡◌, refl, Bool, false, ◌||◌, List, [], ◌∷◌, ◌++◌, arith, leb,
  length, length-append, inl, inr,
}
use pointerpro_animate.Text.{Text, same, same-sym}
use pointerpro_animate.Registry.{
  CanvasNode, Registry, find_canvas_node, is_shared, client_has_canvas_access,
}
use pointerpro_animate.Registry.All.{All, find-All, update-All, unlink-All}
use pointerpro_animate.Library.{Library}
use pointerpro_animate.Rpc.{Server}
use pointerpro_animate.Rpc.After.{
  After, Keeps, keep_bind, keep_get, keep_put, keep_if, keep_or, keep_ensure, keep_respond,
  keep_call, keep_argument, keep_if_eq, keep_case,
}
use pointerpro_animate.Rpc.Canvas.{
  handle_create_canvas, handle_destroy_canvas, destroy_found, new_canvas_node, unshare, release,
  reserve, add_shared,
}

-- No user twice.
abbrev pub AreDistinct : List Text → Type 0
AreDistinct [] = Unit
AreDistinct (u ∷ us) = (is_shared u us ≡ false) × AreDistinct us

-- The owner is not among the shared users, who are distinct and within the memory of the array; and
-- the canvas is referenced, by no more than the owner and the shared users.
pub record NodeIsValid (n : CanvasNode) : Type 0 where
  pub owner_apart : is_shared n.owner_username n.shared_usernames ≡ false
  pub distinct : AreDistinct n.shared_usernames
  pub in_memory : length n.shared_usernames ≤ n.allocated
  pub in_capacity : n.allocated ≤ n.shared_capacity
  pub referenced : 1 ≤ n.ref_count
  pub bounded : n.ref_count ≤ 1 + length n.shared_usernames

abbrev pub IsValid : Registry → Type 0
IsValid r = All NodeIsValid r.canvases

pub new_canvas_node-NodeIsValid :
    (handle : ℕ) (username : Text) → NodeIsValid (new_canvas_node handle username)
unfolding is_shared
new_canvas_node-NodeIsValid handle username = record {
  owner_apart = refl;
  distinct = tt;
  in_memory = omega arith;
  in_capacity = omega arith;
  referenced = omega arith;
  bounded = omega arith;
}

-- Giving up a shared user.
is_shared-unshare :
    (u v : Text) (us : List Text) → is_shared u us ≡ false → is_shared u (unshare v us) ≡ false
unfolding is_shared unshare
is_shared-unshare u v [] h = refl
is_shared-unshare u v (w ∷ us) h = ground (arith, is_shared-unshare u v us)

unshare-AreDistinct : (v : Text) (us : List Text) → AreDistinct us → AreDistinct (unshare v us)
unfolding unshare
unshare-AreDistinct v [] d = tt
unshare-AreDistinct v (w ∷ us) d =
    ground (arith, unshare-AreDistinct v us, is_shared-unshare w v us)

length-unshare :
    (v : Text) (us : List Text)
    → (length (unshare v us) ≤ length us) × (length us ≤ 1 + length (unshare v us))
unfolding unshare
length-unshare v [] = (omega arith, omega arith)
length-unshare v (w ∷ us) = ground (arith, length-unshare v us)

pub release-NodeIsValid :
    (username : Text) (n : CanvasNode)
    → NodeIsValid n
    → leb (release username n).ref_count 0 ≡ false
    → NodeIsValid (release username n)
unfolding release
release-NodeIsValid username n v kept = record {
  owner_apart = is_shared-unshare n.owner_username username n.shared_usernames v.owner_apart;
  distinct = unshare-AreDistinct username n.shared_usernames v.distinct;
  in_memory = omega (arith, (length-unshare username n.shared_usernames).0, v.in_memory);
  in_capacity = v.in_capacity;
  referenced = ground arith;
  bounded = omega (arith, (length-unshare username n.shared_usernames).1, v.bounded);
}

pub reserve-NodeIsValid :
    (memory : Bool) (n : CanvasNode) → NodeIsValid n → NodeIsValid (reserve memory n).0
unfolding reserve
reserve-NodeIsValid memory n v = record {
  owner_apart = ground (arith, v.owner_apart);
  distinct = ground (arith, v.distinct);
  in_memory = ground arith;
  in_capacity = ground arith;
  referenced = ground arith;
  bounded = ground arith;
}

pub reserve_access :
    (memory : Bool) (n : CanvasNode) (username : Text)
    → client_has_canvas_access (reserve memory n).0 username ≡ client_has_canvas_access n username
unfolding reserve client_has_canvas_access
reserve_access memory n username = ground arith

pub is_shared-append :
    (u v : Text) (us : List Text) → is_shared u (us ++ v ∷ []) ≡ (is_shared u us || same v u)
unfolding is_shared
is_shared-append u v [] = ground arith
is_shared-append u v (w ∷ us) = ground (arith, is_shared-append u v us)

AreDistinct-append :
    (v : Text) (us : List Text)
    → AreDistinct us
    → is_shared v us ≡ false
    → AreDistinct (us ++ v ∷ [])
unfolding is_shared
AreDistinct-append v [] d out = (refl, tt)
AreDistinct-append v (w ∷ us) d out =
    ground (arith, is_shared-append w v us, AreDistinct-append v us d.1, same-sym v w)

pub add_shared-NodeIsValid :
    (username : Text) (n : CanvasNode)
    → NodeIsValid n
    → client_has_canvas_access n username ≡ false
    → length n.shared_usernames < n.allocated
    → NodeIsValid (add_shared username n)
unfolding client_has_canvas_access
add_shared-NodeIsValid username n v out room = record {
  owner_apart = ground (
    arith,
    is_shared-append n.owner_username username n.shared_usernames,
    same-sym n.owner_username username,
    v.owner_apart,
  );
  distinct = AreDistinct-append username n.shared_usernames v.distinct (ground arith);
  in_memory = omega (arith, length-append {0} n.shared_usernames (username ∷ []));
  in_capacity = v.in_capacity;
  referenced = omega (arith, v.referenced);
  bounded = omega (arith, length-append {0} n.shared_usernames (username ∷ []), v.bounded);
}

-- A fault of the library in creating or destroying a canvas.
abbrev pub CreateFaults : Library → Type 0
CreateFaults a =
    (height : ℕ) × (width : ℕ) × (color : ℕ) × (l : a.State) × (a.create_canvas height width color l
      ≡ none)

abbrev pub DestroyFaults : Library → Type 0
DestroyFaults a = (canvas : ℕ) × (l : a.State) × (a.destroy_canvas canvas l ≡ none)

module _ (a : Library) where
  create_canvas-Keeps :
      (memory : Bool) (username saveptr : Text)
      → Keeps IsValid
          (CreateFaults a ⊎ DestroyFaults a)
          (handle_create_canvas a memory username saveptr)
  unfolding handle_create_canvas
  create_canvas-Keeps memory username saveptr = keep_bind (keep_argument saveptr) λ w.
      keep_bind (keep_argument w.1) λ h. keep_bind (keep_argument h.1) λ c.
        keep_bind (keep_or _ _) λ width. keep_bind (keep_or _ _) λ height.
          keep_bind (keep_or _ _) λ color.
            keep_bind (keep_call _ (λ l e. inl (_, _, _, l, e))) λ canvas.
              keep_bind (keep_ensure _ _) λ _.
                keep_if memory
                  (keep_get λ r v.
                    keep_bind (keep_put _ (new_canvas_node-NodeIsValid canvas username, v))
                      λ _. keep_respond _)
                  (keep_bind (keep_call _ (λ l e. inr (_, l, e))) λ _. keep_respond _)

  -- Whatever its arguments and whether there is memory, handle_create_canvas returns with consistent
  -- canvas nodes if they were so before; its behaviour is undefined only if that of the library is, in
  -- creating or destroying a canvas.
  pub handle_create_canvas-IsValid :
      (memory : Bool) (username saveptr : Text) (s : Server a.State)
      → IsValid s.registry
      → After IsValid
          (CreateFaults a ⊎ DestroyFaults a)
          (handle_create_canvas a memory username saveptr s)
  handle_create_canvas-IsValid memory username saveptr s =
      (create_canvas-Keeps memory username saveptr).at s

  destroy_found-IsValid :
      (address : ℕ) (username : Text) (r : Registry) (n : CanvasNode)
      → IsValid r
      → NodeIsValid n
      → Keeps IsValid (DestroyFaults a) (destroy_found a address username r n)
  unfolding destroy_found
  destroy_found-IsValid address username r n v vn = keep_bind (keep_ensure _ _) λ _.
      keep_bind
        (keep_if_eq _
          (λ gone.
            keep_bind (keep_put _ (unlink-All NodeIsValid address r.canvases v))
              λ _. keep_bind (keep_call _ (λ l e. (_, l, e))) λ _. keep_get λ q vq. keep_put _ vq)
          (λ kept. keep_put _ (
            update-All NodeIsValid address _ r.canvases (release-NodeIsValid username n vn kept)
              v)))
        λ _. keep_respond _

  destroy_canvas-Keeps :
      (username saveptr : Text)
      → Keeps IsValid (DestroyFaults a) (handle_destroy_canvas a username saveptr)
  unfolding handle_destroy_canvas
  destroy_canvas-Keeps username saveptr = keep_bind (keep_argument saveptr) λ h.
      keep_bind (keep_or _ _) λ address. keep_get λ r v.
        keep_case (find_canvas_node address r.canvases)
          (keep_get λ q vq.
            keep_bind (keep_put _ vq)
              λ _. keep_bind (keep_call _ (λ l e. (_, l, e))) λ _. keep_respond _)
          λ n found.
            destroy_found-IsValid address username r n v
              (find-All NodeIsValid address r.canvases v found)

  -- Whatever its argument, handle_destroy_canvas returns with consistent canvas nodes if they were so
  -- before; its behaviour is undefined only if that of the library is, in destroying a canvas.
  pub handle_destroy_canvas-IsValid :
      (username saveptr : Text) (s : Server a.State)
      → IsValid s.registry
      → After IsValid (DestroyFaults a) (handle_destroy_canvas a username saveptr s)
  handle_destroy_canvas-IsValid username saveptr s = (destroy_canvas-Keeps username saveptr).at s
