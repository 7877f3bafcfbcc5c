-- ===== src/Rpc/Sharing.antt =====
-- handle_share_canvas: who has access to the canvas afterwards, and where it goes wrong.
use pointerpro_animate.Base.{
  sym, Bool-cases, inl, inr, ℕ, ◌≤◌, ◌<◌, ◌≡◌, ◌≢◌, refl, ◌∙◌, Bool, true, false, some, List, arith,
  ◌==◌, leb, length, ==_refl,
}
use pointerpro_animate.Text.{Text, strtok}
use pointerpro_animate.Registry.{
  CanvasNode, find_canvas_node, client_has_canvas_access, update_canvas_node,
}
use pointerpro_animate.Registry.Lookup.{find-update, find_handle}
use pointerpro_animate.Library.{Library}
use pointerpro_animate.Rpc.{Server, answer, crash, commands, internal_error, handle_argument}
use pointerpro_animate.Rpc.Canvas.{
  handle_destroy_canvas, handle_share_canvas, destroy_found, share_found, reserve,
}

module _ (a : Library) (s : Server a.State) (address : ℕ) (username saveptr text rest : Text) where
  -- The run of handle_destroy_canvas up to the node.
  pub destroy_prefix :
      (n : CanvasNode)
      → strtok saveptr ≡ (some text, rest)
      → handle_argument text ≡ some address
      → find_canvas_node address s.registry.canvases ≡ some n
      → handle_destroy_canvas a username saveptr s ≡ destroy_found a address username s.registry n s
  unfolding handle_destroy_canvas commands
  destroy_prefix n e h f = ground arith

  share_prefix :
      (memory : Bool) (authorised : Text → Bool) (target more : Text) (n : CanvasNode)
      → strtok saveptr ≡ (some text, rest)
      → strtok rest ≡ (some target, more)
      → authorised target ≡ true
      → length target ≤ 32
      → handle_argument text ≡ some address
      → find_canvas_node address s.registry.canvases ≡ some n
      → handle_share_canvas a memory authorised username saveptr s
        ≡ share_found a memory address username target s.registry n s
  unfolding handle_share_canvas commands
  share_prefix memory authorised target more n e e' au short h f =
      let fits : leb (length target) 32 ≡ true = ground arith in ground arith

  -- What the handler leaves when it has answered: the library as it was, and these canvas nodes.
  abbrev pub with_canvases : List CanvasNode → Server a.State
  with_canvases ns = record s { registry = record s.registry { canvases = ns } }

  share_found_fails :
      (target : Text) (n m : CanvasNode)
      → client_has_canvas_access n username ≡ true
      → client_has_canvas_access n target ≡ false
      → reserve false n ≡ (m, false)
      → share_found a false address username target s.registry n s
        ≡ answer internal_error 0 (with_canvases (update_canvas_node address m s.registry.canvases))
  unfolding share_found commands
  share_found_fails target n m access new fails = rw (access, new, fails) (ground arith)

  overflow :
      (memory : Bool) (target : Text) (n : CanvasNode)
      → client_has_canvas_access n username ≡ true
      → client_has_canvas_access n target ≡ false
      → length n.shared_usernames ≡ n.allocated
      → reserve memory n ≡ (n, true)
      → share_found a memory address username target s.registry n s ≡ crash
  unfolding share_found commands
  overflow memory target n access new full keep = rw (access, new, keep) (ground arith)

raised_access :
    (n : CanvasNode) (capacity : ℕ) (v : Text)
    → client_has_canvas_access (record n { shared_capacity = capacity }) v
      ≡ client_has_canvas_access n v
unfolding client_has_canvas_access
raised_access n capacity v = refl

reserve_keep :
    (memory : Bool) (n : CanvasNode)
    → length n.shared_usernames < n.shared_capacity
    → reserve memory n ≡ (n, true)
unfolding reserve
reserve_keep memory n less = ground arith

pub ne→== : (a b : ℕ) → a ≢ b → (a == b) ≡ false
ne→== a b ne = ground arith

-- After the registry's canvas nodes change to `ns`, all else is as it was.
abbrev pub SameButCanvases : {L : Type 0} → Server L → Server L → Type 0
SameButCanvases s t =
    (t.library ≡ s.library)
    × (t.registry.sprites ≡ s.registry.sprites)
    × (t.registry.placements ≡ s.registry.placements)
    × (t.outputs ≡ s.outputs)

-- The capacity that is raised before realloc is asked.
reserve_fails :
    (n : CanvasNode)
    → length n.shared_usernames ≡ n.shared_capacity
    → (length n.shared_usernames < (reserve false n).0.shared_capacity)
      × (reserve false n
          ≡ (record n { shared_capacity = (reserve false n).0.shared_capacity }, false))
unfolding reserve
reserve_fails n full = elim (Bool-cases (n.shared_capacity == 0)) [
  | inl empty ↦ (ground arith, ground arith)
  | inr more ↦ (ground arith, ground arith)
]

-- The array of the shared users of a registered canvas is full, as that of a new canvas is: a user
-- with access shares it with an authorised user who has none, and whose name has at most 32
-- characters, and realloc fails. The handler answers "-3" and gives nobody access, but the same command
-- given again then writes outside the array, whether there is memory or not.
pub share_canvas_overflow :
    (a : Library) (s : Server a.State) (address : ℕ) (username saveptr text rest target more : Text)
    (authorised : Text → Bool) (n : CanvasNode)
    → strtok saveptr ≡ (some text, rest)
    → strtok rest ≡ (some target, more)
    → authorised target ≡ true
    → length target ≤ 32
    → handle_argument text ≡ some address
    → find_canvas_node address s.registry.canvases ≡ some n
    → client_has_canvas_access n username ≡ true
    → client_has_canvas_access n target ≡ false
    → n.allocated ≡ n.shared_capacity
    → length n.shared_usernames ≡ n.shared_capacity
    → (t : Server a.State) × (m : CanvasNode) × (handle_share_canvas a false authorised username
          saveptr s
        ≡ answer internal_error 0 t)
      × (find_canvas_node address t.registry.canvases ≡ some m)
      × ((v : Text) → client_has_canvas_access m v ≡ client_has_canvas_access n v)
      × SameButCanvases s t
      × ((memory : Bool) → handle_share_canvas a memory authorised username saveptr t ≡ crash)
share_canvas_overflow a s address username saveptr text rest target more authorised n e e' au short
      h f access new allocated full =
    let m : CanvasNode = record n { shared_capacity = (reserve false n).0.shared_capacity } in
    let (larger, raised) = reserve_fails n full in
    let t : Server a.State =
      with_canvases a s address username saveptr text rest
        (update_canvas_node address m s.registry.canvases) in
    let found : find_canvas_node address t.registry.canvases ≡ some m =
      find-update address address m n s.registry.canvases f
        (find_handle address n s.registry.canvases f)
      ∙ rw (==_refl address) in
    (
      t,
      m,
      share_prefix a s address username saveptr text rest false authorised target more n e e' au
            short h f
          ∙ share_found_fails a s address username saveptr text rest target n m access new raised,
      found,
      raised_access n _,
      (refl, refl, refl, refl),
      λ memory.
          share_prefix a t address username saveptr text rest memory authorised target more m e e'
            au short h found
          ∙ overflow a t address username saveptr text rest memory target m
              (raised_access n _ username ∙ access) (raised_access n _ target ∙ new)
              (full ∙ sym allocated) (reserve_keep memory m larger),
    )
