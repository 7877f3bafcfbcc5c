-- ===== src/Poll/Cleanup.antt =====
-- The sessions that cleanup_inactive_sessions leaves, and the barrier.
use pointerpro_animate.Base.{
  ◌++◌, ap, length, take, ℕ, some, ◌≡◌, refl, true, Option-cases, List, [], ◌∷◌, arith, inl, inr,
}
use pointerpro_animate.Text.{Text, strtok}
use pointerpro_animate.Session.{Session}
use pointerpro_animate.Registry.{CanvasNode, find_canvas_node}
use pointerpro_animate.Rpc.{Server, commands, handle_argument}
use pointerpro_animate.Barrier.{expected_active_sharers, handle_barrier}
use pointerpro_animate.Poll.{Table, cleanup_inactive_sessions}
use pointerpro_animate.Poll.Compact.{
  without_inactive, actives, Holding, IsTable, cleaned, cleanup_run, freed-Holding,
}

abbrev pub AreActive : List Session → Type 0
AreActive [] = Unit
AreActive (s ∷ sessions) = (s.active ≡ true) × AreActive sessions

cleanup-AreActive : (sessions : List Session) → AreActive (without_inactive sessions)
unfolding without_inactive
cleanup-AreActive [] = tt
cleanup-AreActive (s ∷ sessions) = ground (arith, cleanup-AreActive sessions)

cleanup_expected :
    (n : CanvasNode) (sessions : List Session)
    → expected_active_sharers n (without_inactive sessions) ≡ expected_active_sharers n sessions
unfolding without_inactive expected_active_sharers
cleanup_expected n [] = refl
cleanup_expected n (s ∷ sessions) = ground (arith, cleanup_expected n sessions)

same_barrier :
    {L : Type 0} (sessions : List Session) (username saveptr : Text) (s : Server L)
    → handle_barrier (without_inactive sessions) username saveptr s
      ≡ handle_barrier sessions username saveptr s
unfolding handle_barrier commands
same_barrier sessions username saveptr s = elim (Option-cases (strtok saveptr).0) [
  | inl missing ↦ ground arith
  | inr (text, token) ↦ elim (Option-cases (handle_argument text)) [
    | inl malformed ↦ ground arith
    | inr (address, handle) ↦ elim (Option-cases (find_canvas_node address s.registry.canvases)) [
      | inl unknown ↦ ground arith
      | inr (n, found) ↦ ground (arith, cleanup_expected n sessions)
    ]
  ]
]

pub take-append : (xs ys : List ℕ) → take (length xs) (xs ++ ys) ≡ xs
take-append [] ys = refl
take-append (x ∷ xs) ys = ap (λ (t : List ℕ). x ∷ t) (take-append xs ys)

-- The sessions `ss` stand in active_sessions at distinct addresses `ps`. cleanup_inactive_sessions
-- ends, and then exactly the active ones stand in the array, in the same order and as they were;
-- and handle_barrier does the same before it and after, whoever calls it, with whatever argument, and in
-- whatever state of the server.
pub cleanup_inactive_sessions-handle_barrier :
    {L : Type 0} (t : Table) (ps : List ℕ) (ss : List Session)
    → IsTable t ps ss
    → (username saveptr : Text) (server : Server L)
    → (t' : Table) × (cleanup_inactive_sessions t ≡ some t')
      × (take t'.count t'.slots ≡ actives ps ss)
      × Holding t'.sessions (actives ps ss) (without_inactive ss)
      × AreActive (without_inactive ss)
      × (handle_barrier (without_inactive ss) username saveptr server
          ≡ handle_barrier ss username saveptr server)
cleanup_inactive_sessions-handle_barrier t ps ss v username saveptr server = (
  cleaned t ps ss,
  cleanup_run t ps ss v,
  take-append (actives ps ss) _,
  freed-Holding ps ss t.sessions v.apart v.holding,
  cleanup-AreActive ss,
  same_barrier ss username saveptr server,
)
