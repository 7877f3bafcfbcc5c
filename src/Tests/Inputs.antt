-- ===== src/Tests/Inputs.antt =====
-- Two commands of a new client in three reads, answered in the wrong order.
use pointerpro_animate.Base.{◌≡◌, refl, subst, sym, some, List, [], ◌∷◌, ◌++◌, map, arith}
use pointerpro_animate.Text.{Text, codes}
use pointerpro_animate.Session.{Session, new_session}
use pointerpro_animate.Input.{Request, on_readable}
use pointerpro_animate.Input.Stream.{lines_of}
use mathlib.Core.List.{Permᴰ}
use pointerpro_animate.Input.Chunks.{receive_all, Arrives, concat}
use pointerpro_animate.Input.Delivery.{serve_all, receive_all-serve_all}

abbrev chunks : List Text
chunks =
    codes "Login al"
    ∷ (codes "ice" ++ (10 ∷ 10 ∷ codes "bar"))
    ∷ (codes "rier 5" ++ (10 ∷ codes "Dis"))
    ∷ []

chunks-Arrives : Arrives (new_session 77 []) chunks
unfolding new_session on_readable
chunks-Arrives = (
  omega arith,
  omega arith,
  refl,
  (omega arith, omega arith, refl, (omega arith, omega arith, refl, tt)),
)

abbrev requests : List Request
requests = (codes "barrier 5", 1) ∷ (codes "Login alice", 0) ∷ []

-- An answer that repeats the line.
abbrev echo : Text → Text
echo l = codes "> " ++ l

received :
    (receive_all chunks (new_session 77 [])).0
    ≡ (codes "Login alice", 0) ∷ (codes "barrier 5", 1) ∷ []
unfolding receive_all new_session on_readable
received = refl

out_of_order : Permᴰ (receive_all chunks (new_session 77 [])).0 requests
out_of_order =
    subst (λ (rs : List Request). Permᴰ rs requests) (sym received)
      (Permᴰ.swap {a = (codes "Login alice", 0)} {b = (codes "barrier 5", 1)} {l = []} refl refl)

receive_all-serve_all_example :
    (s : Session) × (serve_all echo requests (receive_all chunks (new_session 77 [])).1 ≡ some s)
    × (s.written ≡ map echo (lines_of (concat chunks)))
receive_all-serve_all_example =
    receive_all-serve_all echo chunks requests 77 [] chunks-Arrives (omega arith) out_of_order
