-- ===== src/Input/Delivery.antt =====
-- From a client's lines to its answers: the requests get tickets, workers answer them in any order, and
-- the answers leave in the order of the lines.
use mathlib.Core.List.{Permᴰ}
use pointerpro_animate.Base.{
  ℕ, zero, suc, ◌+◌, ◌^◌, ◌<◌, ◌≡◌, refl, ap, sym, subst, ◌∙◌, Option, none, some, List, [], ◌∷◌,
  ◌++◌, map, ◌≤◌, length, ltb, leb, ◌&&◌, true, false, inl, inr, Option-cases, arith,
}
use pointerpro_animate.Text.{Text}
use pointerpro_animate.Session.{Session, new_session, slot, send_ordered_response}
use pointerpro_animate.Input.{Request}
use pointerpro_animate.Session.Order.{has, responses}
use pointerpro_animate.Session.Delivery.{
  plenty, send_all, IsFresh, Delivered, send_all-Delivered, has-after, Holds-all,
}
use pointerpro_animate.Input.Stream.{lines_of, partial_line, number}
use pointerpro_animate.Input.Chunks.{receive_all, Arrives, concat, receive_all-lines}

-- A session to which nothing has been answered.
quiet-Delivered :
    (r : ℕ → Text) (pid n : ℕ) (garbage left : Text)
    → Delivered r [] (record (new_session pid garbage) { read_buf = left; next_ticket = n })
unfolding new_session slot
quiet-Delivered r pid n garbage left = (
  record {
    sent = 0;
    in_order = refl;
    not_more = omega arith;
    all_sent = inr refl;
    pending = λ i. refl;
    answered = λ i h. absurd (omega arith);
  },
  refl,
)

abbrev pub tickets_of : List Request → List ℕ
tickets_of [] = []
tickets_of ((l, t) ∷ rs) = t ∷ tickets_of rs

-- Workers take the requests one after the other, and answer a line `l` by `f l` with its ticket.
pub serve_all : (Text → Text) → List Request → Session → Option Session
serve_all f [] s = some s
serve_all f ((l, t) ∷ rs) s = elim (send_ordered_response plenty t (f l) s) [
  | none ↦ none
  | some s' ↦ serve_all f rs s'
]

abbrev answer_at : (Text → Text) → List Text → ℕ → Text
answer_at f [] i = []
answer_at f (l ∷ ls) zero = f l
answer_at f (l ∷ ls) (suc i) = answer_at f ls i

-- `r` has the answers to the requests, whose tickets are below `top`.
abbrev Answers : (ℕ → Text) → (Text → Text) → ℕ → List Request → Type 0
Answers r f top [] = Unit
Answers r f top ((l, t) ∷ rs) = (r t ≡ f l) × (t < top) × Answers r f top rs

abbrev AreDistinct : List Request → Type 0
AreDistinct [] = Unit
AreDistinct ((l, t) ∷ rs) = (has t (tickets_of rs) ≡ false) × AreDistinct rs

serve_all-Answers :
    (r : ℕ → Text) (f : Text → Text) (top : ℕ) (rs : List Request) (s : Session)
    → Answers r f top rs
    → serve_all f rs s ≡ send_all r (tickets_of rs) s
unfolding serve_all send_all
serve_all-Answers r f top [] s answers = refl
serve_all-Answers r f top ((l, t) ∷ rs) s (same, low, answers) =
    elim (Option-cases (send_ordered_response plenty t (r t) s)) [
      | inl e ↦ rw (serve_all, send_all, sym same, e) refl
      | inr (s', e) ↦
          rw (serve_all, send_all, sym same, e) (serve_all-Answers r f top rs s' answers)
    ]

has-tickets :
    (i : ℕ) {rs qs : List Request} → Permᴰ rs qs → has i (tickets_of rs) ≡ has i (tickets_of qs)
has-tickets i Permᴰ.nil = refl
has-tickets i (Permᴰ.cons {a = (l, t)} {b = (m, u)} e p) =
    let same : t ≡ u = ap (λ (q : Request). q.1) e in ground (arith, has-tickets i p)
has-tickets i (Permᴰ.swap {a = (l, t)} {b = (m, u)} {a' = (l', t')} {b' = (m', u')} e d) =
    let same : t ≡ u' = ap (λ (q : Request). q.1) e in
    let other : u ≡ t' = ap (λ (q : Request). q.1) d in ground arith
has-tickets i (Permᴰ.trans p q) = has-tickets i p ∙ has-tickets i q

AreDistinct-perm : {rs qs : List Request} → Permᴰ rs qs → AreDistinct rs → AreDistinct qs
AreDistinct-perm Permᴰ.nil d = tt
AreDistinct-perm (Permᴰ.cons {a = (l, t)} {b = (m, u)} e p) (new, d) =
    let same : t ≡ u = ap (λ (q : Request). q.1) e in
    (rw (has-tickets t p, same) at new, AreDistinct-perm p d)
AreDistinct-perm (Permᴰ.swap {a = (l, t)} {b = (m, u)} {a' = (l', t')} {b' = (m', u')} e d)
      (new, later) =
    let same : t ≡ u' = ap (λ (q : Request). q.1) e in
    let other : u ≡ t' = ap (λ (q : Request). q.1) d in
    let newer = later.0 in (ground arith, (ground arith, later.1))
AreDistinct-perm (Permᴰ.trans p q) d = AreDistinct-perm q (AreDistinct-perm p d)

module _ (r : ℕ → Text) (f : Text → Text) (top : ℕ) where
  Answers-perm : {rs qs : List Request} → Permᴰ rs qs → Answers r f top rs → Answers r f top qs
  Answers-perm Permᴰ.nil h = tt
  Answers-perm (Permᴰ.cons {a = a} {b = b} e p) (h, low, rest) = (
    subst (λ (q : Request). r q.1 ≡ f q.0) e h,
    subst (λ (q : Request). q.1 < top) e low,
    Answers-perm p rest,
  )
  Answers-perm (Permᴰ.swap e d) (h, low, later) = (
    subst (λ (q : Request). r q.1 ≡ f q.0) d later.0,
    subst (λ (q : Request). q.1 < top) d later.1,
    (subst (λ (q : Request). r q.1 ≡ f q.0) e h, subst (λ (q : Request). q.1 < top) e low, later.2),
  )
  Answers-perm (Permᴰ.trans p q) h = Answers-perm q (Answers-perm p h)

  Answers-IsFresh :
      (rs : List Request) (done : List ℕ)
      → top + 7 < 2 ^ 32
      → Answers r f top rs
      → AreDistinct rs
      → ((i : ℕ) → has i (tickets_of rs) ≡ true → has i done ≡ false)
      → IsFresh done (tickets_of rs)
  Answers-IsFresh [] done small h d apart = tt
  Answers-IsFresh ((l, t) ∷ rs) done small (h, low, rest) (new, d) apart = (
    omega arith,
    apart t (ground arith),
    Answers-IsFresh rs (t ∷ done) small rest d (λ i inside. ground (arith, apart i)),
  )

has-number :
    (i k : ℕ) (ls : List Text)
    → has i (tickets_of (number k ls)) ≡ (leb k i && ltb i (k + length ls))
has-number i k [] = ground arith
has-number i k (l ∷ ls) = ground (arith, has-number i (k + 1) ls)

AreDistinct-number : (k : ℕ) (ls : List Text) → AreDistinct (number k ls)
AreDistinct-number k [] = tt
AreDistinct-number k (l ∷ ls) =
    (ground (arith, has-number k (k + 1) ls), AreDistinct-number (k + 1) ls)

answer_at-number :
    (f : Text → Text) (ls : List Text) (top k : ℕ) (r : ℕ → Text)
    → ((i : ℕ) → r (k + i) ≡ answer_at f ls i)
    → k + length ls ≤ top
    → Answers r f top (number k ls)
answer_at-number f [] top k r e low = tt
answer_at-number f (l ∷ ls) top k r e low = (
  ap r (omega arith) ∙ e 0,
  omega arith,
  answer_at-number f ls top (k + 1) r (λ i. ap r (omega arith) ∙ e (suc i)) (omega arith),
)

responses-suc : (r : ℕ → Text) (n : ℕ) → responses r (suc n) ≡ r 0 ∷ responses (λ i. r (suc i)) n
responses-suc r zero = refl
responses-suc r (suc n) = ap (λ (l : List Text). l ++ r (suc n) ∷ []) (responses-suc r n)

responses-answer_at :
    (f : Text → Text) (ls : List Text) → responses (answer_at f ls) (length ls) ≡ map f ls
responses-answer_at f [] = refl
responses-answer_at f (l ∷ ls) =
    responses-suc (answer_at f (l ∷ ls)) (length ls)
    ∙ ap (λ (t : List Text). f l ∷ t) (responses-answer_at f ls)

-- The bytes of a new client arrive in reads that find some bytes, none of them NUL, and no more
-- than there is space for, with fewer than 2^32 - 7 lines that are not empty. When workers take the
-- requests pushed for them, each once, in any order, and answer a request whose line is `l` by `f l`
-- with the request's ticket, with memory at hand, no answer is written outside the array and what the client
-- gets is `f` of its lines that are not empty, in their order, all of them and nothing else.
pub receive_all-serve_all :
    (f : Text → Text) (chunks : List Text) (rs : List Request) (pid : ℕ) (garbage : Text)
    → Arrives (new_session pid garbage) chunks
    → length (lines_of (concat chunks)) + 7 < 2 ^ 32
    → Permᴰ (receive_all chunks (new_session pid garbage)).0 rs
    → (s : Session) × (serve_all f rs (receive_all chunks (new_session pid garbage)).1 ≡ some s)
      × (s.written ≡ map f (lines_of (concat chunks)))
unfolding new_session
receive_all-serve_all f chunks rs pid garbage arrives few order =
    let lines = lines_of (concat chunks) in
    let n = length lines in
    let r : ℕ → Text = answer_at f lines in
    let t : Session = record (new_session pid garbage) {
      read_buf = partial_line (concat chunks);
      next_ticket = n;
    } in
    let received = receive_all-lines chunks pid garbage arrives (omega (arith, few)) in
    let taken : Permᴰ (number 0 lines) rs =
      subst (λ (q : List Request × Session). Permᴰ q.0 rs) received order in
    let answers : Answers r f n rs =
      Answers-perm r f n taken
        (answer_at-number f lines n 0 r (λ i. ap r (omega arith)) (omega arith)) in
    let exact : (i : ℕ) → has i (tickets_of rs) ≡ ltb i n =
      λ i. sym (has-tickets i taken) ∙ has-number i 0 lines ∙ ground arith in
    let (s, sent, end, quiet) =
      send_all-Delivered r [] (tickets_of rs) t
        (quiet-Delivered r pid n garbage (partial_line (concat chunks)))
        (Answers-IsFresh r f n rs [] few answers
          (AreDistinct-perm taken (AreDistinct-number 0 lines)) (λ i h. refl)) in
    let last : s.next_response_ticket ≡ n = ground (
      arith,
      end.0.answered n,
      end.1,
      has-after n [] (tickets_of rs),
      has-after s.next_response_ticket [] (tickets_of rs),
      exact n,
      exact s.next_response_ticket,
    ) in
    (
      s,
      ap (λ (q : List Request × Session). serve_all f rs q.1) received
          ∙ serve_all-Answers r f n rs t answers
          ∙ sent,
      Holds-all r _ end.0 quiet.same_active ∙ ap (responses r) last ∙ responses-answer_at f lines,
    )
