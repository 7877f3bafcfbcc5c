-- ===== src/Session/Order.antt =====
-- The loop and the array of send_ordered_response.
use pointerpro_animate.Base.{
  ℕ, zero, suc, ◌+◌, ◌-◌, ◌≤◌, ◌<◌, ◌≡◌, refl, ◌∙◌, Bool, true, false, ◌&&◌, Option, none, some,
  List, [], ◌∷◌, ◌++◌, arith, leb, ◌==◌, if◌then◌else◌, inl, inr, ap, ◌⊎◌, Bool-cases, length, set,
  take, replicate, length-set, length-append, length-replicate, length-take, take-all,
  get_elem?-beyond, Option-cases,
}
use native.Mathlib.Numerals.{add-one}
use pointerpro_animate.Text.{Text}
use pointerpro_animate.Session.{Session, slot, resize, flush}

-- Membership of a ticket in a list.
abbrev pub has : ℕ → List ℕ → Bool
has i [] = false
has i (t ∷ ts) = if i == t then true else has i ts

-- The responses to the tickets below n, in order.
abbrev pub responses : (ℕ → Text) → ℕ → List Text
responses r zero = []
responses r (suc n) = responses r n ++ r n ∷ []

pub slot-set :
    (xs : List (Option Text)) (t i : ℕ) (v : Option Text)
    → t < length xs
    → slot (set xs t v) i ≡ (if i == t then v else slot xs i)
unfolding slot
slot-set [] t i v h = elim h [ ]
slot-set (x ∷ xs) zero zero v h = refl
slot-set (x ∷ xs) zero (suc i) v h = ground arith
slot-set (x ∷ xs) (suc t) zero v h = ground arith
slot-set (x ∷ xs) (suc t) (suc i) v h = slot-set xs t i v (omega arith) ∙ ground arith

slot-replicate : (n i : ℕ) → slot (replicate n none) i ≡ none
unfolding slot
slot-replicate zero i = refl
slot-replicate (suc n) zero = refl
slot-replicate (suc n) (suc i) = slot-replicate n i

slot-append_nulls :
    (xs : List (Option Text)) (n i : ℕ) → slot (xs ++ replicate n none) i ≡ slot xs i
unfolding slot
slot-append_nulls [] n i = slot-replicate n i
slot-append_nulls (x ∷ xs) n zero = refl
slot-append_nulls (x ∷ xs) n (suc i) = slot-append_nulls xs n i

-- Growing the array moves no response.
pub slot-resize :
    (n i : ℕ) (xs : List (Option Text)) → length xs ≤ n → slot (resize n xs) i ≡ slot xs i
unfolding resize
slot-resize n i xs h = rw (take-all n xs h) (slot-append_nulls xs (n - length xs) i)

pub length-resize : (n : ℕ) (xs : List (Option Text)) → length xs ≤ n → length (resize n xs) ≡ n
unfolding resize
length-resize n xs h = rw (take-all n xs h) (
    omega (
      arith,
      length-append {0} xs (replicate (n - length xs) none),
      length-replicate {0} {A = Option Text} (n - length xs) none,
    ))

pub slot-beyond : (xs : List (Option Text)) (i : ℕ) → length xs ≤ i → slot xs i ≡ none
unfolding slot
slot-beyond xs i h = rw (get_elem?-beyond xs i h)

-- The tickets `ts` are answered by `r`. Of what is due the first `sent` have been written, in order,
-- and all of it unless the client has been disconnected; the rest is pending.
pub record Holds (r : ℕ → Text) (ts : List ℕ) (s : Session) : Type 0 where
  pub sent : ℕ
  pub in_order : s.written ≡ responses r sent
  pub not_more : sent ≤ s.next_response_ticket
  pub all_sent : (s.active ≡ false) ⊎ (sent ≡ s.next_response_ticket)
  pub pending :
      (i : ℕ)
      → slot s.pending_responses i
        ≡ (if has i ts && leb s.next_response_ticket i then some (r i) else none)
  pub answered : (i : ℕ) → i < s.next_response_ticket → has i ts ≡ true

pub all_of : (b : Bool) (k n : ℕ) → b ≡ true → (b ≡ false) ⊎ (k ≡ n) → k ≡ n
all_of b k n active (inl closed) = absurd (cc)
all_of b k n active (inr e) = e

-- Writing keeps the session as active as it is, and reaches nobody when it is not.
pub record Quiet (s t : Session) : Type 0 where
  pub same_active : t.active ≡ s.active
  pub silent : s.active ≡ false → t.written ≡ s.written

pub Quiet-trans : {s t u : Session} → Quiet s t → Quiet t u → Quiet s u
Quiet-trans q w = record {
  same_active = w.same_active ∙ q.same_active;
  silent = λ e. w.silent (q.same_active ∙ e) ∙ q.silent e;
}

pub flush-Quiet : (fuel : ℕ) (s : Session) → Quiet s (flush fuel s)
unfolding flush
flush-Quiet zero s = record { same_active = refl; silent = λ e. refl }
flush-Quiet (suc fuel) s = elim (Option-cases (slot s.pending_responses s.next_response_ticket)) [
  | inl e ↦ rw (e, flush) (record { same_active = refl; silent = λ e. refl })
  | inr (current, e) ↦
      let later = flush-Quiet fuel (record s {
        pending_responses = set s.pending_responses s.next_response_ticket none;
        next_response_ticket = s.next_response_ticket + 1;
        written = if s.active then s.written ++ current ∷ [] else s.written;
      }) in
      rw (e, flush)
        (record { same_active = later.same_active; silent = λ e. later.silent e ∙ ground arith })
]

module _ (r : ℕ → Text) (ts : List ℕ) where
  flush_step :
      (s : Session) (current : Text)
      → Holds r ts s
      → slot s.pending_responses s.next_response_ticket ≡ some current
      → Holds r ts (record s {
        pending_responses = set s.pending_responses s.next_response_ticket none;
        next_response_ticket = s.next_response_ticket + 1;
        written = if s.active then s.written ++ current ∷ [] else s.written;
      })
  flush_step s current v due =
      let n = s.next_response_ticket in
      let inside : n < length s.pending_responses =
        ground (arith, slot-beyond s.pending_responses n) in
      let got : has n ts ≡ true = ground (arith, v.pending n) in
      let same : current ≡ r n = ground (arith, v.pending n) in
      elim (Bool-cases s.active) [
        | inl active ↦
            let all : v.sent ≡ n = all_of s.active v.sent n active v.all_sent in
            rw active (record {
              sent = n + 1;
              in_order = rw (add-one n) (
                  ap (λ (l : List Text). l ++ current ∷ []) (v.in_order ∙ ap (responses r) all)
                  ∙ ap (λ t. responses r n ++ t ∷ []) same);
              not_more = omega arith;
              all_sent = inr refl;
              pending =
                  λ i. ground (arith, slot-set s.pending_responses n i none inside, v.pending i);
              answered = λ i h. ground (arith, v.answered i);
            })
        | inr inactive ↦ rw inactive (record {
          sent = v.sent;
          in_order = v.in_order;
          not_more = omega (arith, v.not_more);
          all_sent = inl refl;
          pending = λ i. ground (arith, slot-set s.pending_responses n i none inside, v.pending i);
          answered = λ i h. ground (arith, v.answered i);
        })
      ]

  stops :
      (s : Session)
      → Holds r ts s
      → slot s.pending_responses s.next_response_ticket ≡ none
      → has s.next_response_ticket ts ≡ false
  stops s v idle = ground (arith, v.pending s.next_response_ticket)

  -- With a round for each entry the loop stops at a ticket that is not answered yet.
  pub flush-Holds :
      (fuel : ℕ) (s : Session)
      → Holds r ts s
      → length s.pending_responses ≤ s.next_response_ticket + fuel
      → Holds r ts (flush fuel s) × (has (flush fuel s).next_response_ticket ts ≡ false)
  unfolding flush
  flush-Holds zero s v enough = (v, stops s v (slot-beyond s.pending_responses _ (omega arith)))
  flush-Holds (suc fuel) s v enough =
      elim (Option-cases (slot s.pending_responses s.next_response_ticket)) [
        | inl e ↦ rw (e, flush) (v, stops s v e)
        | inr (current, e) ↦
            rw (e, flush)
              (flush-Holds fuel _ (flush_step s current v e)
                (omega (arith, length-set s.pending_responses s.next_response_ticket none)))
      ]

-- realloc gives the asked number of entries, also when that is less than before.
pub length-resize_all : (n : ℕ) (xs : List (Option Text)) → length (resize n xs) ≡ n
unfolding resize
length-resize_all n xs = omega (
  arith,
  length-append {0} (take n xs) (replicate {A = Option Text} (n - length xs) none),
  length-take {0} n xs,
  length-replicate {0} {A = Option Text} (n - length xs) none,
)
