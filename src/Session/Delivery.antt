-- ===== src/Session/Delivery.antt =====
-- Any number of calls of send_ordered_response on one session, in any order of their tickets.
use native.Mathlib.Nat.{mod-eq_of_lt}
use pointerpro_animate.Base.{
  ℕ, ◌+◌, ◌^◌, ◌≤◌, ◌<◌, ◌≡◌, refl, ap, sym, ◌∙◌, subst, true, false, Option, none, some, List, [],
  ◌∷◌, arith, ltb, leb, length, set, length-set, Bool-cases, inl, inr, lt→ltb, ◌||◌,
}
use pointerpro_animate.Text.{Text}
use pointerpro_animate.Session.{
  Session, Memory, new_session, slot, resize, new_capacity, flush, store_and_flush,
  send_ordered_response, duplicate,
}
use pointerpro_animate.Session.Order.{
  has, responses, Holds, all_of, Quiet, Quiet-trans, flush-Quiet, slot-set, slot-resize,
  length-resize, length-resize_all, flush-Holds,
}

abbrev pub plenty : Memory
plenty = record { realloc = true; strdup = true }

-- Calls one after the other, each with the response that `r` gives its ticket.
unfoldable pub send_all : (ℕ → Text) → List ℕ → Session → Option Session
send_all r [] s = some s
send_all r (t ∷ ts) s = elim (send_ordered_response plenty t (r t) s) [
  | none ↦ none
  | some s' ↦ send_all r ts s'
]

-- All that has been due by now is written, and no more.
abbrev pub Delivered : (ℕ → Text) → List ℕ → Session → Type 0
Delivered r ts s = Holds r ts s × (has s.next_response_ticket ts ≡ false)

module _ (r : ℕ → Text) (ts : List ℕ) (t : ℕ) (new : has t ts ≡ false) where
  stored-Holds :
      (s : Session)
      → Holds r ts s
      → has s.next_response_ticket ts ≡ false
      → t < length s.pending_responses
      → Holds r (t ∷ ts) (record s { pending_responses = set s.pending_responses t (some (r t)) })
  stored-Holds s v stop inside = record {
    sent = v.sent;
    in_order = v.in_order;
    not_more = v.not_more;
    all_sent = v.all_sent;
    pending = λ i. ground (
      arith,
      slot-set s.pending_responses t i (some (r t)) inside,
      v.pending i,
      v.answered t,
      ap r,
    );
    answered = λ i h. ground (arith, v.answered i);
  }

  resized-Holds :
      (n : ℕ) (s : Session)
      → Holds r ts s
      → length s.pending_responses ≤ n
      → Holds r ts (record s { pending_responses = resize n s.pending_responses })
  resized-Holds n s v h = record {
    sent = v.sent;
    in_order = v.in_order;
    not_more = v.not_more;
    all_sent = v.all_sent;
    pending = λ i. ground (arith, slot-resize n i s.pending_responses h, v.pending i);
    answered = v.answered;
  }

  store-Delivered :
      (s : Session)
      → Holds r ts s
      → has s.next_response_ticket ts ≡ false
      → t < length s.pending_responses
      → (s' : Session) × (store_and_flush t (some (r t)) s ≡ some s')
        × Holds r (t ∷ ts) s'
        × (has s'.next_response_ticket (t ∷ ts) ≡ false)
        × Quiet s s'
  unfolding store_and_flush
  store-Delivered s v stop inside =
      let stored : Session = record s {
        pending_responses = set s.pending_responses t (some (r t));
      } in
      let (holds, idle) =
        flush-Holds r (t ∷ ts) (length s.pending_responses) stored (stored-Holds s v stop inside)
          (omega (arith, length-set s.pending_responses t (some (r t)))) in
      let quiet = flush-Quiet (length s.pending_responses) stored in
      (
        flush (length s.pending_responses) stored,
        rw (lt→ltb _ _ inside),
        holds,
        idle,
        record { same_active = quiet.same_active; silent = quiet.silent },
      )

  -- A response to a ticket that has none yet is stored, and all that is now due is written.
  pub send-Delivered :
      (s : Session)
      → Delivered r ts s
      → t + 8 < 2 ^ 32
      → (s' : Session) × (send_ordered_response plenty t (r t) s ≡ some s')
        × Holds r (t ∷ ts) s'
        × (has s'.next_response_ticket (t ∷ ts) ≡ false)
        × Quiet s s'
  unfolding send_ordered_response duplicate
  send-Delivered s (v, stop) small = elim (Bool-cases (leb (length s.pending_responses) t)) [
    | inl grows ↦
        let fits : length s.pending_responses ≤ t + 8 = ground arith in
        let (s', stored, holds, idle, quiet) =
          store-Delivered _ (resized-Holds (t + 8) s v fits) stop
            (omega (arith, length-resize (t + 8) s.pending_responses fits)) in
        rw (grows, mod-eq_of_lt small)
          ((
            s',
            stored,
            holds,
            idle,
            record { same_active = quiet.same_active; silent = quiet.silent },
          ))
    | inr stays ↦ rw stays (store-Delivered s v stop (ground arith))
  ]

-- Each ticket is small enough for the array's size, and answered once.
abbrev pub IsFresh : List ℕ → List ℕ → Type 0
IsFresh done [] = Unit
IsFresh done (t ∷ ts) = (t + 8 < 2 ^ 32) × (has t done ≡ false) × IsFresh (t ∷ done) ts

-- The tickets of two lists, the second in front and turned round.
abbrev pub after : List ℕ → List ℕ → List ℕ
after done [] = done
after done (t ∷ ts) = after (t ∷ done) ts

pub send_all-Delivered :
    (r : ℕ → Text) (done ts : List ℕ) (s : Session)
    → Delivered r done s
    → IsFresh done ts
    → (s' : Session) × (send_all r ts s ≡ some s') × Delivered r (after done ts) s' × Quiet s s'
unfolding send_all
send_all-Delivered r done [] s v fresh =
    (s, refl, v, record { same_active = refl; silent = λ e. refl })
send_all-Delivered r done (t ∷ ts) s v (small, new, fresh) =
    let (s1, sent, v1, idle, quiet) = send-Delivered r done t new s v small in
    let (s2, sent2, v2, quiet2) = send_all-Delivered r (t ∷ done) ts s1 (v1, idle) fresh in
    rw (sent, send_all) ((s2, sent2, v2, Quiet-trans quiet quiet2))

pub has-after : (i : ℕ) (done ts : List ℕ) → has i (after done ts) ≡ (has i ts || has i done)
has-after i done [] = refl
has-after i done (t ∷ ts) = has-after i (t ∷ done) ts ∙ ground arith

pub new-Delivered :
    (r : ℕ → Text) (pid : ℕ) (garbage : Text) → Delivered r [] (new_session pid garbage)
unfolding new_session slot
new-Delivered r pid garbage = (
  record {
    sent = 0;
    in_order = refl;
    not_more = omega arith;
    all_sent = inr refl;
    pending = λ i. refl;
    answered = λ i h. absurd (omega arith);
  },
  refl,
)

-- While the client is connected, all that is due has been written.
pub Holds-all :
    (r : ℕ → Text) (ts : List ℕ) {s : Session}
    → Holds r ts s
    → s.active ≡ true
    → s.written ≡ responses r s.next_response_ticket
Holds-all r ts {s} v active =
    v.in_order ∙ ap (responses r) (all_of s.active v.sent s.next_response_ticket active v.all_sent)

-- Workers finish the requests of one client in any order: after calls of `send_ordered_response`
-- with memory at hand for the distinct tickets `ts`, each below 2^32 - 8, on a new session, what
-- has been written is the responses to all tickets below the first that is not in `ts`, in the order
-- of the tickets, and no call has written outside the array of pending responses.
pub send_all-in_order :
    (r : ℕ → Text) (ts : List ℕ) (pid : ℕ) (garbage : Text)
    → IsFresh [] ts
    → (s : Session) × (send_all r ts (new_session pid garbage) ≡ some s)
      × (s.written ≡ responses r s.next_response_ticket)
      × ((i : ℕ) → i < s.next_response_ticket → has i ts ≡ true)
      × (has s.next_response_ticket ts ≡ false)
unfolding new_session
send_all-in_order r ts pid garbage fresh =
    let (s, sent, end, quiet) =
      send_all-Delivered r [] ts (new_session pid garbage) (new-Delivered r pid garbage) fresh in
    (
      s,
      sent,
      Holds-all r _ end.0 quiet.same_active,
      λ i h. ground (arith, end.0.answered i h, has-after i [] ts),
      ground (arith, end.1, has-after s.next_response_ticket [] ts),
    )

-- When the distinct tickets `ts`, each below 2^32 - 8, are exactly those below n, and calls are made
-- for them on a new session with memory at hand, every response is written, in the order
-- of the tickets, whatever the order of the calls.
pub send_all_complete :
    (r : ℕ → Text) (n : ℕ) (ts : List ℕ) (pid : ℕ) (garbage : Text)
    → IsFresh [] ts
    → ((i : ℕ) → has i ts ≡ ltb i n)
    → (s : Session) × (send_all r ts (new_session pid garbage) ≡ some s)
      × (s.written ≡ responses r n)
send_all_complete r n ts pid garbage fresh exact =
    let (s, sent, written, answered, stop) = send_all-in_order r ts pid garbage fresh in
    let last : s.next_response_ticket ≡ n =
      ground (arith, exact s.next_response_ticket, answered n, exact n) in
    (s, sent, subst (λ k. s.written ≡ responses r k) last written)

-- In a session that has written all that was due, when realloc fails for the response that is next in
-- order, beyond the array, the response is dropped: the session
-- stays as it was, and no response to another ticket, each new and below 2^32 - 8, is written any more,
-- however many are handed over with memory at hand.
pub lost_response_stalls :
    (r : ℕ → Text) (done ts : List ℕ) (s : Session) (memory : Memory)
    → Delivered r done s
    → length s.pending_responses ≤ s.next_response_ticket
    → memory.realloc ≡ false
    → IsFresh done ts
    → has s.next_response_ticket ts ≡ false
    → (send_ordered_response memory s.next_response_ticket (r s.next_response_ticket) s ≡ some s)
      × ((s' : Session) × (send_all r ts s ≡ some s') × (s'.written ≡ s.written))
unfolding send_ordered_response
lost_response_stalls r done ts s memory (v, stop) beyond full fresh out =
    let n = s.next_response_ticket in
    let (s', sent, end, quiet) = send_all-Delivered r done ts s (v, stop) fresh in
    let now : has n (after done ts) ≡ false = ground (arith, has-after n done ts) in
    let le : s'.next_response_ticket ≤ n = ground (arith, end.0.answered n, now) in
    let ge : n ≤ s'.next_response_ticket = ground (
      arith,
      end.1,
      v.answered s'.next_response_ticket,
      has-after s'.next_response_ticket done ts,
    ) in
    let same : s'.next_response_ticket ≡ n = omega arith in
    let unchanged : s'.written ≡ s.written = elim (Bool-cases s.active) [
      | inl active ↦
          Holds-all r _ end.0 (quiet.same_active ∙ active)
          ∙ ap (responses r) same
          ∙ sym (Holds-all r done v active)
      | inr inactive ↦ quiet.silent inactive
    ] in
    (ground arith, (s', sent, unchanged))

-- A ticket of the last eight before 2^32 makes the new capacity wrap around: unless the array is
-- long enough already, with memory at hand the response is written outside it.
pub send_ordered_response-wraps :
    (s : Session) (t : ℕ) (response : Text)
    → t < 2 ^ 32
    → 2 ^ 32 ≤ t + 8
    → length s.pending_responses ≤ t
    → send_ordered_response plenty t response s ≡ none
unfolding send_ordered_response store_and_flush
send_ordered_response-wraps s t response small wraps beyond =
    ground (arith, length-resize_all (new_capacity t) s.pending_responses)
