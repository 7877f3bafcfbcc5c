-- ===== src/Queue/Order.antt =====
-- The work queue as a list of jobs, the oldest first.
use pointerpro_animate.Base.{
  ℕ, ◌≡◌, ◌≢◌, refl, sym, ap, ◌∙◌, false, none, some, List, [], ◌∷◌, ◌++◌, arith, ◌==◌,
  if◌then◌else◌, take,
}
use pointerpro_animate.Text.{Text}
use pointerpro_animate.Queue.{Ptr, Task, Queue, put_task, queue_push, queue_pop, task}
use pointerpro_animate.Queue.Chain.{
  Job, job, Heap, first, last, has, Chain, IsQueue, has-last, fresh_out, append-Distinct,
  last-append, append-Chain,
}

abbrev pub new_job : Text → Ptr → ℕ → Job
new_job command session ticket = record {
  command_line = take 511 command;
  session = session;
  ticket = ticket;
}

push_run :
    (q : Queue) (p session : Ptr) (command : Text) (ticket : ℕ) (t : Task)
    → p ≢ 0
    → q.tail ≢ 0
    → q.tail ≢ p
    → q.tasks q.tail ≡ some t
    → queue_push p command session ticket q
      ≡ some
          (record (put_task q.tail (some (record t { next = p })) (
            put_task p
              (some (record {
                command_line = take 511 command;
                session = session;
                ticket = ticket;
                next = 0;
              }))
              q)) { tail = p })
unfolding queue_push
push_run q p session command ticket t p0 tail0 ne holds = ground arith

last_cell :
    (h : Heap) (x : Ptr × Job) (xs : List (Ptr × Job))
    → Chain h (x ∷ xs)
    → (last (x ∷ xs) ≢ 0) × ((t : Task) × (h (last (x ∷ xs)) ≡ some t))
last_cell h x [] (c, v) = (c.ne_null, (c.cell, c.holds))
last_cell h x (y ∷ xs) (c, v) = last_cell h y xs v

last_ne :
    (p : Ptr) (x : Ptr × Job) (xs : List (Ptr × Job)) → has p (x ∷ xs) ≡ false → last (x ∷ xs) ≢ p
last_ne p x xs out e = ground (arith, has-last x xs, ap (λ z. has z (x ∷ xs)) e)

abbrev pub Pushed : Queue → Ptr → Job → List (Ptr × Job) → Queue → Type 0
Pushed q p j xs r =
    IsQueue r (xs ++ (p, j) ∷ []) × ((b : Ptr) → has b xs ≡ false → b ≢ p → r.tasks b ≡ q.tasks b)

push_first :
    (q : Queue) (p session : Ptr) (command : Text) (ticket : ℕ)
    → IsQueue q []
    → p ≢ 0
    → (r : Queue) × (queue_push p command session ticket q ≡ some r)
      × Pushed q p (new_job command session ticket) [] r
unfolding queue_push
push_first q p session command ticket v p0 =
    let new : Task = record {
      command_line = take 511 command;
      session = session;
      ticket = ticket;
      next = 0;
    } in
    (
      record (put_task p (some new) q) { head = p; tail = p },
      ground (arith, v.has_tail),
      (
        record {
          has_head = refl;
          has_tail = refl;
          chain = (
            record {
              cell = new;
              holds = ground arith;
              ne_null = p0;
              is_job = refl;
              has_next = refl;
            },
            tt,
          );
          distinct = (refl, tt);
        },
        λ b out ne. ground arith,
      ),
    )

-- The tasks after the two writes of queue_push.
abbrev linked_tasks : Queue → Ptr → Ptr → Task → Task → Heap
linked_tasks q p k t new =
    (put_task k (some (record t { next = p })) (put_task p (some new) q)).tasks

linked_same :
    (q : Queue) (p k b : Ptr) (t new : Task)
    → b ≢ k
    → b ≢ p
    → linked_tasks q p k t new b ≡ q.tasks b
linked_same q p k b t new nek nep = ground arith

linked_last :
    (q : Queue) (p k l : Ptr) (t u new : Task)
    → k ≡ l
    → t ≡ u
    → linked_tasks q p k t new l ≡ some (record u { next = p })
linked_last q p k l t u new e same = ground arith

linked_new : (q : Queue) (p k : Ptr) (t new : Task) → k ≢ p → linked_tasks q p k t new p ≡ some new
linked_new q p k t new ne = ground arith

push_behind :
    (q : Queue) (p session : Ptr) (command : Text) (ticket : ℕ) (x : Ptr × Job)
    (xs : List (Ptr × Job))
    → IsQueue q (x ∷ xs)
    → q.tasks p ≡ none
    → p ≢ 0
    → (r : Queue) × (queue_push p command session ticket q ≡ some r)
      × Pushed q p (new_job command session ticket) (x ∷ xs) r
push_behind q p session command ticket x xs v free p0 =
    let new : Task = record {
      command_line = take 511 command;
      session = session;
      ticket = ticket;
      next = 0;
    } in
    let out = fresh_out q.tasks p (x ∷ xs) free v.chain in
    let (last0, (t, there)) = last_cell q.tasks x xs v.chain in
    let apart : q.tail ≢ p = λ e. last_ne p x xs out (sym v.has_tail ∙ e) in
    let r : Queue =
      record (put_task q.tail (some (record t { next = p })) (put_task p (some new) q)) {
        tail = p;
      } in
    (
      r,
      push_run q p session command ticket t p0 (λ e. last0 (sym v.has_tail ∙ e)) apart
          (ap q.tasks v.has_tail ∙ there),
      (
        record {
          has_head = v.has_head;
          has_tail = sym (last-append p (job new) (x ∷ xs));
          chain =
              append-Chain q.tasks r.tasks p new p0 (linked_new q p q.tail t new apart) refl x xs
                out v.distinct
                (λ b ne nep. linked_same q p q.tail b t new (λ e. ne (e ∙ v.has_tail)) nep)
                (λ u hu. linked_last q p q.tail _ t u new v.has_tail (cc (there, hu))) v.chain;
          distinct = append-Distinct p (job new) (x ∷ xs) out v.distinct;
        },
        λ b outb ne.
            linked_same q p q.tail b t new (λ e. last_ne b x xs outb (sym v.has_tail ∙ sym e)) ne,
      ),
    )

-- queue_push of a new task, at an address that is not NULL, puts its job behind those in the queue,
-- with at most 511 characters of its line, and changes no task that is not in the queue.
pub push-append :
    (q : Queue) (p session : Ptr) (command : Text) (ticket : ℕ) (xs : List (Ptr × Job))
    → IsQueue q xs
    → q.tasks p ≡ none
    → p ≢ 0
    → (r : Queue) × (queue_push p command session ticket q ≡ some r)
      × Pushed q p (new_job command session ticket) xs r
push-append q p session command ticket [] v free p0 = push_first q p session command ticket v p0
push-append q p session command ticket (x ∷ xs) v free p0 =
    push_behind q p session command ticket x xs v free p0

last_tail :
    (x : Ptr × Job) (xs : List (Ptr × Job)) (a : Ptr)
    → a ≡ last (x ∷ xs)
    → (h : Heap) → Chain h (x ∷ xs)
    → (if first xs == 0 then 0 else a) ≡ last xs
last_tail x [] a e h v = refl
last_tail x (y ∷ xs) a e h (c, (d, v)) = ground (arith, d.ne_null)

-- queue_pop of a queue that is not empty gives the oldest task, with its job, and leaves the others in
-- their order.
pub pop-oldest :
    (q : Queue) (x : Ptr × Job) (xs : List (Ptr × Job))
    → IsQueue q (x ∷ xs)
    → (r : Queue) × (t : Task) × (queue_pop q ≡ task x.0 r)
      × IsQueue r xs
      × (r.tasks x.0 ≡ some t)
      × (job t ≡ x.1)
unfolding queue_pop
pop-oldest q x xs v =
    let c = v.chain.0 in
    (
      record q { head = c.cell.next; tail = if c.cell.next == 0 then 0 else q.tail },
      c.cell,
      ground (arith, v.has_head, c.holds, c.ne_null),
      record {
        has_head = c.has_next;
        has_tail =
            ap (λ k. if k == 0 then 0 else q.tail) c.has_next
            ∙ last_tail x xs q.tail v.has_tail q.tasks v.chain;
        chain = v.chain.1;
        distinct = v.distinct.1;
      },
      c.holds,
      c.is_job,
    )
