-- ===== src/Queue.antt =====
-- The work queue of animate-platform/animate_server.c: rpc_task_t and task_queue_t of shared.h,
-- queue_push and queue_pop. The queue's lock makes each of the two one step. An address is a number
-- and NULL is 0.
pub mod Chain
pub mod Order
use pointerpro_animate.Base.{
  ℕ, zero, suc, Bool, true, false, Option, none, some, ◌==◌, if◌then◌else◌, take,
}
use pointerpro_animate.Text.{Text}

abbrev pub Ptr : Type 0
Ptr = ℕ

-- rpc_task_t
pub record Task : Type 0 where
  pub command_line : Text
  pub session : Ptr
  pub ticket : ℕ
  pub next : Ptr

-- task_queue_t and the tasks that are allocated.
pub record Queue : Type 0 where
  pub tasks : Ptr → Option Task
  pub head : Ptr
  pub tail : Ptr

abbrev pub put_task : Ptr → Option Task → Queue → Queue
put_task p v q = record q { tasks = λ a. if a == p then v else q.tasks a }

-- `new_task` is what malloc returns. `none` is undefined behaviour.
unfoldable pub queue_push : Ptr → Text → Ptr → ℕ → Queue → Option Queue
queue_push new_task command session ticket q =
    if new_task == 0
    then some q
    else (let task : Task = record {
      command_line = take 511 command;
      session = session;
      ticket = ticket;
      next = 0;
    } in
        let r : Queue = put_task new_task (some task) q in
        if q.tail == 0
        then some (record r { head = new_task; tail = new_task })
        else elim (r.tasks q.tail) [
          | none ↦ none
          | some t ↦
              some (record (put_task q.tail (some (record t { next = new_task })) r) {
                tail = new_task;
              })
        ])

-- What a worker gets.
pub data Popped : Type 0 where
  -- The queue is empty: the worker waits.
  waits : Popped
  task : Ptr → Queue → Popped
  fault : Popped

unfoldable pub queue_pop : Queue → Popped
queue_pop q = if q.head == 0 then waits else elim (q.tasks q.head) [
  | none ↦ fault
  | some t ↦ task q.head (record q { head = t.next; tail = if t.next == 0 then 0 else q.tail })
]
