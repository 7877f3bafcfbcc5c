-- ===== src/Tests/Tasks.antt =====
-- Two tasks in the work queue.
use pointerpro_animate.Base.{◌≡◌, refl, none, some, List, [], ◌∷◌, arith, ◌==◌, if◌then◌else◌}
use pointerpro_animate.Text.{codes}
use pointerpro_animate.Queue.{Ptr, Task, Queue, queue_push, queue_pop, task}
use pointerpro_animate.Queue.Chain.{Job, job, IsQueue}
use pointerpro_animate.Queue.Order.{Pushed, new_job, push-append, pop-oldest}

abbrev older : Task
older = record { command_line = codes "placement_up 7"; session = 3; ticket = 0; next = 2 }

abbrev newer : Task
newer = record { command_line = codes "barrier 5"; session = 4; ticket = 9; next = 0 }

abbrev busy : Queue
busy = record {
  tasks = λ a. if a == 1 then some older else if a == 2 then some newer else none;
  head = 1;
  tail = 2;
}

abbrev jobs : List (Ptr × Job)
jobs = (1, job older) ∷ (2, job newer) ∷ []

busy-IsQueue : IsQueue busy jobs
busy-IsQueue = record {
  has_head = refl;
  has_tail = refl;
  chain = (
    record { cell = older; holds = refl; ne_null = omega arith; is_job = refl; has_next = refl },
    (
      record { cell = newer; holds = refl; ne_null = omega arith; is_job = refl; has_next = refl },
      tt,
    ),
  );
  distinct = (refl, (refl, tt));
}

push-append_example :
    (r : Queue) × (queue_push 5 (codes "Disconnect") 3 1 busy ≡ some r)
    × Pushed busy 5 (new_job (codes "Disconnect") 3 1) jobs r
push-append_example =
    push-append busy 5 3 (codes "Disconnect") 1 jobs busy-IsQueue refl (omega arith)

pop-oldest_example :
    (r : Queue) × (t : Task) × (queue_pop busy ≡ task 1 r)
    × IsQueue r ((2, job newer) ∷ [])
    × (r.tasks 1 ≡ some t)
    × (job t ≡ job older)
pop-oldest_example = pop-oldest busy (1, job older) ((2, job newer) ∷ []) busy-IsQueue
