-- ===== src/Queue/Chain.antt =====
-- The tasks of the work queue as a chain from its head.
use pointerpro_animate.Base.{
  ℕ, ◌≡◌, ◌≢◌, refl, ap, ◌∙◌, Bool, true, false, Option, none, some, List, [], ◌∷◌, ◌++◌, arith,
  ◌==◌, if◌then◌else◌,
}
use pointerpro_animate.Text.{Text}
use pointerpro_animate.Queue.{Ptr, Task, Queue}

-- What a task is about.
pub record Job : Type 0 where
  pub command_line : Text
  pub session : Ptr
  pub ticket : ℕ

abbrev pub job : Task → Job
job t = record { command_line = t.command_line; session = t.session; ticket = t.ticket }

abbrev pub Heap : Type 0
Heap = Ptr → Option Task

pub record Cell (h : Heap) (a : Ptr) (j : Job) (next : Ptr) : Type 0 where
  pub cell : Task
  pub holds : h a ≡ some cell
  pub ne_null : a ≢ 0
  pub is_job : job cell ≡ j
  pub has_next : cell.next ≡ next

abbrev pub first : List (Ptr × Job) → Ptr
first [] = 0
first (x ∷ xs) = x.0

abbrev pub last : List (Ptr × Job) → Ptr
last [] = 0
last (x ∷ []) = x.0
last (x ∷ y ∷ xs) = last (y ∷ xs)

abbrev pub has : Ptr → List (Ptr × Job) → Bool
has a [] = false
has a (x ∷ xs) = if a == x.0 then true else has a xs

abbrev pub Distinct : List (Ptr × Job) → Type 0
Distinct [] = Unit
Distinct (x ∷ xs) = (has x.0 xs ≡ false) × Distinct xs

abbrev pub Chain : Heap → List (Ptr × Job) → Type 0
Chain h [] = Unit
Chain h (x ∷ xs) = Cell h x.0 x.1 (first xs) × Chain h xs

-- The queue has these tasks at these addresses.
pub record IsQueue (q : Queue) (xs : List (Ptr × Job)) : Type 0 where
  pub has_head : q.head ≡ first xs
  pub has_tail : q.tail ≡ last xs
  pub chain : Chain q.tasks xs
  pub distinct : Distinct xs

pub has-last : (x : Ptr × Job) (xs : List (Ptr × Job)) → has (last (x ∷ xs)) (x ∷ xs) ≡ true
has-last x [] = ground arith
has-last x (y ∷ xs) = ground (arith, has-last y xs)

pub fresh_out :
    (h : Heap) (p : Ptr) (xs : List (Ptr × Job)) → h p ≡ none → Chain h xs → has p xs ≡ false
fresh_out h p [] free v = refl
fresh_out h p (x ∷ xs) free (c, v) = ground (arith, fresh_out h p xs free v, c.holds)

pub append-Distinct :
    (p : Ptr) (j : Job) (xs : List (Ptr × Job))
    → has p xs ≡ false
    → Distinct xs
    → Distinct (xs ++ (p, j) ∷ [])
append-Distinct p j [] out d = (refl, tt)
append-Distinct p j (x ∷ xs) out (d, ds) =
    (has_append x.0 xs (ground arith) d, append-Distinct p j xs (ground arith) ds)
  where
    has_append :
        (a : Ptr) (ys : List (Ptr × Job))
        → a ≢ p
        → has a ys ≡ false
        → has a (ys ++ (p, j) ∷ []) ≡ false
    has_append a [] ne h = ground arith
    has_append a (y ∷ ys) ne h = ground (arith, has_append a ys ne)

pub last-append : (p : Ptr) (j : Job) (xs : List (Ptr × Job)) → last (xs ++ (p, j) ∷ []) ≡ p
last-append p j [] = refl
last-append p j (x ∷ []) = refl
last-append p j (x ∷ y ∷ xs) = last-append p j (y ∷ xs)

pub first-append :
    (p : Ptr) (j : Job) (x : Ptr × Job) (xs : List (Ptr × Job))
    → first ((x ∷ xs) ++ (p, j) ∷ []) ≡ x.0
first-append p j x xs = refl

pub move-Cell :
    (h g : Heap) (a : Ptr) (j : Job) (next : Ptr) → g a ≡ h a → Cell h a j next → Cell g a j next
move-Cell h g a j next same c = record {
  cell = c.cell;
  holds = same ∙ c.holds;
  ne_null = c.ne_null;
  is_job = c.is_job;
  has_next = c.has_next;
}

module _ (h g : Heap) (p : Ptr) (new : Task) (p0 : p ≢ 0) (holds : g p ≡ some new)
    (ends : new.next ≡ 0) where
  -- The new task behind the others, when the last of them is linked to it.
  pub append-Chain :
      (x : Ptr × Job) (xs : List (Ptr × Job))
      → has p (x ∷ xs) ≡ false
      → Distinct (x ∷ xs)
      → ((b : Ptr) → b ≢ last (x ∷ xs) → b ≢ p → g b ≡ h b)
      → ((t : Task) → h (last (x ∷ xs)) ≡ some t → g (last (x ∷ xs)) ≡ some (record t { next = p }))
      → Chain h (x ∷ xs)
      → Chain g (x ∷ (xs ++ (p, job new) ∷ []))
  append-Chain x [] out d same linked (c, v) = (
    record {
      cell = record c.cell { next = p };
      holds = linked c.cell c.holds;
      ne_null = c.ne_null;
      is_job = c.is_job;
      has_next = refl;
    },
    (record { cell = new; holds = holds; ne_null = p0; is_job = refl; has_next = ends }, tt),
  )
  append-Chain x (y ∷ xs) out (dx, d) same linked (c, v) = (
    move-Cell h g x.0 x.1 y.0
        (same x.0 (λ e. ground (arith, has-last y xs, ap (λ z. has z (y ∷ xs)) e))
          (λ e. ground arith))
        c,
    append-Chain y xs (ground arith) d same linked v,
  )
