-- ===== src/Animate/Focus.antt =====
-- The placements of a canvas as a list, the top layer first, and the same list seen from one of
-- its placements: those above it, nearest first, and those below it.
use pointerpro_animate.Base.{
  ◌≡◌, refl, sym, ◌≢◌, ◌⊎◌, inl, inr, Bool, true, false, ◌||◌, ◌∙◌, Option, some, List, [], ◌∷◌,
  arith, ◌==◌, if◌then◌else◌, Bool-cases,
}
use pointerpro_animate.Animate.{Ptr, null, Placement, Canvas, Store}

abbrev pub Heap : Type 0
Heap = Ptr → Option Placement

-- `p` is a placement on `canvas` with these neighbours.
pub record Node (h : Heap) (canvas p previous next : Ptr) : Type 0 where
  pub node : Placement
  pub holds : h p ≡ some node
  pub ne_null : p ≢ null
  pub on_canvas : node.canvas ≡ canvas
  pub has_previous : node.previous ≡ previous
  pub has_next : node.next ≡ next

abbrev pub first : List Ptr → Ptr
first [] = null
first (x ∷ xs) = x

-- The last of `p` and the list behind it.
abbrev pub end : Ptr → List Ptr → Ptr
end p [] = p
end p (x ∷ xs) = end x xs

abbrev pub last : List Ptr → Ptr
last [] = null
last (x ∷ xs) = end x xs

abbrev pub Below : Heap → Ptr → Ptr → List Ptr → Type 0
Below h c previous [] = Unit
Below h c previous (p ∷ xs) = Node h c p previous (first xs) × Below h c p xs

abbrev pub Above : Heap → Ptr → Ptr → List Ptr → Type 0
Above h c next [] = Unit
Above h c next (p ∷ xs) = Node h c p (first xs) next × Above h c p xs

abbrev pub has : Ptr → List Ptr → Bool
has a [] = false
has a (x ∷ xs) = if a == x then true else has a xs

abbrev pub Distinct : List Ptr → Type 0
Distinct [] = Unit
Distinct (x ∷ xs) = (has x xs ≡ false) × Distinct xs

-- The whole list, from what stands above and what stands from there on.
abbrev pub unfocus : List Ptr → List Ptr → List Ptr
unfocus [] ys = ys
unfocus (a ∷ us) ys = unfocus us (a ∷ ys)

-- The canvas `c` has the layers `xs`, each a placement of its own.
pub record IsCanvas (s : Store) (c : Ptr) (xs : List Ptr) : Type 0 where
  pub canvas : Canvas
  pub holds : s.canvases c ≡ some canvas
  pub ne_null : c ≢ null
  pub has_head : canvas.head ≡ first xs
  pub has_tail : canvas.tail ≡ last xs
  pub chain : Below s.placements c null xs
  pub distinct : Distinct xs

pub move-Node :
    {h g : Heap} {c p previous next : Ptr}
    → g p ≡ h p
    → Node h c p previous next
    → Node g c p previous next
move-Node same n = record {
  node = n.node;
  holds = same ∙ n.holds;
  ne_null = n.ne_null;
  on_canvas = n.on_canvas;
  has_previous = n.has_previous;
  has_next = n.has_next;
}

module _ {h g : Heap} (c : Ptr) where
  -- A chain survives any change that spares its placements.
  pub frame-Below :
      (previous : Ptr) (xs : List Ptr)
      → ((a : Ptr) → has a xs ≡ true → g a ≡ h a)
      → Below h c previous xs
      → Below g c previous xs
  frame-Below previous [] same v = tt
  frame-Below previous (x ∷ xs) same (n, v) =
      (move-Node (same x (ground arith)) n, frame-Below x xs (λ a i. same a (ground arith)) v)

  pub frame-Above :
      (next : Ptr) (xs : List Ptr)
      → ((a : Ptr) → has a xs ≡ true → g a ≡ h a)
      → Above h c next xs
      → Above g c next xs
  frame-Above next [] same v = tt
  frame-Above next (x ∷ xs) same (n, v) =
      (move-Node (same x (ground arith)) n, frame-Above x xs (λ a i. same a (ground arith)) v)

module _ {h : Heap} {c : Ptr} where
  pub focus_chain :
      (us : List Ptr) (p : Ptr) (ds : List Ptr)
      → Below h c null (unfocus us (p ∷ ds))
      → Above h c p us × Node h c p (first us) (first ds) × Below h c p ds
  focus_chain [] p ds v = (tt, v.0, v.1)
  focus_chain (a ∷ us) p ds v =
      let (above, n, (m, below)) = focus_chain us a (p ∷ ds) v in ((n, above), m, below)

  pub unfocus_chain :
      (us : List Ptr) (p : Ptr) (ds : List Ptr)
      → Above h c p us
      → Node h c p (first us) (first ds)
      → Below h c p ds
      → Below h c null (unfocus us (p ∷ ds))
  unfocus_chain [] p ds above n below = (n, below)
  unfocus_chain (a ∷ us) p ds (m, above) n below = unfocus_chain us a (p ∷ ds) above m (n, below)

pub first-unfocus :
    (us : List Ptr) (p : Ptr) (ds : List Ptr) → first (unfocus us (p ∷ ds)) ≡ end p us
first-unfocus [] p ds = refl
first-unfocus (a ∷ us) p ds = first-unfocus us a (p ∷ ds)

pub last-unfocus : (us : List Ptr) (p : Ptr) (ds : List Ptr) → last (unfocus us (p ∷ ds)) ≡ end p ds
last-unfocus [] p ds = refl
last-unfocus (a ∷ us) p ds = last-unfocus us a (p ∷ ds)

pub has-unfocus : (x : Ptr) (us ys : List Ptr) → has x (unfocus us ys) ≡ (has x us || has x ys)
has-unfocus x [] ys = refl
has-unfocus x (a ∷ us) ys = has-unfocus x us (a ∷ ys) ∙ ground arith

-- A list that is distinct us a whole is so in parts, and the parts are disjoint.
abbrev pub Parts : List Ptr → List Ptr → Type 0
Parts us ys = Distinct us × Distinct ys × ((x : Ptr) → has x us ≡ true → has x ys ≡ false)

pub unfocus-Parts : (us ys : List Ptr) → Distinct (unfocus us ys) → Parts us ys
unfocus-Parts [] ys d = (tt, d, λ x i. cc)
unfocus-Parts (a ∷ us) ys d =
    let (dus, (out, dys), apart) = unfocus-Parts us (a ∷ ys) d in
    ((ground (arith, apart a), dus), dys, λ x i. ground (arith, apart x))

pub Distinct-unfocus : (us ys : List Ptr) → Parts us ys → Distinct (unfocus us ys)
Distinct-unfocus [] ys (dus, dys, apart) = dys
Distinct-unfocus (a ∷ us) ys ((out, dus), dys, apart) =
    Distinct-unfocus us (a ∷ ys)
      (dus, (apart a (ground arith), dys), λ x i. ground (arith, apart x))

-- A member of a list can be put in focus.
pub find_focus :
    (p : Ptr) (us ys : List Ptr)
    → has p ys ≡ true
    → (ds : List Ptr) × (cs : List Ptr) × (unfocus us ys ≡ unfocus ds (p ∷ cs))
find_focus p us [] h = absurd (cc)
find_focus p us (y ∷ ys) h = elim (Bool-cases (p == y)) [
  | inl e ↦ (us, ys, ground arith)
  | inr e ↦ find_focus p (y ∷ us) ys (ground arith)
]

-- Behind a placement there is another, or it is the last itself.
pub end-or : (p q : Ptr) (us : List Ptr) → ((us ≡ []) ⊎ (end p us ≡ end q us))
end-or p q [] = inl refl
end-or p q (u ∷ us) = inr refl

-- The facts on a canvas, seen from one of its placements.
pub record IsFocus (s : Store) (c : Ptr) (us : List Ptr) (p : Ptr) (ds : List Ptr) : Type 0 where
  pub canvas : Canvas
  pub holds : s.canvases c ≡ some canvas
  pub ne_null : c ≢ null
  pub has_head : canvas.head ≡ end p us
  pub has_tail : canvas.tail ≡ end p ds
  pub above : Above s.placements c p us
  pub here : Node s.placements c p (first us) (first ds)
  pub below : Below s.placements c p ds
  pub distinct_above : Distinct us
  pub distinct_below : Distinct ds
  pub out_above : has p us ≡ false
  pub out_below : has p ds ≡ false
  pub apart : (x : Ptr) → has x us ≡ true → has x ds ≡ false

module _ {s : Store} {c p : Ptr} {us ds : List Ptr} where
  pub focus : IsCanvas s c (unfocus us (p ∷ ds)) → IsFocus s c us p ds
  focus v =
      let (above, here, below) = focus_chain us p ds v.chain in
      let (dus, dps, apart) = unfocus-Parts us (p ∷ ds) v.distinct in
      record {
        canvas = v.canvas;
        holds = v.holds;
        ne_null = v.ne_null;
        has_head = v.has_head ∙ first-unfocus us p ds;
        has_tail = v.has_tail ∙ last-unfocus us p ds;
        above = above;
        here = here;
        below = below;
        distinct_above = dus;
        distinct_below = dps.1;
        out_above = ground (arith, apart p);
        out_below = dps.0;
        apart = λ x i. ground (arith, apart x);
      }

  pub unfocused : IsFocus s c us p ds → IsCanvas s c (unfocus us (p ∷ ds))
  unfocused v = record {
    canvas = v.canvas;
    holds = v.holds;
    ne_null = v.ne_null;
    has_head = v.has_head ∙ sym (first-unfocus us p ds);
    has_tail = v.has_tail ∙ sym (last-unfocus us p ds);
    chain = unfocus_chain us p ds v.above v.here v.below;
    distinct = Distinct-unfocus us (p ∷ ds) (
      v.distinct_above,
      (v.out_below, v.distinct_below),
      λ x i. ground (arith, v.apart x, v.out_above),
    );
  }
