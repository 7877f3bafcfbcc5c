-- ===== src/Animate/Apart.antt =====
-- Lists of addresses that are apart from each other, and the heap around a placement.
use pointerpro_animate.Base.{
  ◌≡◌, refl, sym, ◌≢◌, inl, inr, true, false, none, some, List, [], ◌∷◌, arith, ◌==◌, Bool-cases,
}
use pointerpro_animate.Animate.{Ptr, null, Placement}
use pointerpro_animate.Animate.Focus.{Below, Above, Heap, first, has, has-unfocus, unfocus}

-- What is not in a list is not its first.
pub first-ne : (p : Ptr) (xs : List Ptr) → p ≢ null → has p xs ≡ false → first xs ≢ p
first-ne p [] ne out = λ e. ne (sym e)
first-ne p (x ∷ xs) ne out = λ e. ground arith

pub ne_of_has : (a p : Ptr) (xs : List Ptr) → has a xs ≡ true → has p xs ≡ false → a ≢ p
ne_of_has a p xs i out = λ e. ground arith

-- The first of one list is not in another that is disjoint from it.
pub first-out :
    (a : Ptr) (xs ys : List Ptr)
    → ((x : Ptr) → has x xs ≡ true → has x ys ≡ false)
    → has a ys ≡ true
    → a ≢ null
    → first xs ≢ a
first-out a [] ys apart i ne = λ e. ne (sym e)
first-out a (x ∷ xs) ys apart i ne = λ e. ground (arith, apart x)

pub first-first :
    (xs ys : List Ptr)
    → ((x : Ptr) → has x xs ≡ true → has x ys ≡ false)
    → first xs ≡ first ys
    → first xs ≡ null
first-first [] ys apart e = refl
first-first (x ∷ xs) [] apart e = e
first-first (x ∷ xs) (y ∷ ys) apart e = absurd (ground (arith, apart x))

module _ (h : Heap) where
  pub ne_null-Above :
      (c next a : Ptr) (us : List Ptr) → Above h c next us → has a us ≡ true → a ≢ null
  ne_null-Above c next a [] v i = λ e. cc
  ne_null-Above c next a (u ∷ us) (n, v) i = elim (Bool-cases (a == u)) [
    | inl e ↦ λ z. n.ne_null (ground arith)
    | inr e ↦ ne_null-Above c u a us v (ground arith)
  ]

  pub ne_null-Below :
      (c previous a : Ptr) (ds : List Ptr) → Below h c previous ds → has a ds ≡ true → a ≢ null
  ne_null-Below c previous a [] v i = λ e. cc
  ne_null-Below c previous a (d ∷ ds) (n, v) i = elim (Bool-cases (a == d)) [
    | inl e ↦ λ z. n.ne_null (ground arith)
    | inr e ↦ ne_null-Below c d a ds v (ground arith)
  ]

pub flip_apart :
    (us ds : List Ptr)
    → ((x : Ptr) → has x us ≡ true → has x ds ≡ false)
    → (x : Ptr) → has x ds ≡ true
    → has x us ≡ false
flip_apart us ds apart x i = ground (arith, apart x)

pub not_first : (a : Ptr) (us : List Ptr) → has a us ≡ false → a ≡ first us → a ≡ null
not_first a [] out e = e
not_first a (u ∷ us) out e = absurd (ground arith)

pub out-cons : (p q : Ptr) (us : List Ptr) → has p (q ∷ us) ≡ false → (p ≢ q) × (has p us ≡ false)
out-cons p q us out = (λ e. ground arith, ground arith)

pub cons-out : (p q : Ptr) (us : List Ptr) → p ≢ q → has p us ≡ false → has p (q ∷ us) ≡ false
cons-out p q us ne out = ground arith

pub head-has : (q : Ptr) (us : List Ptr) → has q (q ∷ us) ≡ true
head-has q us = ground arith

pub apart-tail :
    (q : Ptr) (us ds : List Ptr)
    → ((x : Ptr) → has x (q ∷ us) ≡ true → has x ds ≡ false)
    → (x : Ptr) → has x us ≡ true
    → has x ds ≡ false
apart-tail q us ds apart x i = ground (arith, apart x)

pub apart-cons :
    (q : Ptr) (us ds : List Ptr)
    → has q us ≡ false
    → ((x : Ptr) → has x us ≡ true → has x ds ≡ false)
    → (x : Ptr) → has x us ≡ true
    → has x (q ∷ ds) ≡ false
apart-cons q us ds out apart x i = ground (arith, apart x)

-- The parts of what is outside the whole list.
pub out-unfocus :
    (a : Ptr) (us ds : List Ptr)
    → has a (unfocus us ds) ≡ false
    → (has a us ≡ false) × (has a ds ≡ false)
out-unfocus a us ds out = ground (arith, has-unfocus a us ds)

pub unfocus-out :
    (a : Ptr) (us ds : List Ptr)
    → has a us ≡ false
    → has a ds ≡ false
    → has a (unfocus us ds) ≡ false
unfocus-out a us ds out below = ground (arith, has-unfocus a us ds)

pub unfocus-has : (a : Ptr) (us ds : List Ptr) → has a us ≡ true → has a (unfocus us ds) ≡ true
unfocus-has a us ds i = ground (arith, has-unfocus a us ds)

pub unfocus-has_below :
    (a : Ptr) (us ds : List Ptr) → has a ds ≡ true → has a (unfocus us ds) ≡ true
unfocus-has_below a us ds i = ground (arith, has-unfocus a us ds)

-- A chain that is not empty has a first node.
pub first_holds :
    (h : Heap) (c previous a : Ptr) (xs : List Ptr)
    → Below h c previous xs
    → has a xs ≡ true
    → (n : Placement) × (first xs ≢ null) × (h (first xs) ≡ some n)
first_holds h c previous a [] v i = absurd (cc)
first_holds h c previous a (x ∷ xs) (n, v) i = (n.node, n.ne_null, n.holds)

pub first_above :
    (h : Heap) (c next a : Ptr) (us : List Ptr)
    → Above h c next us
    → has a us ≡ true
    → (n : Placement) × (first us ≢ null) × (h (first us) ≡ some n)
first_above h c next a [] v i = absurd (cc)
first_above h c next a (x ∷ us) (n, v) i = (n.node, n.ne_null, n.holds)

pub has-unfocus_nil : (a : Ptr) (us : List Ptr) → has a (unfocus us []) ≡ true → has a us ≡ true
has-unfocus_nil a us i = ground (arith, has-unfocus a us [])

-- A free address is no placement of a chain.
pub free_out :
    (h : Heap) (c previous a : Ptr) (xs : List Ptr)
    → Below h c previous xs
    → h a ≡ none
    → has a xs ≡ false
free_out h c previous a [] v free = refl
free_out h c previous a (x ∷ xs) (n, v) free = elim (Bool-cases (a == x)) [
  | inl e ↦ absurd (held n.node n.holds (ground arith))
  | inr e ↦ rw e (free_out h c x a xs v free)
]
  where
    held : (k : Placement) → h x ≡ some k → a ≡ x → ⊥
    held k hx e = ground arith
