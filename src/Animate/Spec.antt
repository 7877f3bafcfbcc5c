-- ===== src/Animate/Spec.antt =====
-- What the operations on layers do to the list of a canvas, the top layer first.
use pointerpro_animate.Base.{
  ◌≡◌, refl, ap, ◌≢◌, false, List, [], ◌∷◌, ◌++◌, arith, ◌==◌, if◌then◌else◌, ◌∙◌,
}
use pointerpro_animate.Animate.{Ptr}
use pointerpro_animate.Animate.Focus.{has, unfocus}

-- One layer up: `p` before the one that it follows.
unfoldable pub raise : Ptr → List Ptr → List Ptr
raise p [] = []
raise p (x ∷ []) = x ∷ []
raise p (x ∷ y ∷ ys) = if y == p then y ∷ x ∷ ys else x ∷ raise p (y ∷ ys)

-- One layer down: `p` behind the one that follows it.
unfoldable pub lower : Ptr → List Ptr → List Ptr
lower p [] = []
lower p (x ∷ []) = x ∷ []
lower p (x ∷ y ∷ ys) = if x == p then y ∷ x ∷ ys else x ∷ lower p (y ∷ ys)

unfoldable pub remove : Ptr → List Ptr → List Ptr
remove p [] = []
remove p (x ∷ xs) = if x == p then xs else x ∷ remove p xs

unfoldable pub to_top : Ptr → List Ptr → List Ptr
unfolding remove
to_top p xs = p ∷ remove p xs

unfoldable pub to_bottom : Ptr → List Ptr → List Ptr
unfolding remove
to_bottom p xs = remove p xs ++ p ∷ []

pub remove-unfocus :
    (p : Ptr) (us ys : List Ptr)
    → has p us ≡ false
    → remove p (unfocus us ys) ≡ unfocus us (remove p ys)
unfolding remove
remove-unfocus p [] ys out = refl
remove-unfocus p (u ∷ us) ys out =
    remove-unfocus p us (u ∷ ys) (ground arith) ∙ ap (unfocus us) (ground arith)

pub append-unfocus : (us ys zs : List Ptr) → unfocus us ys ++ zs ≡ unfocus us (ys ++ zs)
append-unfocus [] ys zs = refl
append-unfocus (u ∷ us) ys zs = append-unfocus us (u ∷ ys) zs

raise_step : (p u y : Ptr) (ys : List Ptr) → y ≢ p → raise p (u ∷ y ∷ ys) ≡ u ∷ raise p (y ∷ ys)
unfolding raise
raise_step p u y ys ne = ground arith

pub raise-unfocus :
    (p : Ptr) (us : List Ptr) (y : Ptr) (ys : List Ptr)
    → has p us ≡ false
    → y ≢ p
    → raise p (unfocus us (y ∷ ys)) ≡ unfocus us (raise p (y ∷ ys))
raise-unfocus p [] y ys out ne = refl
raise-unfocus p (u ∷ us) y ys out ne =
    raise-unfocus p us u (y ∷ ys) (ground arith) (λ e. ground arith)
    ∙ ap (unfocus us) (raise_step p u y ys ne)

pub raise_here : (p y : Ptr) (ys : List Ptr) → raise p (y ∷ p ∷ ys) ≡ p ∷ y ∷ ys
unfolding raise
raise_here p y ys = ground arith

pub raise_absent : (p y : Ptr) (ys : List Ptr) → has p ys ≡ false → raise p (y ∷ ys) ≡ y ∷ ys
unfolding raise
raise_absent p y [] out = refl
raise_absent p y (z ∷ ys) out = ground (arith, raise_absent p z ys)

pub lower-unfocus :
    (p : Ptr) (us : List Ptr) (y : Ptr) (ys : List Ptr)
    → has p us ≡ false
    → lower p (unfocus us (y ∷ ys)) ≡ unfocus us (lower p (y ∷ ys))
lower-unfocus p [] y ys out = refl
lower-unfocus p (u ∷ us) y ys out =
    lower-unfocus p us u (y ∷ ys) (ground arith) ∙ ap (unfocus us) (step p u y ys (ground arith))
  where
    step :
        (p u y : Ptr) (ys : List Ptr)
        → has p (u ∷ us) ≡ false
        → lower p (u ∷ y ∷ ys) ≡ u ∷ lower p (y ∷ ys)
    step p u y ys out = unfold lower in ground arith

pub lower_here : (p y : Ptr) (ys : List Ptr) → lower p (p ∷ y ∷ ys) ≡ y ∷ p ∷ ys
unfolding lower
lower_here p y ys = ground arith

pub lower_last : (p : Ptr) → lower p (p ∷ []) ≡ p ∷ []
unfolding lower
lower_last p = refl

pub remove_here : (p : Ptr) (ys : List Ptr) → remove p (p ∷ ys) ≡ ys
unfolding remove
remove_here p ys = ground arith
