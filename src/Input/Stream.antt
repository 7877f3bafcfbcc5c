-- ===== src/Input/Stream.antt =====
-- The requests that a client's bytes stand for, however they arrive.
use pointerpro_animate.Base.{
  ℕ, zero, suc, ◌+◌, ◌-◌, ◌^◌, ◌≤◌, ◌<◌, ◌≡◌, refl, ap, sym, subst, ◌∙◌, Bool, true, false, Option,
  none, some, List, [], ◌∷◌, ◌++◌, arith, ◌==◌, if◌then◌else◌, length, take, take-all, Bool-cases,
  Option-cases, inl, inr,
}
use mathlib.Core.List.{append_assoc}
use native.Mathlib.Nat.{mod-eq_of_lt}
use pointerpro_animate.Text.{Text}
use pointerpro_animate.Session.{Session}
use pointerpro_animate.Input.{
  max_rpc_line, split_newline, Request, next_ticket, process_lines, receive,
}

-- The lines of a text that are not empty, after the start of a line.
abbrev pub lines_from : Text → Text → List Text × Text
lines_from start [] = ([], start)
lines_from start (c ∷ s) =
    if c == 10
    then (if length start == 0
        then lines_from [] s
        else (start ∷ (lines_from [] s).0, (lines_from [] s).1))
    else lines_from (start ++ c ∷ []) s

-- The lines of a text that are not empty.
abbrev pub lines_of : Text → List Text
lines_of s = (lines_from [] s).0

-- What stands behind the last newline.
abbrev pub partial_line : Text → Text
partial_line s = (lines_from [] s).1

-- With consecutive tickets.
abbrev pub number : ℕ → List Text → List Request
number ticket [] = []
number ticket (l ∷ ls) = (l, ticket) ∷ number (ticket + 1) ls

abbrev pub no_nul : Text → Bool
no_nul [] = true
no_nul (c ∷ s) = if c == 0 then false else no_nul s

pub lines_from-append :
    (start a b : Text)
    → lines_from start (a ++ b) ≡ (
      (lines_from start a).0 ++ (lines_from (lines_from start a).1 b).0,
      (lines_from (lines_from start a).1 b).1,
    )
lines_from-append start [] b = refl
lines_from-append start (c ∷ a) b =
    ground (arith, lines_from-append [] a b, lines_from-append (start ++ c ∷ []) a b)

abbrev emit : Text → List Text × Text → List Text × Text
emit l p = if length l == 0 then p else (l ∷ p.0, p.1)

abbrev after_split : Text → Text → Option (Text × Text) → List Text × Text
after_split start s none = ([], start ++ s)
after_split start s (some (l, r)) = emit (start ++ l) (lines_from [] r)

split_shift :
    (start : Text) (c : ℕ) (s : Text) (o : Option (Text × Text))
    → after_split (start ++ c ∷ []) s o
      ≡ after_split start (c ∷ s) (elim o [ none ↦ none | some (l, r) ↦ some (c ∷ l, r) ])
split_shift start c s none = ap (λ t. ([], t)) (append_assoc start (c ∷ []) s)
split_shift start c s (some (l, r)) =
    ap (λ t. emit t (lines_from [] r)) (append_assoc start (c ∷ []) l)

pub append_empty : (s : Text) → s ++ [] ≡ s
append_empty [] = refl
append_empty (c ∷ s) = ap (λ t. c ∷ t) (append_empty s)

lines_from-split :
    (start s : Text) → no_nul s ≡ true → lines_from start s ≡ after_split start s (split_newline s)
unfolding split_newline
lines_from-split start [] h = ap (λ t. ([], t)) (sym (append_empty start))
lines_from-split start (c ∷ s) h = elim (Bool-cases (c == 10)) [
  | inl e ↦ rw e (ap (λ t. emit t (lines_from [] s)) (sym (append_empty start)))
  | inr e ↦
      let plain : (c == 0) ≡ false = ground arith in
      rw (e, plain)
        (lines_from-split (start ++ c ∷ []) s (ground arith)
          ∙ split_shift start c s (split_newline s))
]

-- The line and the rest are shorter than the text.
split_size :
    (s l r : Text)
    → split_newline s ≡ some (l, r)
    → no_nul s ≡ true
    → (length l + length r + 1 ≡ length s) × (no_nul r ≡ true)
unfolding split_newline
split_size [] l r e h = absurd (cc)
split_size (c ∷ s) l r e h = elim (Bool-cases (c == 10)) [
  | inl hit ↦ ground arith
  | inr miss ↦ elim (Option-cases (split_newline s)) [
    | inl nothing ↦ absurd (ground arith)
    | inr ((l', r'), found) ↦ ground (arith, split_size s l' r' found)
  ]
]

abbrev outcome : ℕ → List Text × Text → List Request × Text × ℕ
outcome ticket p = (number ticket p.0, p.1, ticket + length p.0)

round_lem :
    (fuel : ℕ) (buf l r : Text) (ticket : ℕ)
    → split_newline buf ≡ some (l, r)
    → length l < max_rpc_line
    → ticket + length (emit l (lines_from [] r)).0 < 2 ^ 32
    → ((next : ℕ)
        → next + length (lines_of r) < 2 ^ 32
        → process_lines fuel r next ≡ outcome next (lines_from [] r))
    → process_lines (suc fuel) buf ticket ≡ outcome ticket (emit l (lines_from [] r))
unfolding process_lines
round_lem fuel buf l r ticket e short fits rest = elim (Bool-cases (length l == 0)) [
  | inl blank ↦ ground (arith, rest ticket)
  | inr solid ↦
      let whole : take (max_rpc_line - 1) l ≡ l = take-all 511 l (omega arith) in
      let step : next_ticket ticket ≡ ticket + 1 = mod-eq_of_lt (ground arith) in
      let later = rest (ticket + 1) (ground arith) in ground (arith, later, step, whole)
]

process_lines_lem :
    (fuel : ℕ) (buf : Text) (ticket : ℕ)
    → length buf ≤ fuel
    → length buf < max_rpc_line
    → no_nul buf ≡ true
    → ticket + length (lines_of buf) < 2 ^ 32
    → process_lines fuel buf ticket ≡ outcome ticket (lines_from [] buf)
unfolding process_lines split_newline
process_lines_lem zero [] ticket enough short plain fits = ground arith
process_lines_lem zero (c ∷ buf) ticket enough short plain fits = absurd (omega arith)
process_lines_lem (suc fuel) buf ticket enough short plain fits =
    let split = lines_from-split [] buf plain in
    elim (Option-cases (split_newline buf)) [
      | inl nothing ↦
          last_round fuel buf ticket nothing
          ∙ sym (ap (outcome ticket) (split ∙ ap (after_split [] buf) nothing))
      | inr ((l, r), found) ↦
          let now : lines_from [] buf ≡ emit l (lines_from [] r) =
            split ∙ ap (after_split [] buf) found in
          let (size, plain') = split_size buf l r found plain in
          round_lem fuel buf l r ticket found (omega arith)
            (subst (λ (p : List Text × Text). ticket + length p.0 < 2 ^ 32) now fits)
            (λ next room. process_lines_lem fuel r next (omega arith) (omega arith) plain' room)
          ∙ sym (ap (outcome ticket) now)
    ]
  where
    last_round :
        (fuel : ℕ) (buf : Text) (ticket : ℕ)
        → split_newline buf ≡ none
        → process_lines (suc fuel) buf ticket ≡ outcome ticket ([], buf)
    last_round fuel buf ticket e = ground arith

-- The session after the lines of this text.
abbrev pub advanced : Session → List Text × Text → Session
advanced s p = record s { read_buf = p.1; next_ticket = s.next_ticket + length p.0 }

pub receive_lem :
    (bytes : Text) (s : Session)
    → length (s.read_buf ++ bytes) < max_rpc_line
    → no_nul (s.read_buf ++ bytes) ≡ true
    → s.next_ticket + length (lines_of (s.read_buf ++ bytes)) < 2 ^ 32
    → receive bytes s ≡ (
      number s.next_ticket (lines_of (s.read_buf ++ bytes)),
      advanced s (lines_from [] (s.read_buf ++ bytes)),
    )
unfolding receive
receive_lem bytes s short plain fits =
    let buf : Text = s.read_buf ++ bytes in
    ap (λ (o : List Request × Text × ℕ). (o.0, record s { read_buf = o.1; next_ticket = o.2 }))
      (process_lines_lem (length buf) buf s.next_ticket (omega arith) short plain fits)

pub no_nul-append : (a b : Text) → no_nul a ≡ true → no_nul b ≡ true → no_nul (a ++ b) ≡ true
no_nul-append [] b h k = k
no_nul-append (c ∷ a) b h k = ground (arith, no_nul-append a b)

pub no_nul-partial :
    (start s : Text) → no_nul start ≡ true → no_nul s ≡ true → no_nul (lines_from start s).1 ≡ true
no_nul-partial start [] h k = h
no_nul-partial start (c ∷ s) h k = ground (
  arith,
  no_nul-partial [] s refl,
  no_nul-append start (c ∷ []) h,
  no_nul-partial (start ++ c ∷ []) s,
)

-- The start of a line.
abbrev pub IsPartial : Text → Type 0
IsPartial s = lines_from [] s ≡ ([], s)

extends : (c : ℕ) (start : Text) → (c == 10) ≡ false → IsPartial start → IsPartial (start ++ c ∷ [])
extends c start e v = ground (arith, lines_from-append [] start (c ∷ []), v)

pub lines_from-IsPartial : (start s : Text) → IsPartial start → IsPartial (lines_from start s).1
lines_from-IsPartial start [] v = v
lines_from-IsPartial start (c ∷ s) v = elim (Bool-cases (c == 10)) [
  | inl e ↦
      let later = lines_from-IsPartial [] s refl in
      elim (Bool-cases (length start == 0)) [
        | inl blank ↦ rw (e, blank) later
        | inr solid ↦ rw (e, solid) later
      ]
  | inr e ↦ rw e (lines_from-IsPartial (start ++ c ∷ []) s (extends c start e v))
]
