-- ===== src/Client/Printed.antt =====
-- The lines of a dialogue, as they are printed and as the server reads them.
use pointerpro_animate.Base.{
  ◌+◌, ◌≤◌, ◌≡◌, refl, sym, ap, ◌∙◌, true, List, [], ◌∷◌, ◌++◌, arith, ◌==◌, length, length-append,
  Bool-cases, inl, inr,
}
use mathlib.Core.List.{append_assoc, append-nil}
use pointerpro_animate.Text.{Text, codes}
use pointerpro_animate.Users.Scan.{no_white, no_newline, no_newline_of, no_newline-append}
use pointerpro_animate.Input.Stream.{lines_from, lines_of}
use pointerpro_animate.Client.Login.{login}
use pointerpro_animate.Client.Lines.{AreCommands, print_lines, nonempty}

abbrev pub disconnect : Text
disconnect = codes "Disconnect"

-- What a client asks for: a login, these commands, and the disconnection.
abbrev pub dialogue : (name : Text) (commands : List Text) → List Text
dialogue name commands = login name ∷ (commands ++ disconnect ∷ [])

pub print_lines-append :
    (xs ys : List Text) → print_lines (xs ++ ys) ≡ print_lines xs ++ print_lines ys
print_lines-append [] ys = refl
print_lines-append (x ∷ xs) ys =
    ap (λ (t : Text). x ++ 10 ∷ t) (print_lines-append xs ys)
    ∙ sym (append_assoc x (10 ∷ print_lines xs) (print_lines ys))

pub length-print_lines : (xs : List Text) → length xs ≤ length (print_lines xs)
length-print_lines [] = omega arith
length-print_lines (x ∷ xs) =
    omega (arith, length-print_lines xs, length-append {0} x (10 ∷ print_lines xs))

-- Whole lines.
abbrev ArePlain : List Text → Type 0
ArePlain [] = Unit
ArePlain (l ∷ ls) = (1 ≤ length l) × (no_newline l ≡ true) × ArePlain ls

lines_from_line :
    (start l s : Text)
    → no_newline l ≡ true
    → 1 ≤ length start + length l
    → (lines_from start (l ++ 10 ∷ s)).0 ≡ (start ++ l) ∷ (lines_of s)
lines_from_line [] [] s one_line full = absurd (omega arith)
lines_from_line (b ∷ start) [] s one_line full = ground (arith, append-nil start)
lines_from_line start (c ∷ l) s one_line full =
    let later =
      lines_from_line (start ++ c ∷ []) l s (ground arith)
        (omega (arith, length-append {0} start (c ∷ []))) in
    ground (arith, later, append_assoc start (c ∷ []) l)

pub lines_of-print_lines : (ls : List Text) → ArePlain ls → lines_of (print_lines ls) ≡ ls
lines_of-print_lines [] v = refl
lines_of-print_lines (l ∷ ls) v =
    lines_from_line [] l (print_lines ls) v.1 (omega (arith, v.0))
    ∙ ap (λ t. l ∷ t) (lines_of-print_lines ls v.2)

nonempty-ArePlain :
    (lines : List Text) → AreCommands lines → ArePlain (nonempty lines ++ disconnect ∷ [])
nonempty-ArePlain [] v = (omega arith, refl, tt)
nonempty-ArePlain (l ∷ lines) v = elim (Bool-cases (length l == 0)) [
  | inl empty ↦ rw empty (nonempty-ArePlain lines v.1)
  | inr full ↦ rw full ((ground arith, v.0.one_line, nonempty-ArePlain lines v.1))
]

pub dialogue-ArePlain :
    (name : Text) (lines : List Text)
    → no_white name ≡ true
    → AreCommands lines
    → ArePlain (dialogue name (nonempty lines))
dialogue-ArePlain name lines one_word v = (
  omega arith,
  no_newline-append (codes "Login ") name refl (no_newline_of name one_word),
  nonempty-ArePlain lines v,
)
