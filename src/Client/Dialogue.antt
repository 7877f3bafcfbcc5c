-- ===== src/Client/Dialogue.antt =====
-- A client's dialogue with the server, from its login to its disconnection.
use pointerpro_animate.Base.{
  ℕ, suc, ◌+◌, ◌≤◌, ◌≡◌, refl, sym, ap, ◌∙◌, true, false, List, [], ◌∷◌, ◌++◌, arith, ◌==◌, length,
  Bool-cases, inl, inr,
}
use mathlib.Core.List.{append_assoc, append-nil}
use pointerpro_animate.Text.{Text, without_newline}
use pointerpro_animate.Client.{Client, send, print, shown, client_round, client_loop}
use pointerpro_animate.Client.Lines.{
  IsCommand, AreCommands, AreResponses, print_lines, nonempty, show_all, exchanged, send_short,
  loop_line, command_round, empty_round, goes_on,
}

exchanged_none : (c : Client) → exchanged [] [] c ≡ c
exchanged_none c = rw (append-nil c.sent, append-nil c.printed) refl

exchanged_more :
    (l : Text) (ls : List Text) (r : Text) (rs : List Text) (c : Client)
    → length l ≤ 98
    → exchanged ls rs (print (shown (without_newline r)) (send l c)) ≡ exchanged (l ∷ ls) (r ∷ rs) c
exchanged_more l ls r rs c short =
    ap (λ c'. exchanged ls rs (print (shown (without_newline r)) c')) (send_short l c short)
    ∙ rw
        (
          append_assoc c.sent (l ++ 10 ∷ []) (print_lines ls),
          append_assoc l (10 ∷ []) (print_lines ls),
          append_assoc c.printed (shown (without_newline r)) (show_all rs),
        )
        refl

commands_step :
    (l : Text) (lines : List Text) (fuel : ℕ) (stdin : Text) (reads : List Text) (c : Client)
    → IsCommand l
    → client_loop (length (l ∷ lines) + fuel) (print_lines (l ∷ lines) ++ stdin) reads c
      ≡ goes_on (length lines + fuel) (print_lines lines ++ stdin) (client_round l reads c)
commands_step l lines fuel stdin reads c v =
    ap (λ n. client_loop n (print_lines (l ∷ lines) ++ stdin) reads c) (omega arith)
    ∙ ap (λ t. client_loop (suc (length lines + fuel)) t reads c)
        (append_assoc l (10 ∷ print_lines lines) stdin)
    ∙ loop_line (length lines + fuel) l (print_lines lines ++ stdin) reads c v.one_line v.short

abbrev Exchanges :
    (lines responses : List Text) (fuel : ℕ) (stdin : Text) (reads : List Text) → Client → Type 0
Exchanges lines responses fuel stdin reads c =
    client_loop (length lines + fuel) (print_lines lines ++ stdin) (responses ++ reads) c
    ≡ client_loop fuel stdin reads (exchanged (nonempty lines) responses c)

-- An empty line is passed over.
empty_line :
    (l : Text) (lines responses : List Text) (fuel : ℕ) (stdin : Text) (reads : List Text)
    (c : Client)
    → IsCommand l
    → (length l == 0) ≡ true
    → Exchanges lines responses fuel stdin reads c
    → Exchanges (l ∷ lines) responses fuel stdin reads c
empty_line l lines responses fuel stdin reads c v empty later =
    commands_step l lines fuel stdin (responses ++ reads) c v
    ∙ ap (goes_on (length lines + fuel) (print_lines lines ++ stdin))
        (empty_round l (responses ++ reads) c (ground arith))
    ∙ later
    ∙ rw empty refl

full_line :
    (l : Text) (lines : List Text) (r : Text) (rs : List Text) (fuel : ℕ) (stdin : Text)
    (reads : List Text) (c : Client)
    → IsCommand l
    → (length l == 0) ≡ false
    → 1 ≤ length r
    → length r ≤ 127
    → c.logged_in ≡ true
    → Exchanges lines rs fuel stdin reads (print (shown (without_newline r)) (send l c))
    → Exchanges (l ∷ lines) (r ∷ rs) fuel stdin reads c
full_line l lines r rs fuel stdin reads c v full found fits logged_in later =
    commands_step l lines fuel stdin (r ∷ (rs ++ reads)) c v
    ∙ ap (goes_on (length lines + fuel) (print_lines lines ++ stdin))
        (command_round l r (rs ++ reads) c v (ground arith) found fits logged_in)
    ∙ later
    ∙ ap (client_loop fuel stdin reads) (exchanged_more l (nonempty lines) r rs c v.short)
    ∙ rw full refl

-- The loop takes these commands with their responses.
pub commands_run :
    (lines responses : List Text) (fuel : ℕ) (stdin : Text) (reads : List Text) (c : Client)
    → AreCommands lines
    → AreResponses responses
    → length responses ≡ length (nonempty lines)
    → c.logged_in ≡ true
    → Exchanges lines responses fuel stdin reads c
commands_run [] [] fuel stdin reads c v w match logged_in =
    ap (λ n. client_loop n stdin reads c) (omega arith)
    ∙ ap (client_loop fuel stdin reads) (sym (exchanged_none c))
commands_run [] (r ∷ rs) fuel stdin reads c v w match logged_in = absurd (omega arith)
commands_run (l ∷ lines) [] fuel stdin reads c v w match logged_in =
    let empty : (length l == 0) ≡ true = ground arith in
    empty_line l lines [] fuel stdin reads c v.0 empty
      (commands_run lines [] fuel stdin reads c v.1 tt (ground arith) logged_in)
commands_run (l ∷ lines) (r ∷ rs) fuel stdin reads c v w match logged_in =
    elim (Bool-cases (length l == 0)) [
      | inl empty ↦
          empty_line l lines (r ∷ rs) fuel stdin reads c v.0 empty
            (commands_run lines (r ∷ rs) fuel stdin reads c v.1 w (ground arith) logged_in)
      | inr full ↦ full_line l lines r rs fuel stdin reads c v.0 full w.0 w.1 logged_in (
          commands_run lines rs fuel stdin reads (print (shown (without_newline r)) (send l c)) v.1
            w.2 (ground arith) logged_in)
    ]
