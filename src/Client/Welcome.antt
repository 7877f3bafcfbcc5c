-- ===== src/Client/Welcome.antt =====
-- The server's answer to a Login that it accepts, as the client reads it.
use pointerpro_animate.Base.{
  ℕ, ◌^◌, ◌≤◌, ◌<◌, ◌≡◌, refl, ap, ◌∙◌, true, false, some, List, [], ◌∷◌, ◌++◌, arith, length,
  length-append,
}
use pointerpro_animate.Base.Int.{ℤ, pos}
use pointerpro_animate.Text.{Text, codes, starts_digit, print_ulong}
use pointerpro_animate.Text.RoundTrip.{strtol-print_ulong, print_ulong-starts_digit}
use pointerpro_animate.Users.{to_int}
use pointerpro_animate.Users.Scan.{no_white, length-decimal}
use pointerpro_animate.Rpc.{line}
use pointerpro_animate.Client.{Client, again, starts_with, print_int, welcome, client_round}
use pointerpro_animate.Client.Lines.{without_newline-append}
use pointerpro_animate.Client.Login.{login, welcome_round}

reject_digit : (s : Text) → starts_digit s ≡ true → starts_with (codes "Reject ") s ≡ false
unfolding starts_with starts_digit
reject_digit [] d = refl
reject_digit (c ∷ s) d = ground arith

length-print_ulong : (n : ℕ) → length (print_ulong n) ≤ 20
unfolding print_ulong
length-print_ulong n = length-decimal 19 n []

abbrev pub welcomed : Text → ℕ → Text
welcomed name balance =
    codes "Welcome " ++ (name ++ (codes ". Your balance is " ++ (print_ulong balance ++ 10 ∷ [])))

small_int : (n : ℕ) → n < 2 ^ 31 → print_int (to_int (pos n)) ≡ print_ulong n
unfolding print_int
small_int n small = ground arith

welcome-print_ulong :
    (name : Text) (balance : ℕ)
    → balance < 2 ^ 31
    → welcome name (print_ulong balance) ≡ welcomed name balance
welcome-print_ulong name balance small =
    ap
      (λ (z : ℤ × Text).
        codes "Welcome "
        ++ (name ++ (codes ". Your balance is " ++ (print_int (to_int z.0) ++ 10 ∷ []))))
      (strtol-print_ulong balance (omega arith))
    ∙ ap
        (λ (t : Text). codes "Welcome " ++ (name ++ (codes ". Your balance is " ++ (t ++ 10 ∷ []))))
        (small_int balance small)

-- The client takes the balance for what it is.
pub balance_round :
    (name : Text) (balance : ℕ) (reads : List Text) (c : Client)
    → no_white name ≡ true
    → 1 ≤ length name
    → length name ≤ 63
    → balance < 2 ^ 31
    → client_round (login name) (line (print_ulong balance) ∷ reads) c
      ≡ some (
          again reads (record {
            logged_in = true;
            sent = c.sent ++ (login name ++ 10 ∷ []);
            printed = c.printed ++ welcomed name balance;
          }))
balance_round name balance reads c one_word some_byte short small =
    let response : Text = print_ulong balance in
    let stripped = without_newline-append response in
    let d = print_ulong-starts_digit balance in
    let size = length-append {0} response (10 ∷ []) in
    welcome_round name (line response) reads c one_word some_byte short (omega (arith, size))
      (omega (arith, size, length-print_ulong balance))
      (ap (starts_with (codes "Reject ")) stripped ∙ reject_digit response d)
    ∙ ap
        (λ (t : Text). some (
          again reads (record {
            logged_in = true;
            sent = c.sent ++ (login name ++ 10 ∷ []);
            printed = c.printed ++ t;
          })))
        (ap (welcome name) stripped ∙ welcome-print_ulong name balance small)
