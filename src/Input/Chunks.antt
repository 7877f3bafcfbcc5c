-- ===== src/Input/Chunks.antt =====
-- Any number of reads of a client's bytes, of whatever length.
use pointerpro_animate.Base.{
  ℕ, ◌+◌, ◌^◌, ◌≤◌, ◌<◌, ◌≡◌, refl, ap, sym, subst, ◌∙◌, true, List, [], ◌∷◌, ◌++◌, arith, length,
  length-append,
}
use mathlib.Core.List.{append_assoc}
use pointerpro_animate.Text.{Text}
use pointerpro_animate.Session.{Session, new_session}
use pointerpro_animate.Input.{space_left, Request, receive, on_readable}
use pointerpro_animate.Input.Stream.{
  lines_from, lines_of, partial_line, number, no_nul, lines_from-append, advanced, receive_lem,
  no_nul-append, no_nul-partial, append_empty, IsPartial, lines_from-IsPartial,
}

-- One read after another.
unfoldable pub receive_all : List Text → Session → List Request × Session
receive_all [] s = ([], s)
receive_all (bytes ∷ chunks) s =
    let (requests, s') = on_readable bytes s in
    let (later, t) = receive_all chunks s' in (requests ++ later, t)

-- Reads that find some bytes, none of them NUL, and no more than there is space for.
abbrev pub Arrives : Session → List Text → Type 0
Arrives s [] = Unit
Arrives s (bytes ∷ chunks) =
    (1 ≤ length bytes)
    × (length bytes ≤ space_left s)
    × (no_nul bytes ≡ true)
    × Arrives (on_readable bytes s).1 chunks

abbrev pub concat : List Text → Text
concat [] = []
concat (bytes ∷ chunks) = bytes ++ concat chunks

number-append :
    (n : ℕ) (xs ys : List Text) → number n (xs ++ ys) ≡ number n xs ++ number (n + length xs) ys
number-append n [] ys = ap (λ k. number k ys) (omega arith)
number-append n (x ∷ xs) ys =
    ap (λ l. (x, n) ∷ l)
      (number-append (n + 1) xs ys ∙ ap (λ k. number (n + 1) xs ++ number k ys) (omega arith))

on_readable_lem :
    (bytes : Text) (s : Session) → 1 ≤ length bytes → on_readable bytes s ≡ receive bytes s
unfolding on_readable
on_readable_lem [] s h = absurd (omega arith)
on_readable_lem (c ∷ bytes) s h = refl

-- What stands in the buffer after some text.
abbrev pub Waits : Session → Type 0
Waits s = IsPartial s.read_buf × (no_nul s.read_buf ≡ true)

abbrev result : Session → List Text × Text → List Request × Session
result s p = (number s.next_ticket p.0, advanced s p)

result_none : (s : Session) → result s ([], s.read_buf) ≡ ([], s)
result_none s =
    let zero_more : s.next_ticket + 0 ≡ s.next_ticket = omega arith in
    ap (λ k. ([], record s { next_ticket = k })) zero_more

tickets_add : (n : ℕ) (xs ys : List Text) → n + length (xs ++ ys) ≡ n + length xs + length ys
tickets_add n xs ys = omega (arith, length-append {0} xs ys)

result-append :
    (s : Session) (p q : List Text × Text)
    → result s (p.0 ++ q.0, q.1)
      ≡ ((result s p).0 ++ (result (advanced s p) q).0, (result (advanced s p) q).1)
result-append s p q =
    ap (λ l. (l, advanced s (p.0 ++ q.0, q.1))) (number-append s.next_ticket p.0 q.0)
    ∙ ap
        (λ n. (
          number s.next_ticket p.0 ++ number (s.next_ticket + length p.0) q.0,
          record s { read_buf = q.1; next_ticket = n },
        ))
        (tickets_add s.next_ticket p.0 q.0)

lines_from-chunks :
    (buf rest : Text)
    → IsPartial (lines_from [] buf).1
    → lines_from [] (buf ++ rest) ≡ (
      (lines_from [] buf).0 ++ (lines_from [] ((lines_from [] buf).1 ++ rest)).0,
      (lines_from [] ((lines_from [] buf).1 ++ rest)).1,
    )
lines_from-chunks buf rest v =
    let p = lines_from [] buf in
    let again : lines_from [] (p.1 ++ rest) ≡ lines_from p.1 rest =
      lines_from-append [] p.1 rest
      ∙ ap (λ (k : List Text × Text). (k.0 ++ (lines_from k.1 rest).0, (lines_from k.1 rest).1))
          v in
    lines_from-append [] buf rest ∙ ap (λ (k : List Text × Text). (p.0 ++ k.0, k.1)) (sym again)

receive_all_lem :
    (chunks : List Text) (s : Session)
    → Waits s
    → Arrives s chunks
    → s.next_ticket + length (lines_of (s.read_buf ++ concat chunks)) < 2 ^ 32
    → receive_all chunks s ≡ result s (lines_from [] (s.read_buf ++ concat chunks))
unfolding receive_all
receive_all_lem [] s (v, plain) arrives fits =
    sym (result_none s) ∙ ap (result s) (sym (ap (lines_from []) (append_empty s.read_buf) ∙ v))
receive_all_lem (bytes ∷ chunks) s (v, plain) (some_byte, room, clean, arrives) fits =
    let buf : Text = s.read_buf ++ bytes in
    let rest : Text = concat chunks in
    let p = lines_from [] buf in
    let t : Session = advanced s p in
    let q = lines_from [] (p.1 ++ rest) in
    let v' : IsPartial p.1 = lines_from-IsPartial [] buf refl in
    let clean' : no_nul buf ≡ true = no_nul-append s.read_buf bytes plain clean in
    let whole : lines_from [] (s.read_buf ++ (bytes ++ rest)) ≡ (p.0 ++ q.0, q.1) =
      ap (lines_from []) (sym (append_assoc s.read_buf bytes rest))
      ∙ lines_from-chunks buf rest v' in
    let count : s.next_ticket + length p.0 + length q.0 < 2 ^ 32 =
      omega
        (arith, ap (λ (k : List Text × Text). length k.0) whole, length-append {0} p.0 q.0, fits) in
    let now : on_readable bytes s ≡ result s p =
      on_readable_lem bytes s some_byte
      ∙ receive_lem bytes s (omega (arith, length-append {0} s.read_buf bytes, some_byte, room))
          clean' (omega (arith, count)) in
    let later =
      receive_all_lem chunks t (v', no_nul-partial [] buf refl clean')
        (subst (λ (r : List Request × Session). Arrives r.1 chunks) now arrives) count in
    ap
      (λ (r : List Request × Session).
        (r.0 ++ (receive_all chunks r.1).0, (receive_all chunks r.1).1))
      now
    ∙ ap (λ (r : List Request × Session). ((result s p).0 ++ r.0, r.1)) later
    ∙ sym (result-append s p q)
    ∙ ap (result s) (sym whole)

-- A new client's bytes arrive in reads of any length that find some bytes, none of them NUL, and no more
-- than there is space for: with fewer than 2^32 lines, the requests that go to the work queue are the
-- lines that are not empty, in their order and with the tickets 0, 1, 2 and so on, whatever
-- the reads; what stands behind the last newline waits in the buffer.
pub receive_all-lines :
    (chunks : List Text) (pid : ℕ) (garbage : Text)
    → Arrives (new_session pid garbage) chunks
    → length (lines_of (concat chunks)) < 2 ^ 32
    → receive_all chunks (new_session pid garbage) ≡ (
      number 0 (lines_of (concat chunks)),
      record (new_session pid garbage) {
        read_buf = partial_line (concat chunks);
        next_ticket = length (lines_of (concat chunks));
      },
    )
unfolding new_session
receive_all-lines chunks pid garbage arrives fits =
    receive_all_lem chunks (new_session pid garbage) (refl, refl) arrives (omega (arith, fits))
    ∙ ap
        (λ k. (
          number 0 (lines_of (concat chunks)),
          record (new_session pid garbage) {
            read_buf = partial_line (concat chunks);
            next_ticket = k;
          },
        ))
        (zero_plus (length (lines_of (concat chunks))))
  where
    zero_plus : (n : ℕ) → 0 + n ≡ n
    zero_plus n = omega arith
