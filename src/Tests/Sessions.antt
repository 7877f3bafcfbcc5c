-- ===== src/Tests/Sessions.antt =====
-- A session whose three requests are answered in the order 1, 0, 2.
use pointerpro_animate.Base.{ℕ, ◌<◌, ◌≡◌, refl, true, false, none, some, List, [], ◌∷◌, arith}
use pointerpro_animate.Text.{Text, print_ulong}
use pointerpro_animate.Session.{Session, Memory, new_session, send_ordered_response}
use pointerpro_animate.Session.Order.{has, responses}
use pointerpro_animate.Session.Delivery.{
  plenty, send_all, IsFresh, send_all-in_order, lost_response_stalls, send_ordered_response-wraps,
  new-Delivered,
}

abbrev pub reply : ℕ → Text
reply t = print_ulong t

abbrev tickets : List ℕ
tickets = 1 ∷ 0 ∷ 2 ∷ []

tickets-IsFresh : IsFresh [] tickets
tickets-IsFresh = (omega arith, refl, (omega arith, refl, (omega arith, refl, tt)))

abbrev pub fresh_session : Session
fresh_session = new_session 77 []

send_all-in_order_example :
    (s : Session) × (send_all reply tickets fresh_session ≡ some s)
    × (s.written ≡ responses reply s.next_response_ticket)
    × ((i : ℕ) → i < s.next_response_ticket → has i tickets ≡ true)
    × (has s.next_response_ticket tickets ≡ false)
send_all-in_order_example = send_all-in_order reply tickets 77 [] tickets-IsFresh

abbrev exhausted : Memory
exhausted = record { realloc = false; strdup = true }

lost_response_stalls_example :
    (send_ordered_response exhausted 0 (reply 0) fresh_session ≡ some fresh_session)
    × ((s' : Session) × (send_all reply (1 ∷ 2 ∷ []) fresh_session ≡ some s') × (s'.written ≡ []))
unfolding new_session
lost_response_stalls_example =
    lost_response_stalls reply [] (1 ∷ 2 ∷ []) fresh_session exhausted (new-Delivered reply 77 [])
      (omega arith) refl (omega arith, refl, (omega arith, refl, tt)) refl

send_ordered_response-wraps_example :
    send_ordered_response plenty 4294967295 (reply 0) fresh_session ≡ none
unfolding new_session
send_ordered_response-wraps_example =
    send_ordered_response-wraps fresh_session 4294967295 (reply 0) (omega arith) (omega arith)
      (omega arith)
