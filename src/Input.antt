-- ===== src/Input.antt =====
-- The main loop of animate-platform/animate_server.c where a client's pipe is readable: the bytes go
-- behind the partial line in the session's read buffer, and each complete line goes to the work queue
-- with a ticket. disconnect_client is that of animate-platform/session.c.
pub mod Stream
pub mod Chunks
pub mod Delivery
use pointerpro_animate.Base.{
  ℕ, zero, suc, ◌+◌, ◌-◌, ◌%◌, ◌^◌, Bool, true, false, Option, none, some, List, [], ◌∷◌, ◌++◌,
  ◌==◌, if◌then◌else◌, length, take,
}
use pointerpro_animate.Text.{Text}
use pointerpro_animate.Session.{Session}

-- sizeof(session->read_buf), and of complete_cmd.
abbrev pub max_rpc_line : ℕ
max_rpc_line = 512

abbrev pub space_left : Session → ℕ
space_left s = max_rpc_line - length s.read_buf - 1

-- strchr(line_start, '\n'): the line before the newline and what stands behind it. The search ends
-- at a NUL.
unfoldable pub split_newline : Text → Option (Text × Text)
split_newline [] = none
split_newline (c ∷ s) =
    let rest = split_newline s in
    if c == 10
    then some ([], s)
    else if c == 0
    then none
    else elim rest [ none ↦ none | some (l, r) ↦ some (c ∷ l, r) ]

-- A command with its ticket, as queue_push gets it.
abbrev pub Request : Type 0
Request = Text × ℕ

abbrev pub next_ticket : ℕ → ℕ
next_ticket ticket = (ticket + 1) % 2 ^ 32

-- The loop over the complete lines: the requests, the bytes left over, and the next ticket. A round
-- drops a newline at least, so the number of bytes is fuel enough.
unfoldable pub process_lines : ℕ → Text → ℕ → List Request × Text × ℕ
unfolding split_newline
process_lines zero buf ticket = ([], buf, ticket)
process_lines (suc fuel) buf ticket = elim (split_newline buf) [
  | none ↦ ([], buf, ticket)
  | some (l, rest) ↦
      if length l == 0
      then process_lines fuel rest ticket
      else (let (requests, left, next) = process_lines fuel rest (next_ticket ticket) in
          ((take (max_rpc_line - 1) l, ticket) ∷ requests, left, next))
]

-- What the loop does with bytes that it has read.
unfoldable pub receive : Text → Session → List Request × Session
unfolding process_lines
receive bytes s =
    let buf : Text = s.read_buf ++ bytes in
    let (requests, left, next) = process_lines (length buf) buf s.next_ticket in
    (requests, record s { read_buf = left; next_ticket = next })

-- The descriptors are closed and the FIFOs removed: of a session that is not active, `fd_s2c` takes no
-- more writes (`flush`), and the main loop reads no more from `fd_c2s`.
unfoldable pub disconnect_client : Session → Session
disconnect_client s = if s.active then record s { active = false } else s

-- read gives at most `space_left` bytes, and none at the end of the file or where there is no space.
unfoldable pub on_readable : Text → Session → List Request × Session
unfolding receive disconnect_client
on_readable [] s = ([], disconnect_client s)
on_readable (c ∷ bytes) s = receive (c ∷ bytes) s
