-- ===== src/Receive.antt =====
-- stream.go: receiving on a stream, with its guard, the peeked message, and late replies.
mod Tests
pub mod Replies
use adaptivemsg_go.Bytes.{Bytes}
use adaptivemsg_go.Errors.{Error, Result, concurrent_recv, conn_closed, err, ok, recv_timeout}
use adaptivemsg_go.Prelude.{
  Bool, List, Option, String, [], false, if◌then◌else◌, none, some, suc, true, zero, ℕ, ◌++◌, ◌+◌,
  ◌∷◌,
}

-- raw_message.go: the wire name, and the body that the codec has not decoded yet.
pub record RawMessage : Type 0 where
  pub wire : String
  pub body : Bytes

-- The fields of Stream that receiving uses. `peeked` is `none` while hasPeeked is false.
pub record RecvState : Type 0 where
  pub recv_active : Bool
  pub peeked : Option RawMessage
  pub stale_replies : ℕ
  pub inbox : List RawMessage

-- A new stream.
abbrev pub idle_state : RecvState
idle_state = record { recv_active = false; peeked = none; stale_replies = 0; inbox = [] }

-- How the wait of `readRaw` ends once the inbox has nothing more: the receive timeout, or a closed
-- connection or stream.
pub data Ending : Type 0 where
  timed_out : Ending
  closes_down : Ending

abbrev pub ending_error : Ending → Error
ending_error timed_out = recv_timeout
ending_error closes_down = conn_closed

-- The loop of `readRaw`: `inbox` has what arrives before the end of the wait.
unfoldable pub read_loop : ℕ → List RawMessage → Ending → RecvState → Result RawMessage × RecvState
read_loop stale [] ending s =
    (err (ending_error ending), record s { inbox = []; stale_replies = stale })
read_loop zero (m ∷ ms) ending s = (ok m, record s { inbox = ms; stale_replies = 0 })
read_loop (suc stale) (m ∷ ms) ending s = read_loop stale ms ending s

-- `readRaw`, with the messages that arrive while it waits.
abbrev pub read_raw : RecvState → List RawMessage → Ending → Result RawMessage × RecvState
read_raw s arrivals ending = read_loop s.stale_replies (s.inbox ++ arrivals) ending s

-- `takeRaw`, on the peeked message
abbrev pub take_raw :
    RecvState → Option RawMessage → List RawMessage → Ending → Result RawMessage × RecvState
take_raw s (some m) arrivals ending =
    (ok m, record s { peeked = none; inbox = s.inbox ++ arrivals })
take_raw s none arrivals ending = read_raw s arrivals ending

-- `recvGuard`, around a call that holds it; `release` clears the flag.
abbrev pub guarded {ℓ} :
    {A : Type ℓ} → RecvState → (RecvState → Result A × RecvState) → Result A × RecvState
guarded s call =
    let (r, t) = call (record s { recv_active = true }) in
    if s.recv_active then (err concurrent_recv, s) else (r, record t { recv_active = false })

-- `recvRaw`
unfoldable pub recv_raw : RecvState → List RawMessage → Ending → Result RawMessage × RecvState
recv_raw s arrivals ending = guarded s (λ t. take_raw t t.peeked arrivals ending)

abbrev pub keep_peeked : Result RawMessage × RecvState → Result RawMessage × RecvState
keep_peeked (ok m, s) = (ok m, record s { peeked = some m })
keep_peeked (err e, s) = (err e, s)

abbrev pub peek_held :
    RecvState → Option RawMessage → List RawMessage → Ending → Result RawMessage × RecvState
peek_held s (some m) arrivals ending = (ok m, record s { inbox = s.inbox ++ arrivals })
peek_held s none arrivals ending = keep_peeked (read_raw s arrivals ending)

-- `peekRaw`
unfoldable pub peek_raw : RecvState → List RawMessage → Ending → Result RawMessage × RecvState
peek_raw s arrivals ending = guarded s (λ t. peek_held t t.peeked arrivals ending)

-- A timeout leaves a reply that will come late.
abbrev pub note_stale : Result RawMessage × RecvState → Result RawMessage × RecvState
note_stale (err recv_timeout, s) =
    (err recv_timeout, record s { stale_replies = s.stale_replies + 1 })
note_stale (r, s) = (r, s)

abbrev pub exchange :
    RecvState → Option Error → List RawMessage → Ending → Result RawMessage × RecvState
exchange s (some e) arrivals ending = (err e, record s { inbox = s.inbox ++ arrivals })
exchange s none arrivals ending = note_stale (take_raw s s.peeked arrivals ending)

-- `sendRecvAs` up to the decoding of the reply. `sent` is the outcome of sendBoxed.
unfoldable pub send_recv :
    RecvState → Option Error → List RawMessage → Ending → Result RawMessage × RecvState
send_recv s sent arrivals ending = guarded s (λ t. exchange t sent arrivals ending)
