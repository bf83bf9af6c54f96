-- ===== src/Transport.antt =====
-- recovery_runtime.go: the transport of a connection, attached, detached and closed, and the
-- generations by which the reader and the writer notice.
mod Tests
pub mod Ownership
use adaptivemsg_go.Prelude.{
  Bool, List, Option, [], false, if◌then◌else◌, none, not, some, true, ℕ, ◌%◌, ◌&&◌, ◌+◌, ◌==◌, ◌^◌,
  ◌∷◌,
}

-- Transports are numbers. `closed_conns` has the transports that Close was called on, the newest
-- first; `reconnecting` counts the calls of onDetached, which start a reconnect or the expiry.
pub record Transport : Type 0 where
  pub conn : Option ℕ
  pub gen : ℕ
  pub resume_seq : ℕ
  pub is_closed : Bool
  pub closed_conns : List ℕ
  pub reconnecting : ℕ

abbrev pub new_transport : Transport
new_transport = record {
  conn = none;
  gen = 0;
  resume_seq = 0;
  is_closed = false;
  closed_conns = [];
  reconnecting = 0;
}

abbrev pub close_conn : Option ℕ → List ℕ → List ℕ
close_conn none closed = closed
close_conn (some c) closed = c ∷ closed

-- `c.transportGen.Add(1)`
abbrev pub next_gen : ℕ → ℕ
next_gen gen = (gen + 1) % 2 ^ 64

abbrev pub is_conn : Option ℕ → ℕ → Bool
is_conn none c = false
is_conn (some d) c = d == c

-- `attachTransport`, by whether the connection is closed; a transport that is replaced is closed,
-- unless it is the same one.
abbrev pub attach_if : Bool → Transport → ℕ → ℕ → Transport
attach_if true t conn peer_last_recv_seq = record t { closed_conns = conn ∷ t.closed_conns }
attach_if false t conn peer_last_recv_seq = record t {
  conn = some conn;
  gen = next_gen t.gen;
  resume_seq = peer_last_recv_seq;
  closed_conns = if is_conn t.conn conn then t.closed_conns else close_conn t.conn t.closed_conns;
}

unfoldable pub attach_transport : Transport → ℕ → ℕ → Transport
attach_transport t conn peer_last_recv_seq = attach_if t.is_closed t conn peer_last_recv_seq

-- `detachTransport`, by whether `conn` is the current transport, which is also its result.
abbrev pub detach_if : Bool → Transport → ℕ → Bool × Transport
detach_if false t conn = (false, t)
detach_if true t conn = (
  true,
  record t {
    conn = none;
    gen = next_gen t.gen;
    resume_seq = 0;
    closed_conns = conn ∷ t.closed_conns;
    reconnecting = t.reconnecting + 1;
  },
)

unfoldable pub detach_transport : Transport → ℕ → Bool × Transport
detach_transport t conn = detach_if (is_conn t.conn conn) t conn

-- `closeTransport`
unfoldable pub close_transport : Transport → Transport
close_transport t = record t {
  conn = none;
  gen = next_gen t.gen;
  resume_seq = 0;
  closed_conns = close_conn t.conn t.closed_conns;
}

-- `attachedTransport`, and the test in the loop of `waitForTransport`
abbrev pub newer_transport : Transport → ℕ → Option ℕ → Option (ℕ × ℕ × ℕ)
newer_transport t last_gen none = none
newer_transport t last_gen (some c) =
    if t.gen == last_gen then none else some (c, t.gen, t.resume_seq)

unfoldable pub attached_transport : Transport → ℕ → Option (ℕ × ℕ × ℕ)
attached_transport t last_gen = newer_transport t last_gen t.conn

-- `transportActive`
unfoldable pub transport_active : Transport → ℕ → Bool
transport_active t gen = not t.is_closed && t.gen == gen

-- The calls, in any order. markClosed sets the flag before it closes the transport, and an attach
-- may come in between.
pub data Call : Type 0 where
  attach_call : ℕ → ℕ → Call
  detach_call : ℕ → Call
  set_closed : Call
  close_call : Call

unfoldable pub call : Transport → Call → Transport
call t (attach_call conn seq) = attach_transport t conn seq
call t (detach_call conn) = (detach_transport t conn).1
call t set_closed = record t { is_closed = true }
call t close_call = close_transport t

unfoldable pub calls : Transport → List Call → Transport
calls t [] = t
calls t (c ∷ cs) = calls (call t c) cs
