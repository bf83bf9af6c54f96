-- ===== src/Streams.antt =====
-- connection.go: the table of streams, and the frames that go to them.
mod Tests
pub mod Table
pub mod Queueing
pub mod Others
pub mod Demultiplex
pub mod Closed
use adaptivemsg_go.Bytes.{Bytes}
use adaptivemsg_go.Errors.{Error, conn_closed}
use adaptivemsg_go.Frame.{control_stream_id, frame_flag_fin}
use adaptivemsg_go.Prelude.{
  Bool, List, Option, [], bit_and, false, if◌then◌else◌, leb, length, ltb, map, none, not, some,
  true, ℕ, ◌%◌, ◌&&◌, ◌++◌, ◌+◌, ◌-◌, ◌==◌, ◌^◌, ◌||◌, ◌∷◌,
}

-- A stream as the table sees it. `incoming` holds the payloads queued for the decode loop, `none` for
-- the nil payload that stands for FIN; its capacity only makes the reader wait.
pub record Stream : Type 0 where
  pub incoming : List (Option Bytes)
  pub closed : Bool

-- The maps are association lists. `started` and `released` name the streams that onNewStream and
-- onCloseStream were called for, the newest first.
pub record StreamTable : Type 0 where
  pub is_closed : Bool
  pub next_stream_id : ℕ
  pub streams : List (ℕ × Stream)
  pub closed_peer_streams : List ℕ
  pub started : List ℕ
  pub released : List ℕ

unfoldable pub new_stream_table : StreamTable
new_stream_table = record {
  is_closed = false;
  next_stream_id = 0;
  streams = [];
  closed_peer_streams = [];
  started = [];
  released = [];
}

abbrev pub default_stream_id : ℕ
default_stream_id = 0

abbrev pub max_stream_id : ℕ
max_stream_id = control_stream_id - 1

abbrev pub find_stream : ℕ → List (ℕ × Stream) → Option Stream
find_stream id [] = none
find_stream id ((i, s) ∷ m) = if i == id then some s else find_stream id m

-- `delete(m, id)`, and `m[id] = s` for a key that is there.
abbrev pub delete_stream : ℕ → List (ℕ × Stream) → List (ℕ × Stream)
delete_stream id [] = []
delete_stream id ((i, s) ∷ m) = if i == id then delete_stream id m else (i, s) ∷ delete_stream id m

abbrev pub update_stream : ℕ → Stream → List (ℕ × Stream) → List (ℕ × Stream)
update_stream id t [] = []
update_stream id t ((i, s) ∷ m) = if i == id then (i, t) ∷ m else (i, s) ∷ update_stream id t m

abbrev pub is_member : ℕ → List ℕ → Bool
is_member id [] = false
is_member id (i ∷ is) = if i == id then true else is_member id is

abbrev pub without : ℕ → List ℕ → List ℕ
without id [] = []
without id (i ∷ is) = if i == id then without id is else i ∷ without id is

-- `openedStream`
abbrev pub opened_stream : StreamTable → ℕ → Bool
opened_stream t id = not (id == default_stream_id) && leb id t.next_stream_id

abbrev pub new_stream_ctx : Stream
new_stream_ctx = record { incoming = []; closed = false }

-- `getStreamCtx`, on whether the connection is closed and on the stream that is found.
abbrev pub ctx_for : StreamTable → ℕ → Bool → Bool → Option Stream → Option Stream × StreamTable
ctx_for t id inbound true found = (none, t)
ctx_for t id inbound false (some s) = (some s, t)
ctx_for t id inbound false none =
    if inbound && (is_member id t.closed_peer_streams || opened_stream t id) then (none, t) else (
      some new_stream_ctx,
      record t { streams = (id, new_stream_ctx) ∷ t.streams; started = id ∷ t.started },
    )

-- `getStreamCtx`: whether there is a stream, which may be new.
unfoldable pub get_stream_ctx : StreamTable → ℕ → Bool → Option Stream × StreamTable
get_stream_ctx t id inbound = ctx_for t id inbound t.is_closed (find_stream id t.streams)

-- `NewStream`: the ID of the stream, or `none` for a stream that is closed already.
unfoldable pub new_stream : StreamTable → Option ℕ × StreamTable
new_stream t =
    let id = (t.next_stream_id + 1) % 2 ^ 64 in
    let t = record t { next_stream_id = id } in
    if ltb max_stream_id id then (none, t) else (some id, (get_stream_ctx t (id % 2 ^ 32) false).1)

-- `removeStream`; closing the stream ends its loops.
unfoldable pub remove_stream : StreamTable → ℕ → StreamTable
remove_stream t id = elim (find_stream id t.streams) [
  | none ↦ record t { streams = delete_stream id t.streams }
  | some s ↦ record t { streams = delete_stream id t.streams; released = id ∷ t.released }
]

-- The reservation of `closePeerStream`
unfoldable pub reserve_stream : StreamTable → ℕ → StreamTable
reserve_stream t id = elim (find_stream id t.streams) [
  | none ↦ t
  | some s ↦ record t { closed_peer_streams = id ∷ t.closed_peer_streams }
]

-- `closePeerStream`
unfoldable pub close_peer_stream : StreamTable → ℕ → StreamTable
close_peer_stream t id = remove_stream (reserve_stream t id) id

-- `markClosed` with `closeAllStreams`
pub mark_closed : StreamTable → StreamTable
mark_closed t = if t.is_closed then t else record t {
  is_closed = true;
  streams = [];
  released = map (λ p. p.0) t.streams ++ t.released;
}

-- `incomingQ` on a stream that was found; a stream that is not in the table any more is closed.
abbrev pub queue_in : StreamTable → ℕ → Option Bytes → Option Stream → Option Error × StreamTable
queue_in t id item none = (some conn_closed, t)
queue_in t id item (some s) = if s.closed || t.is_closed then (some conn_closed, t) else (
  none,
  record t {
    streams = update_stream id (record s { incoming = s.incoming ++ (item ∷ []) }) t.streams;
  },
)

-- `incomingQ`
unfoldable pub incoming_q : StreamTable → ℕ → Option Bytes → Option Error × StreamTable
incoming_q t id item = queue_in t id item (find_stream id t.streams)

-- `delete(c.closedPeerStreams, streamID)`
abbrev pub release_id : StreamTable → ℕ → StreamTable
release_id t id = record t { closed_peer_streams = without id t.closed_peer_streams }

abbrev pub is_fin : ℕ → ℕ → Bool
is_fin id flags =
    not (bit_and flags frame_flag_fin == 0)
    && (not (id == default_stream_id) && not (id == control_stream_id))

-- `queueFIN`
abbrev pub queue_fin : StreamTable → ℕ → StreamTable
queue_fin t id = (incoming_q t id none).1

abbrev pub fin_if : Bool → StreamTable → ℕ → StreamTable
fin_if fin t id = if fin then queue_fin t id else t

-- The rest of `acceptFrame`, with the outcome of queueing the payload.
abbrev pub accept_queued :
    Bool → ℕ → StreamTable → Option Error × StreamTable → Option Error × StreamTable
accept_queued fin id t (none, t') = (none, fin_if fin t' id)
accept_queued fin id t (some e, t') = if t'.is_closed then (some e, t') else (none, t')

abbrev pub accept_in : Bool → ℕ → Bytes → Option Stream × StreamTable → Option Error × StreamTable
accept_in fin id payload (none, t) =
    if t.is_closed then (some conn_closed, t) else (none, if fin then release_id t id else t)
accept_in fin id payload (some s, t) =
    if ltb 0 (length payload)
    then accept_queued fin id t (incoming_q t id (some payload))
    else (none, fin_if fin t id)

-- `acceptFrame`, with the value of `fin`
abbrev pub accept_with : Bool → StreamTable → ℕ → Bytes → Option Error × StreamTable
accept_with fin t id payload =
    if fin && length payload == 0
    then (none, queue_fin (release_id t id) id)
    else accept_in fin id payload (get_stream_ctx t id true)

-- `acceptFrame`
unfoldable pub accept_frame : StreamTable → ℕ → ℕ → Bytes → Option Error × StreamTable
accept_frame t id flags payload = accept_with (is_fin id flags) t id payload
