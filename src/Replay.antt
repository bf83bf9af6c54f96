-- ===== src/Replay.antt =====
-- replay.go: the buffer of sent frames that are not acknowledged yet.
mod Tests
pub mod Search
pub mod Queue
pub mod Layout
pub mod Refine
pub mod Operations
pub mod Run
use adaptivemsg_go.Bytes.{Bytes}
use adaptivemsg_go.Errors.{Error, err, frame_too_large, invalid_message, ok}
use adaptivemsg_go.Frame.{frame_header_len_for_version, frame_header_len_v3}
use adaptivemsg_go.Prelude.{
  Bool, List, Option, [], drop, get_elem?, if◌then◌else◌, leb, length, ltb, none, set, some, suc,
  zero, ℕ, ◌&&◌, ◌++◌, ◌+◌, ◌-◌, ◌/◌, ◌==◌, ◌∷◌,
}

pub record FrameRecord : Type 0 where
  pub stream_id : ℕ
  pub seq : ℕ
  pub flags : ℕ
  pub payload : Bytes
  pub size : ℕ

-- outboundFrame of connection.go. `queued` and `closing` name channels.
pub record OutboundFrame : Type 0 where
  pub stream_id : ℕ
  pub seq : ℕ
  pub flags : ℕ
  pub payload : Bytes
  pub queued : Option ℕ
  pub closing : Option ℕ

-- An entry of `frames` is a pointer, `none` once it is set to nil. Byte counts are int64 and stay
-- far below 2 ^ 63; `max_bytes` is 0 where the source has no limit (zero or negative).
pub record ReplayBuffer : Type 0 where
  pub header_len : ℕ
  pub max_bytes : ℕ
  pub used_bytes : ℕ
  pub last_acked : ℕ
  pub frames : List (Option FrameRecord)
  pub head : ℕ

unfoldable pub new_replay_buffer : ℕ → ℕ → ReplayBuffer
new_replay_buffer version max_bytes = record {
  header_len = elim (frame_header_len_for_version version) [
    | ok n ↦ n
    | err e ↦ frame_header_len_v3
  ];
  max_bytes = max_bytes;
  used_bytes = 0;
  last_acked = 0;
  frames = [];
  head = 0;
}

-- The three outcomes of `stage`: (record, false, nil), (nil, true, nil) and (nil, false, err).
pub data Staged : Type 0 where
  kept : FrameRecord → Staged
  held : Staged
  failed : Error → Staged

-- The sequence number behind a pointer. The source panics on nil; `IsValid` rules that out.
abbrev pub seq_of : Option (Option FrameRecord) → ℕ
seq_of (some (some r)) = r.seq
seq_of (some none) = 0
seq_of none = 0

unfoldable pub stage : ReplayBuffer → OutboundFrame → ℕ → Staged × ReplayBuffer
stage b frame seq =
    let size = b.header_len + length frame.payload in
    let n = length b.frames in
    let r : FrameRecord = record {
      stream_id = frame.stream_id;
      seq = seq;
      flags = frame.flags;
      payload = frame.payload;
      size = size;
    } in
    if ltb 0 b.max_bytes && ltb b.max_bytes (b.used_bytes + size)
    then if leb size b.max_bytes
      then (held, b)
      else (failed (frame_too_large (length frame.payload)), b)
    else if leb seq b.last_acked
    then (failed (invalid_message "replay frame seq already acknowledged"), b)
    else if ltb b.head n && leb seq (seq_of (get_elem? b.frames (n - 1)))
    then (failed (invalid_message "replay frame seq must increase monotonically"), b)
    else (kept r, record b { used_bytes = b.used_bytes + size; frames = b.frames ++ (some r ∷ []) })

-- What the loop of `ack` changes.
pub record Dropping : Type 0 where
  pub dropped : ℕ
  pub frames : List (Option FrameRecord)
  pub head : ℕ

-- The loop of `ack`: at most as many rounds as there are entries behind `head`.
unfoldable pub drop_acked : ℕ → ℕ → Dropping → Dropping
drop_acked zero last_seq d = d
drop_acked (suc n) last_seq d = elim (get_elem? d.frames d.head) [
  | some (some r) ↦
      let rest = drop_acked n last_seq (record {
        dropped = d.dropped + r.size;
        frames = set d.frames d.head none;
        head = d.head + 1;
      }) in
      if leb r.seq last_seq then rest else d
  | _ ↦ d
]

-- The `switch` at the end of `ack`: the entries kept move to the front once they are the smaller
-- part. `copy`, `clear` and the reslice leave `frames[head:]`.
unfoldable pub compact : Dropping → Dropping
compact d =
    if d.head == length d.frames
    then record d { frames = []; head = 0 }
    else if ltb (length d.frames / 2) d.head
    then record d { frames = drop d.head d.frames; head = 0 }
    else d

-- The nil buffer acknowledges nothing; here the buffer is there.
unfoldable pub ack : ReplayBuffer → ℕ → ℕ × ReplayBuffer
unfolding drop_acked compact
ack b last_seq =
    let d =
      drop_acked (length b.frames - b.head) last_seq
        (record { dropped = 0; frames = b.frames; head = b.head }) in
    let c = compact d in
    if last_seq == 0 then (0, b) else if leb last_seq b.last_acked then (0, b) else (
      d.dropped,
      record b {
        last_acked = last_seq;
        used_bytes = b.used_bytes - d.dropped;
        frames = c.frames;
        head = c.head;
      },
    )

-- The standard library's sort.Search: binary search for the first index at which a monotone test holds.
unfoldable pub search_loop : ℕ → (ℕ → Bool) → ℕ → ℕ → ℕ
search_loop zero f i j = i
search_loop (suc fuel) f i j =
    let h = (i + j) / 2 in
    let rest = search_loop fuel f (if f h then i else h + 1) (if f h then h else j) in
    if ltb i j then rest else i

-- Each round at least shortens the range by one.
unfoldable pub sort_search : ℕ → (ℕ → Bool) → ℕ
unfolding search_loop
sort_search n f = search_loop n f 0 n

-- The records behind the pointers.
abbrev pub deref : List (Option FrameRecord) → List FrameRecord
deref [] = []
deref (none ∷ rs) = deref rs
deref (some r ∷ rs) = r ∷ deref rs

unfoldable pub snapshot_from : ReplayBuffer → ℕ → List FrameRecord
snapshot_from b last_seq =
    let entries = drop b.head b.frames in
    let start = sort_search (length entries) (λ i. ltb last_seq (seq_of (get_elem? entries i))) in
    if start == length entries then [] else deref (drop start entries)

pub bytes_used : ReplayBuffer → ℕ
bytes_used b = b.used_bytes

pub count : ReplayBuffer → ℕ
count b = length b.frames - b.head

unfoldable pub last_acked_seq : ReplayBuffer → ℕ
last_acked_seq b = b.last_acked
