-- ===== src/Runtime/System.antt =====
-- Both ends of a connection, and the transports between them.
use adaptivemsg_go.Frame.{Frame}
use adaptivemsg_go.Prelude.{
  Bool, List, [], false, if◌then◌else◌, length, none, suc, take, true, ℕ, ◌++◌, ◌<◌, ◌^◌, ◌∷◌, ◌≡◌,
  ◌≤◌,
}
use adaptivemsg_go.Recovery.{NegotiatedRecoveryOptions}
use adaptivemsg_go.Replay.{OutboundFrame}
use adaptivemsg_go.Runtime.{
  Endpoint, handle_frame, new_endpoint, proceed, stage_while_detached, start_transport, write_next,
  write_ping,
}
use adaptivemsg_go.Runtime.Sender.{IsQueued}
use adaptivemsg_go.Runtime.Writing.{frames_of}

-- `ab` holds the frames from `a` that `b` can still read; while `a_live` is false, what `a` writes
-- does not get there: its transport is not the one that `b` reads.
pub record System : Type 0 where
  pub a : Endpoint
  pub b : Endpoint
  pub ab : List Frame
  pub ba : List Frame
  pub a_live : Bool
  pub b_live : Bool

abbrev pub swap : System → System
swap s = record { a = s.b; b = s.a; ab = s.ba; ba = s.ab; a_live = s.b_live; b_live = s.a_live }

-- Frames written to a transport.
abbrev pub carry : Bool → List Frame → List Frame → List Frame
carry live flight fs = if live then flight ++ fs else flight

-- The steps of `a`; `swapped` gives those of `b`. A step of the writer needs that a further frame
-- can be numbered.
pub data Step : System → System → Type 0 where
  -- enqueueFrame of a stream
  submit :
      {s : System} (frame : OutboundFrame)
      → IsQueued frame
      → Step s (record s { a = record s.a { outbound = s.a.outbound ++ (frame ∷ []) } })
  write :
      {s : System} (now later : ℕ)
      → suc (length s.a.log) < 2 ^ 64
      → Step s (record s {
        a = (write_next s.a now later).1;
        ab = carry s.a_live s.ab (frames_of (write_next s.a now later).0);
      })
  ping :
      {s : System} → Step s (record s { ab = carry s.a_live s.ab (frames_of (write_ping s.a).0) })
  stage_detached :
      {s : System}
      → s.a_live ≡ false
      → suc (length s.a.log) < 2 ^ 64
      → Step s (record s { a = (stage_while_detached s.a s.a.held_frame s.a.outbound).1 })
  read :
      {s : System} {f : Frame} {rest : List Frame} (now : ℕ)
      → s.ba ≡ f ∷ rest
      → (handle_frame s.a now none f).0 ≡ proceed
      → Step s (record s { a = (handle_frame s.a now none f).1; ba = rest })
  -- The attach exchange: the number that the peer sent may be out of date by now.
  attach :
      {s : System} (resume_seq : ℕ)
      → resume_seq ≤ s.b.acks.last_recv_seq
      → s.ab ≡ []
      → Step s (record s { a = start_transport s.a resume_seq; a_live = true })
  -- `a` gives its transport up, and reads no more from it.
  detach : {s : System} → Step s (record s { ba = []; a_live = false; b_live = false })
  -- The transport loses all but the first `n` frames, and what is written from now on.
  lose : {s : System} (n : ℕ) → Step s (record s { ab = take n s.ab; a_live = false })
  swapped : {s t : System} → Step (swap s) (swap t) → Step s t

pub data Reachable (start : System) : System → Type 0 where
  at_start : Reachable start start
  after_step : {s t : System} → Reachable start s → Step s t → Reachable start t

-- Two new ends, not attached yet.
abbrev pub new_system : ℕ → ℕ → NegotiatedRecoveryOptions → System
new_system client_bytes server_bytes shared = record {
  a = new_endpoint client_bytes shared;
  b = new_endpoint server_bytes shared;
  ab = [];
  ba = [];
  a_live = false;
  b_live = false;
}
