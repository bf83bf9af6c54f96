-- ===== src/Lifecycle.antt =====
-- server.go: what the server runs and what Shutdown stops.
mod Tests
mod Tended
mod Stopping
mod Goroutines
mod Steps
pub mod Shutdown
pub mod Refusing
use adaptivemsg_go.Prelude.{
  Bool, List, [], false, if◌then◌else◌, true, ℕ, ◌++◌, ◌+◌, ◌-◌, ◌==◌, ◌∷◌, ◌≡◌,
}
use adaptivemsg_go.Streams.{is_member, without}

-- What a goroutine that serves a transport does: handleConn up to the start of a connection, between
-- the start and trackConn, and waiting in awaitClose.
pub data Phase : Type 0 where
  not_running : Phase
  handshaking : Phase
  starting : Phase
  serving : Phase
  ended : Phase

-- The fields that lifecycleMu guards, and around them: `closed_listeners` and `closed_conns` were
-- closed, `closing` are the connections on which Close was called, and `finished` those that are closed
-- for good. A connection has the number of the transport it was made for. `running` is the WaitGroup.
-- `accepting` tells on which listeners a serveListener runs.
-- What a Shutdown has listed and not closed yet is in the three last fields.
pub record Lifecycle : Type 0 where
  pub stopping : Bool
  pub listeners : List ℕ
  pub handshakes : List ℕ
  pub conns : List ℕ
  pub running : ℕ
  pub closed_listeners : List ℕ
  pub closed_conns : List ℕ
  pub closing : List ℕ
  pub finished : List ℕ
  pub accepting : ℕ → Bool
  pub phase : ℕ → Phase
  pub goroutines : List ℕ
  pub listeners_to_close : List ℕ
  pub handshakes_to_close : List ℕ
  pub conns_to_close : List ℕ

abbrev pub new_lifecycle : Lifecycle
new_lifecycle = record {
  stopping = false;
  listeners = [];
  handshakes = [];
  conns = [];
  running = 0;
  closed_listeners = [];
  closed_conns = [];
  closing = [];
  finished = [];
  accepting = λ l. false;
  phase = λ c. not_running;
  goroutines = [];
  listeners_to_close = [];
  handshakes_to_close = [];
  conns_to_close = [];
}

-- A function changed at one point
abbrev pub set_at : {A : Type 0} → (ℕ → A) → ℕ → A → ℕ → A
set_at f c a d = if d == c then a else f d

abbrev pub remove_one : ℕ → List ℕ → List ℕ
remove_one c [] = []
remove_one c (d ∷ ds) = if d == c then ds else d ∷ remove_one c ds

-- `trackListener`, with its result, on whether the server is stopping
abbrev pub track_listener_if : Bool → Lifecycle → ℕ → Bool × Lifecycle
track_listener_if true s l = (false, s)
track_listener_if false s l = (true, record s { listeners = l ∷ s.listeners })

unfoldable pub track_listener : Lifecycle → ℕ → Bool × Lifecycle
track_listener s l = track_listener_if s.stopping s l

-- `untrackListener`
unfoldable pub untrack_listener : Lifecycle → ℕ → Lifecycle
untrack_listener s l = record s { listeners = without l s.listeners }

-- `beginHandshake`
abbrev pub begin_handshake_if : Bool → Lifecycle → ℕ → Bool × Lifecycle
begin_handshake_if true s c = (false, s)
begin_handshake_if false s c =
    (true, record s { handshakes = c ∷ s.handshakes; running = s.running + 1 })

unfoldable pub begin_handshake : Lifecycle → ℕ → Bool × Lifecycle
begin_handshake s c = begin_handshake_if s.stopping s c

-- `endHandshake`
unfoldable pub end_handshake : Lifecycle → ℕ → Lifecycle
end_handshake s c = record s { handshakes = without c s.handshakes }

-- `trackConn`
abbrev pub track_conn_if : Bool → Lifecycle → ℕ → Bool × Lifecycle
track_conn_if true s c = (false, record s { handshakes = without c s.handshakes })
track_conn_if false s c =
    (true, record s { handshakes = without c s.handshakes; conns = c ∷ s.conns })

unfoldable pub track_conn : Lifecycle → ℕ → Bool × Lifecycle
track_conn s c = track_conn_if s.stopping s c

-- `untrackConn`
unfoldable pub untrack_conn : Lifecycle → ℕ → Lifecycle
untrack_conn s c = record s { conns = without c s.conns }

-- A listener in serveListener: it is tracked, or closed at once.
abbrev pub listen_with : ℕ → Bool × Lifecycle → Lifecycle
listen_with l (true, s) = record s { accepting = set_at s.accepting l true }
listen_with l (false, s) = record s { closed_listeners = l ∷ s.closed_listeners }

unfoldable pub listen : Lifecycle → ℕ → Lifecycle
listen s l = listen_with l (track_listener s l)

-- serveListener returns.
unfoldable pub stop_listening : Lifecycle → ℕ → Lifecycle
stop_listening s l =
    let s' = untrack_listener s l in
    record s' {
      closed_listeners = l ∷ s'.closed_listeners;
      accepting = set_at s'.accepting l false;
    }

-- A transport that serveListener accepts: a goroutine serves it, or it is closed.
abbrev pub accept_with_result : ℕ → Bool × Lifecycle → Lifecycle
accept_with_result c (true, s) = record s {
  phase = set_at s.phase c handshaking;
  goroutines = c ∷ s.goroutines;
}
accept_with_result c (false, s) = record s {
  phase = set_at s.phase c ended;
  closed_conns = c ∷ s.closed_conns;
}

unfoldable pub accept_conn : Lifecycle → ℕ → Lifecycle
accept_conn s c = accept_with_result c (begin_handshake s c)

-- The goroutine ends: `defer s.running.Done()`.
abbrev pub goroutine_done : Lifecycle → ℕ → Lifecycle
goroutine_done s c = record s {
  running = s.running - 1;
  phase = set_at s.phase c ended;
  goroutines = remove_one c s.goroutines;
}

-- handleConn fails: the handshake, the attach, or OnConnect.
unfoldable pub handler_fails : Lifecycle → ℕ → Lifecycle
handler_fails s c =
    let s' = record s { closed_conns = c ∷ s.closed_conns } in goroutine_done (end_handshake s' c) c

-- attachResume hands the transport over to a connection that is there already.
unfoldable pub hands_over : Lifecycle → ℕ → Lifecycle
hands_over s c = goroutine_done (end_handshake s c) c

-- `connection.start()`
unfoldable pub starts : Lifecycle → ℕ → Lifecycle
starts s c = record s { phase = set_at s.phase c starting }

-- trackConn, and the Close of a connection that comes too late. In version 3 another goroutine waits
-- for the connection, and is counted before this one is done; they are one here.
abbrev pub tracked_with : ℕ → Bool × Lifecycle → Lifecycle
tracked_with c (true, s) = record s { phase = set_at s.phase c serving }
tracked_with c (false, s) = record s { phase = set_at s.phase c serving; closing = c ∷ s.closing }

unfoldable pub tracks : Lifecycle → ℕ → Lifecycle
tracks s c = tracked_with c (track_conn s c)

-- A connection is closed for good, by either side.
unfoldable pub finishes : Lifecycle → ℕ → Lifecycle
finishes s c = record s { finished = c ∷ s.finished }

-- `awaitClose` behind the wait, and the end of the goroutine
unfoldable pub await_close : Lifecycle → ℕ → Lifecycle
await_close s c = goroutine_done (end_handshake (untrack_conn s c) c) c

-- `Shutdown`, up to the unlock: what it is to close is listed.
unfoldable pub begin_shutdown : Lifecycle → Lifecycle
begin_shutdown s = record s {
  stopping = true;
  listeners_to_close = s.listeners ++ s.listeners_to_close;
  handshakes_to_close = s.handshakes ++ s.handshakes_to_close;
  conns_to_close = s.conns ++ s.conns_to_close;
}

-- The three loops of `Shutdown`
unfoldable pub close_listed : Lifecycle → Lifecycle
close_listed s = record s {
  closed_listeners = s.listeners_to_close ++ s.closed_listeners;
  closed_conns = s.handshakes_to_close ++ s.closed_conns;
  closing = s.conns_to_close ++ s.closing;
  listeners_to_close = [];
  handshakes_to_close = [];
  conns_to_close = [];
}

-- What may happen next. A listener that is served is open, and a transport that is accepted has a
-- number that no other had.
pub data Step (s : Lifecycle) : Lifecycle → Type 0 where
  listen_step : (l : ℕ) → is_member l s.closed_listeners ≡ false → Step s (listen s l)
  stop_listening_step : (l : ℕ) → s.accepting l ≡ true → Step s (stop_listening s l)
  accept_step : (c : ℕ) → s.phase c ≡ not_running → Step s (accept_conn s c)
  fail_step : (c : ℕ) → s.phase c ≡ handshaking → Step s (handler_fails s c)
  hand_over_step : (c : ℕ) → s.phase c ≡ handshaking → Step s (hands_over s c)
  start_step : (c : ℕ) → s.phase c ≡ handshaking → Step s (starts s c)
  track_step : (c : ℕ) → s.phase c ≡ starting → Step s (tracks s c)
  finish_step : (c : ℕ) → s.phase c ≡ serving → Step s (finishes s c)
  await_step :
      (c : ℕ) → s.phase c ≡ serving → is_member c s.finished ≡ true → Step s (await_close s c)
  shutdown_step : Step s (begin_shutdown s)
  close_step : Step s (close_listed s)

pub data Reach (s : Lifecycle) : Lifecycle → Type 0 where
  no_steps : Reach s s
  then_step : {t u : Lifecycle} → Reach s t → Step t u → Reach s u
