-- ===== src/Streams/Queueing.antt =====
-- A frame for a stream, and the queue of that stream.
use adaptivemsg_go.Bytes.{Bytes}
use adaptivemsg_go.Errors.{Error, conn_closed}
use adaptivemsg_go.Prelude.{
  Bool, List, Option, Option-cases, [], ap, append-nil, append_assoc, ap₂, arith, eq_refl, false,
  if◌then◌else◌, inl, inr, length, lt→ltb, none, refl, some, subst, suc, sym, true, ℕ, ◌++◌, ◌==◌,
  ◌||◌, ◌∙◌, ◌∷◌, ◌≡◌,
}
use adaptivemsg_go.Streams.{
  Stream, StreamTable, accept_in, accept_queued, accept_with, ctx_for, fin_if, find_stream,
  get_stream_ctx, incoming_q, is_member, new_stream_ctx, opened_stream, queue_fin, queue_in,
  release_id, update_stream,
}
use adaptivemsg_go.Streams.Table.{
  AllOpen, find_stream-open, find_stream-update, find_stream-update_other, is_member-without,
  update_stream-AllOpen,
}

abbrev pub items_in : Option Stream → Option (List (Option Bytes))
items_in none = none
items_in (some s) = some s.incoming

-- What a stream holds, if there is one.
abbrev pub queue_of : ℕ → StreamTable → Option (List (Option Bytes))
queue_of id t = items_in (find_stream id t.streams)

-- The connection is open, and the peer may use `id`: this side neither opened it nor reserves it.
pub record IsServed (id : ℕ) (t : StreamTable) : Type 0 where
  pub is_open : t.is_closed ≡ false
  pub all_open : AllOpen t.streams
  pub not_reserved : is_member id t.closed_peer_streams ≡ false
  pub not_opened : opened_stream t id ≡ false

-- What a frame adds to the queue of its stream: the payload if there is one, then FIN. A FIN alone
-- does not open a stream.
abbrev pub payload_item : Bytes → List (Option Bytes)
payload_item [] = []
payload_item (b ∷ bs) = some (b ∷ bs) ∷ []

abbrev pub fin_item : Bool → List (Option Bytes)
fin_item true = none ∷ []
fin_item false = []

abbrev pub held_items : Option (List (Option Bytes)) → List (Option Bytes)
held_items none = []
held_items (some items) = items

abbrev pub add_items : Bool → Bytes → Option (List (Option Bytes)) → Option (List (Option Bytes))
add_items true [] none = none
add_items fin payload q = some (held_items q ++ (payload_item payload ++ fin_item fin))

queued-lem :
    (t : StreamTable) (id : ℕ) (item : Option Bytes) {s : Stream}
    → t.is_closed ≡ false
    → AllOpen t.streams
    → find_stream id t.streams ≡ some s
    → incoming_q t id item ≡ (
      none,
      record t {
        streams = update_stream id (record s { incoming = s.incoming ++ (item ∷ []) }) t.streams;
      },
    )
unfolding incoming_q
queued-lem t id item {s} o a e =
    ap (queue_in t id item) e ∙ rw (find_stream-open id t.streams {s = s} a e, o) refl

pub missing-lem :
    (t : StreamTable) (id : ℕ) (item : Option Bytes)
    → find_stream id t.streams ≡ none
    → incoming_q t id item ≡ (some conn_closed, t)
unfolding incoming_q
missing-lem t id item e = ap (queue_in t id item) e

-- The outcome of a frame for the stream `id`.
pub record Serves (id : ℕ) (q : Option (List (Option Bytes))) (out : Option Error × StreamTable)
    : Type 0 where
  pub no_error : out.0 ≡ none
  pub served : IsServed id out.1
  pub holds : queue_of id out.1 ≡ q

-- An item joins the queue of `key`.
module _ (id key : ℕ) (t : StreamTable) (item : Option Bytes) {s : Stream} (v : IsServed id t)
    (e : find_stream key t.streams ≡ some s) where
  abbrev pub pushed : StreamTable
  pushed = record t {
    streams = update_stream key (record s { incoming = s.incoming ++ (item ∷ []) }) t.streams;
  }

  pub pushed-IsServed : IsServed id pushed
  pushed-IsServed = record {
    is_open = v.is_open;
    all_open =
        update_stream-AllOpen key _ t.streams (find_stream-open key t.streams {s = s} v.all_open e)
          v.all_open;
    not_reserved = v.not_reserved;
    not_opened = v.not_opened;
  }

  pub push-eq : incoming_q t key item ≡ (none, pushed)
  push-eq = queued-lem t key item {s = s} v.is_open v.all_open e

  pub push_other : (id == key) ≡ false → find_stream id pushed.streams ≡ find_stream id t.streams
  push_other n = find_stream-update_other key id _ t.streams n

  push_own :
      find_stream key pushed.streams ≡ some (record s { incoming = s.incoming ++ (item ∷ []) })
  push_own = find_stream-update key _ t.streams {s = s} e

pub release-IsServed :
    (id key : ℕ) (t : StreamTable) → IsServed id t → IsServed id (release_id t key)
release-IsServed id key t v = record {
  is_open = v.is_open;
  all_open = v.all_open;
  not_reserved = is_member-without id key t.closed_peer_streams v.not_reserved;
  not_opened = v.not_opened;
}

-- FIN behind what is queued already.
fin_if-own :
    (fin : Bool) (id : ℕ) (t : StreamTable) {s : Stream}
    → IsServed id t
    → find_stream id t.streams ≡ some s
    → Serves id (some (s.incoming ++ fin_item fin)) (none, fin_if fin t id)
fin_if-own false id t {s} v e = record {
  no_error = refl;
  served = v;
  holds = ap items_in e ∙ ap some (sym (append-nil s.incoming));
}
fin_if-own true id t {s} v e =
    subst
      (λ (o : Option Error × StreamTable). Serves id (some (s.incoming ++ (none ∷ []))) (none, o.1))
      (sym (push-eq id id t none {s = s} v e))
      (record {
        no_error = refl;
        served = pushed-IsServed id id t none {s = s} v e;
        holds = ap items_in (push_own id id t none {s = s} v e);
      })

-- A frame for a stream that is there.
accept_in-own :
    (fin : Bool) (id : ℕ) (payload : Bytes) (t : StreamTable) {s : Stream}
    → IsServed id t
    → find_stream id t.streams ≡ some s
    → Serves id
        (some (s.incoming ++ (payload_item payload ++ fin_item fin)))
        (accept_in fin id payload (some s, t))
accept_in-own fin id [] t {s} v e = fin_if-own fin id t {s = s} v e
accept_in-own fin id (b ∷ bs) t {s} v e = rw (lt→ltb 0 (suc (length bs)) (omega arith)) (
    subst
      (λ o.
        Serves id (some (s.incoming ++ (some (b ∷ bs) ∷ fin_item fin))) (accept_queued fin id t o))
      (sym (push-eq id id t (some (b ∷ bs)) {s = s} v e))
      (subst
        (λ l. Serves id (some l) (none, fin_if fin (pushed id id t (some (b ∷ bs)) {s = s} v e) id))
        (append_assoc s.incoming (some (b ∷ bs) ∷ []) (fin_item fin))
        (fin_if-own fin id (pushed id id t (some (b ∷ bs)) {s = s} v e)
          {s = record s { incoming = s.incoming ++ (some (b ∷ bs) ∷ []) }}
          (pushed-IsServed id id t (some (b ∷ bs)) {s = s} v e)
          (push_own id id t (some (b ∷ bs)) {s = s} v e))))

pub get_stream_ctx-found :
    (t : StreamTable) (key : ℕ) {s : Stream}
    → t.is_closed ≡ false
    → find_stream key t.streams ≡ some s
    → get_stream_ctx t key true ≡ (some s, t)
unfolding get_stream_ctx
get_stream_ctx-found t key o e = ap₂ (ctx_for t key true) o e

abbrev pub added : StreamTable → ℕ → StreamTable
added t key = record t { streams = (key, new_stream_ctx) ∷ t.streams; started = key ∷ t.started }

pub get_stream_ctx-missing :
    (t : StreamTable) (key : ℕ)
    → t.is_closed ≡ false
    → find_stream key t.streams ≡ none
    → get_stream_ctx t key true ≡ (
        if is_member key t.closed_peer_streams || opened_stream t key
        then (none, t)
        else (some new_stream_ctx, added t key))
unfolding get_stream_ctx
get_stream_ctx-missing t key o e = ap₂ (ctx_for t key true) o e

pub added-IsServed : (id key : ℕ) (t : StreamTable) → IsServed id t → IsServed id (added t key)
added-IsServed id key t v = record {
  is_open = v.is_open;
  all_open = (refl, v.all_open);
  not_reserved = v.not_reserved;
  not_opened = v.not_opened;
}

added_own :
    (t : StreamTable) (key : ℕ) → find_stream key (added t key).streams ≡ some new_stream_ctx
added_own t key = rw (eq_refl key) refl

-- FIN alone.
lone_fin-own :
    (id : ℕ) (t : StreamTable)
    → IsServed id t
    → Serves id (add_items true [] (queue_of id t)) (none, queue_fin (release_id t id) id)
lone_fin-own id t v = elim (Option-cases (find_stream id t.streams)) [
  | inl e ↦
      subst (λ o. Serves id (add_items true [] (items_in o)) (none, queue_fin (release_id t id) id))
        (sym e)
        (record {
          no_error = refl;
          served =
              subst (λ (o : StreamTable). IsServed id o) (sym (unchanged e))
                (release-IsServed id id t v);
          holds = ap (queue_of id) (unchanged e) ∙ ap items_in e;
        })
  | inr (s, e) ↦
      subst (λ o. Serves id (add_items true [] (items_in o)) (none, queue_fin (release_id t id) id))
        (sym e) (fin_if-own true id (release_id t id) {s = s} (release-IsServed id id t v) e)
]
  where
    unchanged : find_stream id t.streams ≡ none → queue_fin (release_id t id) id ≡ release_id t id
    unchanged e =
        ap (λ (o : Option Error × StreamTable). o.1) (missing-lem (release_id t id) id none e)

-- A frame with a payload or without FIN, which may open the stream.
accept_in_ctx-own :
    (fin : Bool) (id : ℕ) (payload : Bytes) (t : StreamTable)
    → IsServed id t
    → Serves id
        (some (held_items (queue_of id t) ++ (payload_item payload ++ fin_item fin)))
        (accept_in fin id payload (get_stream_ctx t id true))
accept_in_ctx-own fin id payload t v = elim (Option-cases (find_stream id t.streams)) [
  | inl e ↦
      subst
        (λ o.
          Serves id (some (held_items (items_in o) ++ (payload_item payload ++ fin_item fin)))
            (accept_in fin id payload (get_stream_ctx t id true)))
        (sym e)
        (subst
          (λ o.
            Serves id (some (payload_item payload ++ fin_item fin)) (accept_in fin id payload o))
          {x = (some new_stream_ctx, added t id)}
          (sym (get_stream_ctx-missing t id v.is_open e ∙ rw (v.not_reserved, v.not_opened) refl))
          (accept_in-own fin id payload (added t id) {s = new_stream_ctx} (added-IsServed id id t v)
            (added_own t id)))
  | inr (s, e) ↦
      subst
        (λ o.
          Serves id (some (held_items (items_in o) ++ (payload_item payload ++ fin_item fin)))
            (accept_in fin id payload (get_stream_ctx t id true)))
        (sym e)
        (subst
          (λ o.
            Serves id (some (s.incoming ++ (payload_item payload ++ fin_item fin)))
              (accept_in fin id payload o))
          (sym (get_stream_ctx-found t id {s = s} v.is_open e))
          (accept_in-own fin id payload t {s = s} v e))
]

-- A frame for the stream itself.
pub accept_with-own :
    (fin : Bool) (id : ℕ) (payload : Bytes) (t : StreamTable)
    → IsServed id t
    → Serves id (add_items fin payload (queue_of id t)) (accept_with fin t id payload)
accept_with-own true id [] t v = lone_fin-own id t v
accept_with-own false id [] t v = accept_in_ctx-own false id [] t v
accept_with-own false id (b ∷ bs) t v = accept_in_ctx-own false id (b ∷ bs) t v
accept_with-own true id (b ∷ bs) t v =
    rw (==-suc (length bs)) (accept_in_ctx-own true id (b ∷ bs) t v)
  where
    ==-suc : (n : ℕ) → (suc n == 0) ≡ false
    ==-suc n = ground arith
