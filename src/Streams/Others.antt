-- ===== src/Streams/Others.antt =====
-- A frame for another stream.
use adaptivemsg_go.Bytes.{Bytes}
use adaptivemsg_go.Errors.{Error, conn_closed}
use adaptivemsg_go.Prelude.{
  Bool, Bool-cases, List, Option, Option-cases, [], ap, arith, false, if◌then◌else◌, inl, inr,
  length, lt→ltb, none, refl, some, subst, suc, sym, true, ℕ, ◌==◌, ◌||◌, ◌∙◌, ◌∷◌, ◌≡◌,
}
use adaptivemsg_go.Streams.{
  Stream, StreamTable, accept_in, accept_queued, accept_with, fin_if, find_stream, get_stream_ctx,
  incoming_q, is_member, opened_stream, release_id,
}
use adaptivemsg_go.Streams.Queueing.{
  IsServed, Serves, added, added-IsServed, get_stream_ctx-found, get_stream_ctx-missing, items_in,
  missing-lem, push-eq, push_other, pushed-IsServed, queue_of, release-IsServed,
}

-- A table that serves `id` as `t` does.
pub record Keeps (id : ℕ) (q : Option (List (Option Bytes))) (t : StreamTable) : Type 0 where
  pub serves : IsServed id t
  pub same_queue : queue_of id t ≡ q

module _ (id key : ℕ) (q : Option (List (Option Bytes))) (n : (id == key) ≡ false) where
  incoming_q-Keeps :
      (t : StreamTable) (item : Option Bytes) → Keeps id q t → Keeps id q (incoming_q t key item).1
  incoming_q-Keeps t item k = elim (Option-cases (find_stream key t.streams)) [
    | inl e ↦
        subst (λ (o : Option Error × StreamTable). Keeps id q o.1) (sym (missing-lem t key item e))
          k
    | inr (s, e) ↦
        subst (λ (o : Option Error × StreamTable). Keeps id q o.1)
          (sym (push-eq id key t item {s = s} k.serves e))
          (record {
            serves = pushed-IsServed id key t item {s = s} k.serves e;
            same_queue = ap items_in (push_other id key t item {s = s} k.serves e n) ∙ k.same_queue;
          })
  ]

  release-Keeps : (t : StreamTable) → Keeps id q t → Keeps id q (release_id t key)
  release-Keeps t k = record {
    serves = release-IsServed id key t k.serves;
    same_queue = k.same_queue;
  }

  Keeps-Serves : (t : StreamTable) → Keeps id q t → Serves id q (none, t)
  Keeps-Serves t k = record { no_error = refl; served = k.serves; holds = k.same_queue }

  fin_if-Keeps : (fin : Bool) (t : StreamTable) → Keeps id q t → Keeps id q (fin_if fin t key)
  fin_if-Keeps true t k = incoming_q-Keeps t none k
  fin_if-Keeps false t k = k

  accept_queued-other :
      (fin : Bool) (t : StreamTable) (o : Option Error × StreamTable)
      → Keeps id q o.1
      → Serves id q (accept_queued fin key t o)
  accept_queued-other fin t (none, t') k = Keeps-Serves _ (fin_if-Keeps fin t' k)
  accept_queued-other fin t (some e, t') k =
      subst (λ b. Serves id q (if b then (some e, t') else (none, t'))) (sym k.serves.is_open)
        (Keeps-Serves t' k)

  accept_in-other :
      (fin : Bool) (payload : Bytes) (o : Option Stream × StreamTable)
      → Keeps id q o.1
      → Serves id q (accept_in fin key payload o)
  accept_in-other true payload (none, t) k =
      subst (λ b. Serves id q (if b then (some conn_closed, t) else (none, release_id t key)))
        (sym k.serves.is_open) (Keeps-Serves _ (release-Keeps t k))
  accept_in-other false payload (none, t) k =
      subst (λ b. Serves id q (if b then (some conn_closed, t) else (none, t)))
        (sym k.serves.is_open) (Keeps-Serves t k)
  accept_in-other fin [] (some s, t) k = Keeps-Serves _ (fin_if-Keeps fin t k)
  accept_in-other fin (b ∷ bs) (some s, t) k = rw (lt→ltb 0 (suc (length bs)) (omega arith)) (
      accept_queued-other fin t (incoming_q t key (some (b ∷ bs)))
        (incoming_q-Keeps t (some (b ∷ bs)) k))

  added-Keeps : (t : StreamTable) → Keeps id q t → Keeps id q (added t key)
  added-Keeps t k = record {
    serves = added-IsServed id key t k.serves;
    same_queue = rw (eq_swap) k.same_queue;
  }
    where
      eq_swap : (key == id) ≡ false
      eq_swap = ground (arith, n)

  get_stream_ctx-Keeps : (t : StreamTable) → Keeps id q t → Keeps id q (get_stream_ctx t key true).1
  get_stream_ctx-Keeps t k = elim (Option-cases (find_stream key t.streams)) [
    | inr (s, e) ↦
        subst (λ (o : Option Stream × StreamTable). Keeps id q o.1)
          (sym (get_stream_ctx-found t key {s = s} k.serves.is_open e)) k
    | inl e ↦
        subst (λ (o : Option Stream × StreamTable). Keeps id q o.1)
          (sym (get_stream_ctx-missing t key k.serves.is_open e))
          (elim (Bool-cases (is_member key t.closed_peer_streams || opened_stream t key)) [
            | inl refuses ↦ rw refuses k
            | inr opens ↦ rw opens (added-Keeps t k)
          ])
  ]

  -- A frame for another stream leaves this one as it is.
  pub accept_with-other :
      (fin : Bool) (payload : Bytes) (t : StreamTable)
      → Keeps id q t
      → Serves id q (accept_with fin t key payload)
  accept_with-other true [] t k =
      Keeps-Serves _ (incoming_q-Keeps (release_id t key) none (release-Keeps t k))
  accept_with-other false payload t k =
      accept_in-other false payload (get_stream_ctx t key true) (get_stream_ctx-Keeps t k)
  accept_with-other true (b ∷ bs) t k =
      rw (==-suc (length bs))
        (accept_in-other true (b ∷ bs) (get_stream_ctx t key true) (get_stream_ctx-Keeps t k))
    where
      ==-suc : (m : ℕ) → (suc m == 0) ≡ false
      ==-suc m = ground arith
