-- ===== src/Receive/Replies.antt =====
-- A peer that answers each request once, in order, however late.
use adaptivemsg_go.Errors.{Result, concurrent_recv, err, ok, recv_timeout}
use adaptivemsg_go.Prelude.{
  Bool, List, [], ap, ap₂, arith, false, if◌then◌else◌, inl, inr, none, refl, subst, suc, sym, true,
  zero, ℕ, ◌++◌, ◌+◌, ◌∙◌, ◌∷◌, ◌≡◌, ◌⊎◌,
}
use adaptivemsg_go.Receive.{
  Ending, RawMessage, RecvState, ending_error, exchange, idle_state, note_stale, read_loop,
  send_recv, take_raw, timed_out,
}

module _ (reply : ℕ → RawMessage) where
  -- The replies to `len` requests, from number `k` on.
  abbrev pub replies : ℕ → ℕ → List RawMessage
  replies k zero = []
  replies k (suc len) = reply k ∷ replies (suc k) len

  replies-append :
      (k len more : ℕ) → replies k len ++ replies (k + len) more ≡ replies k (len + more)
  replies-append k zero more =
      ap (λ (j : ℕ). replies j more) {x = k + 0} (omega arith)
      ∙ ap (replies k) {x = more} (omega arith)
  replies-append k (suc len) more =
      ap (λ t. reply k ∷ t)
        (ap (λ (j : ℕ). replies (suc k) len ++ replies j more) {x = k + suc len} {y = suc k + len}
            (omega arith)
          ∙ replies-append (suc k) len more)
      ∙ ap (λ (j : ℕ). replies k j) {x = suc (len + more)} {y = suc len + more} (omega arith)

  -- How the loop ends for request `n`, with `came` replies so far: its own was there, or nothing is
  -- left in the inbox.
  data Answers (n came : ℕ) (ending : Ending) (s : RecvState)
      : Result RawMessage × RecvState → Type 0 where
    answered :
        (len : ℕ)
        → suc n + len ≡ came
        → Answers n came ending s
            (ok (reply n), record s { inbox = replies (suc n) len; stale_replies = 0 })
    unanswered :
        (stale : ℕ)
        → came + stale ≡ n
        → Answers n came ending s
            (err (ending_error ending), record s { inbox = []; stale_replies = stale })

  -- The loop discards the late replies first.
  read_loop-Answers :
      (n came stale k len : ℕ) (ending : Ending) (s : RecvState)
      → k + stale ≡ n
      → k + len ≡ came
      → Answers n came ending s (read_loop stale (replies k len) ending s)
  unfolding read_loop
  read_loop-Answers n came stale k zero ending s e c = unanswered stale (omega (arith, e, c))
  read_loop-Answers n came zero k (suc len) ending s e c =
      subst
        (λ (j : ℕ).
          Answers n came ending s
            (ok (reply j), record s { inbox = replies (suc j) len; stale_replies = 0 }))
        {x = n} {y = k} (omega (arith, e)) (answered len (omega (arith, e, c)))
  read_loop-Answers n came (suc stale) k (suc len) ending s e c =
      read_loop-Answers n came stale (suc k) len ending s (omega (arith, e)) (omega (arith, c))

  -- Before request `n`: of the replies that came, `k` were taken from the inbox and `len` are in it;
  -- as many are to be discarded as earlier requests are still without theirs.
  pub record Awaits (n came : ℕ) (s : RecvState) : Type 0 where
    pub inactive : s.recv_active ≡ false
    pub not_peeked : s.peeked ≡ none
    pub taken : ℕ
    pub len : ℕ
    pub all_came : taken + len ≡ came
    pub late : s.inbox ≡ replies taken len
    pub behind : taken + s.stale_replies ≡ n

  abbrev pub IsOwn : ℕ → Result RawMessage → Type 0
  IsOwn n r = (r ≡ ok (reply n)) ⊎ (r ≡ err recv_timeout)

  -- What request `n` leaves.
  record Leaves (n came : ℕ) (out : Result RawMessage × RecvState) : Type 0 where
    own : IsOwn n out.0
    awaits : Awaits (suc n) came (record out.1 { recv_active = false })

  note_stale-Leaves :
      (n came : ℕ) (s : RecvState) {out : Result RawMessage × RecvState}
      → s.peeked ≡ none
      → Answers n came timed_out s out
      → Leaves n came (note_stale out)
  note_stale-Leaves n came s p (answered len c) = record {
    own = inl refl;
    awaits = record {
      inactive = refl;
      not_peeked = p;
      taken = suc n;
      len = len;
      all_came = c;
      late = refl;
      behind = omega arith;
    };
  }
  note_stale-Leaves n came s p (unanswered stale e) = record {
    own = inr refl;
    awaits = record {
      inactive = refl;
      not_peeked = p;
      taken = came;
      len = 0;
      all_came = omega arith;
      late = refl;
      behind = omega (arith, e);
    };
  }

  exchange-Leaves :
      (n came more : ℕ) (s : RecvState)
      → Awaits n came s
      → Leaves n
          (came + more)
          (exchange (record s { recv_active = true }) none (replies came more) timed_out)
  exchange-Leaves n came more s a =
      subst (λ o. Leaves n (came + more) (note_stale (take_raw t o (replies came more) timed_out)))
        (sym a.not_peeked)
        (note_stale-Leaves n (came + more) t a.not_peeked (
          subst
            (λ ms. Answers n (came + more) timed_out t (read_loop s.stale_replies ms timed_out t))
            (sym inbox-eq)
            (read_loop-Answers n (came + more) s.stale_replies a.taken (a.len + more) timed_out t
              a.behind (omega (arith, a.all_came)))))
    where
      t : RecvState
      t = record s { recv_active = true }

      inbox-eq : s.inbox ++ replies came more ≡ replies a.taken (a.len + more)
      inbox-eq =
          ap₂ ◌++◌ a.late (ap (λ (j : ℕ). replies j more) (sym a.all_came))
          ∙ replies-append a.taken a.len more

  send_recv-Leaves :
      (n came more : ℕ) (s : RecvState)
      → Awaits n came s
      → IsOwn n (send_recv s none (replies came more) timed_out).0
        × Awaits (suc n) (came + more) (send_recv s none (replies came more) timed_out).1
  unfolding send_recv
  send_recv-Leaves n came more s a =
      let l = exchange-Leaves n came more s a in
      subst (λ b. IsOwn n (out b).0 × Awaits (suc n) (came + more) (out b).1) (sym a.inactive)
        (l.own, l.awaits)
    where
      out : Bool → Result RawMessage × RecvState
      out b =
          let (r, t) =
            exchange (record s { recv_active = true }) none (replies came more) timed_out in
          if b then (err concurrent_recv, s) else (r, record t { recv_active = false })

  -- Requests one after the other; during each one some more replies come.
  unfoldable pub session : ℕ → RecvState → List ℕ → List (Result RawMessage)
  session came s [] = []
  session came s (more ∷ waits) =
      let (r, t) = send_recv s none (replies came more) timed_out in
      r ∷ session (came + more) t waits

  abbrev pub AllOwn : ℕ → List (Result RawMessage) → Type 0
  AllOwn n [] = Unit {0}
  AllOwn n (r ∷ rs) = IsOwn n r × AllOwn (suc n) rs

  session-from :
      (n came : ℕ) (s : RecvState) (waits : List ℕ)
      → Awaits n came s
      → AllOwn n (session came s waits)
  unfolding session
  session-from n came s [] a = tt
  session-from n came s (more ∷ waits) a =
      let (own, awaits) = send_recv-Leaves n came more s a in
      (
        own,
        session-from (suc n) (came + more) (send_recv s none (replies came more) timed_out).1 waits
            awaits,
      )

  -- Each SendRecv on a stream gets the reply to its own request, or times out: a reply that comes
  -- after its request has timed out is never taken for the reply to a later one. The peer answers
  -- the requests in order; `waits` has the number of replies that come during each request.
  pub session-AllOwn : (waits : List ℕ) → AllOwn 0 (session 0 idle_state waits)
  session-AllOwn waits = session-from 0 0 idle_state waits (record {
    inactive = refl;
    not_peeked = refl;
    taken = 0;
    len = 0;
    all_came = omega arith;
    late = refl;
    behind = omega arith;
  })
