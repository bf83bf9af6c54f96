-- ===== src/Transport/Ownership.antt =====
-- No transport is left open.
use adaptivemsg_go.Prelude.{
  ==_iff, Bool, Bool-cases, List, Option, [], arith, false, if◌then◌else◌, inl, inr, none, refl,
  some, subst, sym, true, ℕ, ◌++◌, ◌==◌, ◌∷◌, ◌≡◌, ◌⊎◌,
}
use adaptivemsg_go.Streams.{is_member}
use adaptivemsg_go.Transport.{
  Call, Transport, attach_call, attach_if, attach_transport, call, calls, close_call, close_conn,
  close_transport, detach_call, detach_if, detach_transport, is_conn, new_transport, set_closed,
}

-- The transport is closed, or the current one.
abbrev pub Owned : ℕ → Transport → Type 0
Owned c t = (is_member c t.closed_conns ≡ true) ⊎ (is_conn t.conn c ≡ true)

abbrev pub is_attached : ℕ → List Call → Bool
is_attached c [] = false
is_attached c (attach_call d seq ∷ cs) = if d == c then true else is_attached c cs
is_attached c (_ ∷ cs) = is_attached c cs

close_conn-member :
    (o : Option ℕ) (c : ℕ) (closed : List ℕ)
    → (is_member c closed ≡ true) ⊎ (is_conn o c ≡ true)
    → is_member c (close_conn o closed) ≡ true
close_conn-member none c closed h = ground arith
close_conn-member (some d) c closed h = ground arith

member_head : (d c : ℕ) (closed : List ℕ) → d ≡ c → is_member c (d ∷ closed) ≡ true
member_head d c closed e = ground arith

attach_if-Owned-self : (b : Bool) (t : Transport) (c seq : ℕ) → Owned c (attach_if b t c seq)
attach_if-Owned-self true t c seq = inl (ground arith)
attach_if-Owned-self false t c seq = inr (ground arith)

is_conn-same : (o : Option ℕ) (c d : ℕ) → is_conn o c ≡ true → is_conn o d ≡ true → c ≡ d
is_conn-same none c d h k = ground arith
is_conn-same (some e) c d h k = ground arith

replaced-member :
    (o : Option ℕ) (c d : ℕ) (closed : List ℕ)
    → (is_member c closed ≡ true) ⊎ (is_conn o c ≡ true)
    → (is_member c (if is_conn o d then closed else close_conn o closed) ≡ true) ⊎ (d == c ≡ true)
replaced-member none c d closed h = inl (close_conn-member none c closed h)
replaced-member (some e) c d closed (inl h) = inl (ground arith)
replaced-member (some e) c d closed (inr h) = elim (Bool-cases (e == d)) [
  | inl same ↦ inr (ground arith)
  | inr other ↦ inl (ground arith)
]

attach_if-Owned :
    (b : Bool) (t : Transport) (d seq c : ℕ) → Owned c t → Owned c (attach_if b t d seq)
attach_if-Owned true t d seq c (inl h) = inl (ground arith)
attach_if-Owned true t d seq c (inr h) = inr h
attach_if-Owned false t d seq c h = replaced-member t.conn c d t.closed_conns h

detach_if-Owned :
    (b : Bool) (t : Transport) (d c : ℕ)
    → is_conn t.conn d ≡ b
    → Owned c t
    → Owned c (detach_if b t d).1
detach_if-Owned false t d c e h = h
detach_if-Owned true t d c e (inl h) = inl (ground arith)
detach_if-Owned true t d c e (inr h) =
    inl (member_head d c t.closed_conns (is_conn-same t.conn d c e h))

call-Owned : (t : Transport) (k : Call) (c : ℕ) → Owned c t → Owned c (call t k)
unfolding call attach_transport detach_transport close_transport
call-Owned t (attach_call d seq) c h = attach_if-Owned t.is_closed t d seq c h
call-Owned t (detach_call d) c h = detach_if-Owned (is_conn t.conn d) t d c refl h
call-Owned t set_closed c h = h
call-Owned t close_call c h = inl (close_conn-member t.conn c t.closed_conns h)

calls-Owned : (cs : List Call) (t : Transport) (c : ℕ) → Owned c t → Owned c (calls t cs)
unfolding calls
calls-Owned [] t c h = h
calls-Owned (k ∷ cs) t c h = calls-Owned cs (call t k) c (call-Owned t k c h)

-- Every transport that was ever attached is closed or is the current one.
attached-Owned :
    (cs : List Call) (t : Transport) (c : ℕ) → is_attached c cs ≡ true → Owned c (calls t cs)
unfolding calls call attach_transport
attached-Owned [] t c h = absurd (cc)
attached-Owned (attach_call d seq ∷ cs) t c h = elim (Bool-cases (d == c)) [
  | inl same ↦ calls-Owned cs (attach_transport t d seq) c (
      subst (λ (k : ℕ). Owned k (attach_transport t d seq)) ((==_iff d c).0 same)
        (attach_if-Owned-self t.is_closed t d seq))
  | inr other ↦ attached-Owned cs (attach_transport t d seq) c (rw other at h)
]
attached-Owned (detach_call d ∷ cs) t c h = attached-Owned cs (detach_transport t d).1 c h
attached-Owned (set_closed ∷ cs) t c h = attached-Owned cs (record t { is_closed = true }) c h
attached-Owned (close_call ∷ cs) t c h = attached-Owned cs (close_transport t) c h

calls-++ : (cs ds : List Call) (t : Transport) → calls t (cs ++ ds) ≡ calls (calls t cs) ds
unfolding calls
calls-++ [] ds t = refl
calls-++ (c ∷ cs) ds t = calls-++ cs ds (call t c)

-- The flag is set, and then the transport is gone as well.
abbrev IsShut : Transport → Type 0
IsShut t = (t.is_closed ≡ true) × (t.conn ≡ none)

detach_if-is_closed :
    (b : Bool) (t : Transport) (d : ℕ) → t.is_closed ≡ true → (detach_if b t d).1.is_closed ≡ true
detach_if-is_closed false t d h = h
detach_if-is_closed true t d h = h

detach_if-conn :
    (b : Bool) (t : Transport) (d : ℕ) → t.conn ≡ none → (detach_if b t d).1.conn ≡ none
detach_if-conn false t d h = h
detach_if-conn true t d h = refl

call-is_closed : (t : Transport) (k : Call) → t.is_closed ≡ true → (call t k).is_closed ≡ true
unfolding call attach_transport detach_transport close_transport
call-is_closed t (attach_call d seq) h =
    subst (λ (b : Bool). (attach_if b t d seq).is_closed ≡ true) (sym h) h
call-is_closed t (detach_call d) h = detach_if-is_closed (is_conn t.conn d) t d h
call-is_closed t set_closed h = refl
call-is_closed t close_call h = h

call-conn : (t : Transport) (k : Call) → t.is_closed ≡ true → t.conn ≡ none → (call t k).conn ≡ none
unfolding call attach_transport detach_transport close_transport
call-conn t (attach_call d seq) h k =
    subst (λ (b : Bool). (attach_if b t d seq).conn ≡ none) (sym h) k
call-conn t (detach_call d) h k = detach_if-conn (is_conn t.conn d) t d k
call-conn t set_closed h k = k
call-conn t close_call h k = refl

calls-is_closed :
    (cs : List Call) (t : Transport) → t.is_closed ≡ true → (calls t cs).is_closed ≡ true
unfolding calls
calls-is_closed [] t h = h
calls-is_closed (k ∷ cs) t h = calls-is_closed cs (call t k) (call-is_closed t k h)

call-IsShut : (t : Transport) (k : Call) → IsShut t → IsShut (call t k)
call-IsShut t k h = (call-is_closed t k h.0, call-conn t k h.0 h.1)

calls-IsShut : (cs : List Call) (t : Transport) → IsShut t → IsShut (calls t cs)
unfolding calls
calls-IsShut [] t h = h
calls-IsShut (k ∷ cs) t h = calls-IsShut cs (call t k) (call-IsShut t k h)

-- A connection is closed: markClosed sets the flag, other calls come in between, and the transport
-- is closed.
abbrev pub closing_calls : List Call → List Call → List Call → List Call
closing_calls before between after = before ++ (set_closed ∷ (between ++ (close_call ∷ after)))

closing_calls-IsShut :
    (before between after : List Call) (t : Transport)
    → IsShut (calls t (closing_calls before between after))
unfolding calls call close_transport
closing_calls-IsShut before between after t =
    subst IsShut (sym (calls-++ before (set_closed ∷ (between ++ (close_call ∷ after))) t)) (
      subst IsShut (sym (calls-++ between (close_call ∷ after) (call (calls t before) set_closed)))
        (calls-IsShut after (close_transport (calls (call (calls t before) set_closed) between))
          (calls-is_closed between (call (calls t before) set_closed) refl, refl)))

member_unless_current :
    (o : Option ℕ) (c : ℕ) (closed : List ℕ)
    → o ≡ none
    → (is_member c closed ≡ true) ⊎ (is_conn o c ≡ true)
    → is_member c closed ≡ true
member_unless_current none c closed e h = close_conn-member none c closed h
member_unless_current (some d) c closed e h = ground arith

-- In any order of the calls that attach, detach and close transports in which the connection is
-- marked as closed and its transport then closed, with any calls before, between and after, every
-- transport that is ever attached, also one that an attach brings in late, is closed in the end.
pub closed_connection_leaks_none :
    (before between after : List Call) (c : ℕ)
    → is_attached c (closing_calls before between after) ≡ true
    → is_member c (calls new_transport (closing_calls before between after)).closed_conns ≡ true
closed_connection_leaks_none before between after c h =
    let all = closing_calls before between after in
    let end = calls new_transport all in
    member_unless_current end.conn c end.closed_conns
      (closing_calls-IsShut before between after new_transport).1
      (attached-Owned all new_transport c h)
