-- ===== src/Sessions/Authority.antt =====
-- What a peer needs to get at a session.
use adaptivemsg_go.Attach.{
  AttachRequest, attach_mode_new, attach_mode_resume, read_attach_request, write_attach_response,
}
use adaptivemsg_go.Bytes.{Bytes, same_bytes, same_bytes-eq}
use adaptivemsg_go.Errors.{Error, Result, err, ok}
use adaptivemsg_go.Port.{Port}
use adaptivemsg_go.Prelude.{
  Bool, Bool-cases, Option, [], ap, false, if◌then◌else◌, inl, inr, none, not, refl, some, some-inj,
  subst, sym, true, ℕ, ◌==◌, ◌∙◌, ◌∷◌, ◌≡◌, ◌≢◌,
}
use adaptivemsg_go.Sessions.{
  NewSession, Outcome, Session, Sessions, attach_new, attach_resume, attach_to, by_mode, connected,
  find_session, handle_recovery_conn, new_with_tokens, new_written, remove_session, resume_found,
  resume_in, resume_response, resumed, store_session, update_session,
}

find_session-update :
    (id rid : Bytes) (s : Session) (table : Sessions)
    → same_bytes rid id ≡ false
    → find_session id (update_session rid s table) ≡ find_session id table
find_session-update id rid s [] h = refl
find_session-update id rid s ((i, t) ∷ table) h = elim (Bool-cases (same_bytes i rid)) [
  | inl e ↦
      rw e (rw (subst (λ (k : Bytes). same_bytes k id ≡ false) (sym (same_bytes-eq i rid e)) h))
  | inr e ↦ rw e (
      ap (λ (o : Option Session). if same_bytes i id then some t else o)
        (find_session-update id rid s table h))
]

-- A session stays what it is.
abbrev pub Keeps : Bytes → Session → Outcome → Type 0
Keeps id s out = find_session id out.1 ≡ some s

resumed-Keeps :
    (id : Bytes) (s t : Session) (table : Sessions) (conn : ℕ) (req : AttachRequest)
    (r : Result (Unit {0}) × Port)
    → find_session id table ≡ some s
    → same_bytes req.connection_id id ≡ false
    → Keeps id s (resumed table conn req t r)
resumed-Keeps id s t table conn req (err e, p) f h = f
resumed-Keeps id s t table conn req (ok u, p) f h =
    find_session-update id req.connection_id (attach_to t conn req.last_recv_seq) table h ∙ f

-- A property of both branches of a test.
if_both {ℓ} :
    {A : Type 0} (P : A → Type ℓ) (b : Bool) (x y : A)
    → (b ≡ true → P x)
    → (b ≡ false → P y)
    → P (if b then x else y)
if_both P true x y h k = h refl
if_both P false x y h k = k refl

not-false : (b : Bool) → not b ≡ false → b ≡ true
not-false true h = refl
not-false false h = cc

same_bytes_ne : (bs cs : Bytes) → bs ≢ cs → same_bytes bs cs ≡ true → ⊥
same_bytes_ne bs cs ne h = ne (same_bytes-eq bs cs h)

-- The three tests of `attachResume` refuse or let through.
resume_found-Keeps :
    (id : Bytes) (s t : Session) (table : Sessions) (conn codec : ℕ) (req : AttachRequest)
    (p : Port)
    → find_session id table ≡ some s
    → (same_bytes t.resume_secret req.resume_secret ≡ true
        → Keeps id s (resumed table conn req t (write_attach_response (resume_response t) p)))
    → Keeps id s (resume_found table conn codec req t p)
resume_found-Keeps id s t table conn codec req p f k =
    if_both (Keeps id s) t.transport.is_closed _ _ (λ a. f)
      λ a.
        if_both (Keeps id s) (not (same_bytes t.resume_secret req.resume_secret)) _ _ (λ b. f)
          λ b. if_both (Keeps id s) (not (t.codec_id == codec)) _ _ (λ c. f) λ c. k (not-false _ b)

resume_in-Keeps :
    (id : Bytes) (s : Session) (o : Option Session) (table : Sessions) (conn codec : ℕ)
    (req : AttachRequest) (p : Port)
    → find_session id table ≡ some s
    → o ≡ find_session req.connection_id table
    → s.resume_secret ≢ req.resume_secret
    → Keeps id s (resume_in o table conn codec req p)
resume_in-Keeps id s none table conn codec req p f e ne = f
resume_in-Keeps id s (some t) table conn codec req p f e ne =
    resume_found-Keeps id s t table conn codec req p f λ given.
      elim (Bool-cases (same_bytes req.connection_id id)) [
        | inl same ↦ absurd (
            ne (
              ap (λ (x : Session). x.resume_secret) (the_same same)
              ∙ same_bytes-eq t.resume_secret req.resume_secret given))
        | inr other ↦
            resumed-Keeps id s t table conn req (write_attach_response (resume_response t) p) f
              other
      ]
  where
    the_same : same_bytes req.connection_id id ≡ true → s ≡ t
    the_same same = some-inj (
        sym f
        ∙ (ap (λ (k : Bytes). find_session k table) (sym (same_bytes-eq req.connection_id id same))
            ∙ sym e))

find_session-remove :
    (id rid : Bytes) (table : Sessions)
    → same_bytes rid id ≡ false
    → find_session id (remove_session rid table) ≡ find_session id table
find_session-remove id rid [] h = refl
find_session-remove id rid ((i, t) ∷ table) h = elim (Bool-cases (same_bytes i rid)) [
  | inl e ↦ rw e (
      rw (subst (λ (k : Bytes). same_bytes k id ≡ false) (sym (same_bytes-eq i rid e)) h)
        (find_session-remove id rid table h))
  | inr e ↦ rw e (
      ap (λ (o : Option Session). if same_bytes i id then some t else o)
        (find_session-remove id rid table h))
]

removed-finds :
    (id : Bytes) (s : Session) (table : Sessions) (rid : Bytes) (t : Session)
    → find_session id table ≡ some s
    → rid ≢ id
    → find_session id (remove_session rid (store_session rid t table)) ≡ some s
removed-finds id s table rid t f ne = elim (Bool-cases (same_bytes rid id)) [
  | inl same ↦ absurd (ne (same_bytes-eq rid id same))
  | inr other ↦ find_session-remove id rid (store_session rid t table) other ∙ rw other f
]

connected-Keeps :
    (id : Bytes) (s : Session) (o : Option Error) (table : Sessions) (conn : ℕ) (rid : Bytes)
    (t : Session) (p : Port)
    → find_session id table ≡ some s
    → rid ≢ id
    → Keeps id s (connected o table conn rid t p)
connected-Keeps id s none table conn rid t p f ne = elim (Bool-cases (same_bytes rid id)) [
  | inl same ↦ absurd (ne (same_bytes-eq rid id same))
  | inr other ↦ rw other f
]
connected-Keeps id s (some e) table conn rid t p f ne = removed-finds id s table rid t f ne

new_written-Keeps :
    (id : Bytes) (s : Session) (new : NewSession) (table : Sessions) (conn : ℕ) (rid : Bytes)
    (t : Session) (r : Result (Unit {0}) × Port)
    → find_session id table ≡ some s
    → rid ≢ id
    → Keeps id s (new_written new table conn rid t r)
new_written-Keeps id s new table conn rid t (err e, p) f ne = removed-finds id s table rid t f ne
new_written-Keeps id s new table conn rid t (ok u, p) f ne =
    connected-Keeps id s new.on_connect table conn rid t p f ne

new_with_tokens-Keeps :
    (id : Bytes) (s : Session) (new : NewSession) (table : Sessions) (conn codec : ℕ)
    (i j : Result Bytes) (p : Port)
    → find_session id table ≡ some s
    → i ≢ ok id
    → Keeps id s (new_with_tokens new table conn codec i j p)
new_with_tokens-Keeps id s new table conn codec (err e) j p f ne = f
new_with_tokens-Keeps id s new table conn codec (ok i) (err e) p f ne = f
new_with_tokens-Keeps id s new table conn codec (ok i) (ok j) p f ne =
    new_written-Keeps id s new table conn i _ _ f (λ e. ne (ap ok e))

by_mode-Keeps :
    (id : Bytes) (s : Session) (new : NewSession) (table : Sessions) (conn codec : ℕ)
    (r : Result AttachRequest × Port)
    → find_session id table ≡ some s
    → new.connection_id ≢ ok id
    → ((req : AttachRequest) → r.0 ≡ ok req → s.resume_secret ≢ req.resume_secret)
    → Keeps id s (by_mode new table conn codec r)
unfolding attach_new attach_resume
by_mode-Keeps id s new table conn codec (err e, p) f fresh wrong = f
by_mode-Keeps id s new table conn codec (ok req, p) f fresh wrong =
    if_both (Keeps id s) (req.mode == attach_mode_new) _ _
      (λ a.
        new_with_tokens-Keeps id s new table conn codec new.connection_id new.resume_secret p f
          fresh)
      λ a.
        if_both (Keeps id s) (req.mode == attach_mode_resume) _ _
          (λ b.
            resume_in-Keeps id s (find_session req.connection_id table) table conn codec req p f
              refl (wrong req refl))
          λ b. f

-- A session in the server's table, and a peer on a new transport whose bytes, whatever they are, do
-- not read as an attach request with that session's secret, where the random ID for a new session is
-- another one: the session and its transport stay as they are.
pub session_kept :
    (id : Bytes) (s : Session) (new : NewSession) (table : Sessions) (conn codec : ℕ) (p : Port)
    → find_session id table ≡ some s
    → new.connection_id ≢ ok id
    → ((req : AttachRequest)
        → (read_attach_request p).0 ≡ ok req
        → s.resume_secret ≢ req.resume_secret)
    → find_session id (handle_recovery_conn new table conn codec p).1 ≡ some s
unfolding handle_recovery_conn
session_kept id s new table conn codec p f fresh wrong =
    by_mode-Keeps id s new table conn codec (read_attach_request p) f fresh wrong
