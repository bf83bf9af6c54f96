-- ===== src/Receive/Tests.antt =====
-- Three requests: the first one times out, its reply comes during the second.
use adaptivemsg_go.Errors.{err, ok, recv_timeout}
use adaptivemsg_go.Prelude.{[], refl, ℕ, ◌∷◌, ◌≡◌}
use adaptivemsg_go.Receive.{RawMessage, idle_state, read_loop, send_recv}
use adaptivemsg_go.Receive.Replies.{AllOwn, session, session-AllOwn}

abbrev numbered_reply : ℕ → RawMessage
numbered_reply n = record { wire = "reply"; body = n ∷ [] }

session-AllOwn_example :
    AllOwn numbered_reply 0 (session numbered_reply 0 idle_state (0 ∷ 2 ∷ 1 ∷ []))
session-AllOwn_example = session-AllOwn numbered_reply (0 ∷ 2 ∷ 1 ∷ [])

late_reply_discarded :
    session numbered_reply 0 idle_state (0 ∷ 2 ∷ 1 ∷ [])
    ≡ err recv_timeout ∷ ok (numbered_reply 1) ∷ ok (numbered_reply 2) ∷ []
unfolding session send_recv read_loop
late_reply_discarded = refl
