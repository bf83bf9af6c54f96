-- ===== src/Transport/Tests.antt =====
-- A transport that is replaced, one that is attached after the connection is marked as closed, and
-- the generations that a reader sees.
use adaptivemsg_go.Prelude.{List, [], false, none, refl, some, true, ◌∷◌, ◌≡◌}
use adaptivemsg_go.Streams.{is_member}
use adaptivemsg_go.Transport.{
  Call, attach_call, attach_transport, attached_transport, call, calls, detach_call,
  detach_transport, new_transport, transport_active,
}
use adaptivemsg_go.Transport.Ownership.{closed_connection_leaks_none, closing_calls}

abbrev before_close : List Call
before_close = attach_call 7 0 ∷ attach_call 8 3 ∷ detach_call 8 ∷ attach_call 9 4 ∷ []

replaced_closed :
    (calls new_transport (attach_call 7 0 ∷ attach_call 8 3 ∷ [])).closed_conns ≡ 7 ∷ []
unfolding calls call attach_transport
replaced_closed = refl

stale_detach :
    (calls new_transport (attach_call 7 0 ∷ attach_call 8 3 ∷ detach_call 7 ∷ [])).conn ≡ some 8
unfolding calls call attach_transport detach_transport
stale_detach = refl

reader_waits : attached_transport (calls new_transport (attach_call 7 5 ∷ [])) 1 ≡ none
unfolding attached_transport calls call attach_transport
reader_waits = refl

reader_gets : attached_transport (calls new_transport (attach_call 7 5 ∷ [])) 0 ≡ some (7, 1, 5)
unfolding attached_transport calls call attach_transport
reader_gets = refl

reader_stops :
    transport_active (calls new_transport (attach_call 7 5 ∷ detach_call 7 ∷ [])) 1 ≡ false
unfolding transport_active calls call attach_transport detach_transport
reader_stops = refl

closed_connection_leaks_none_example :
    is_member 6
      (calls new_transport
        (closing_calls before_close (attach_call 6 2 ∷ []) (detach_call 9 ∷ []))).closed_conns
    ≡ true
closed_connection_leaks_none_example =
    closed_connection_leaks_none before_close (attach_call 6 2 ∷ []) (detach_call 9 ∷ []) 6 refl
