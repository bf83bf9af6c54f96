-- ===== src/Reconnect/Tests.antt =====
-- A reconnect that fails four times before it succeeds, and one that is refused.
use adaptivemsg_go.Duration.{millisecond}
use adaptivemsg_go.Errors.{conn_closed, resume_rejected}
use adaptivemsg_go.Prelude.{
  List, [], arith, false, get_elem?, min, none, refl, some, ◌*◌, ◌^◌, ◌∷◌, ◌≡◌,
}
use adaptivemsg_go.Reconnect.{Round, marked_closed, reconnect_rounds, reconnect_until_attached}
use adaptivemsg_go.Reconnect.Backoff.{backoff_doubles}

abbrev failed : Round
failed = record { is_closed = false; resume_error = some conn_closed; closes_in_wait = false }

abbrev succeeded : Round
succeeded = record { is_closed = false; resume_error = none; closes_in_wait = false }

abbrev refused : Round
refused = record {
  is_closed = false;
  resume_error = some (resume_rejected "unknown connection");
  closes_in_wait = false;
}

abbrev slow_reconnect : List Round
slow_reconnect = failed ∷ failed ∷ failed ∷ failed ∷ succeeded ∷ failed ∷ []

slow_waits :
    (reconnect_until_attached (100 * millisecond) (500 * millisecond) slow_reconnect).waits
    ≡ 100 * millisecond ∷ 200 * millisecond ∷ 400 * millisecond ∷ 500 * millisecond ∷ []
unfolding reconnect_until_attached reconnect_rounds
slow_waits = refl

slow_attempts :
    (reconnect_until_attached (100 * millisecond) (500 * millisecond) slow_reconnect).attempts ≡ 5
unfolding reconnect_until_attached reconnect_rounds
slow_attempts = refl

refused_closes :
    (reconnect_until_attached 0 0 (failed ∷ refused ∷ failed ∷ [])).ended
    ≡ marked_closed (resume_rejected "unknown connection")
unfolding reconnect_until_attached reconnect_rounds
refused_closes = refl

fourth_wait :
    get_elem?
      (reconnect_until_attached (100 * millisecond) (500 * millisecond) slow_reconnect).waits
      3
    ≡ some (500 * millisecond)
unfolding reconnect_until_attached reconnect_rounds
fourth_wait = refl

backoff_doubles_example : 500 * millisecond ≡ min (100 * millisecond * 2 ^ 3) (500 * millisecond)
backoff_doubles_example =
    backoff_doubles (100 * millisecond) (500 * millisecond) slow_reconnect 3 (500 * millisecond)
      (ground arith) (ground arith) (ground arith) fourth_wait
