-- ===== src/Attach/Options.antt =====
-- The negotiated options over the wire: whole milliseconds.
use adaptivemsg_go.Attach.{EncodedOptions, decode_options, duration_to_millis, encode_options}
use adaptivemsg_go.Duration.{IsPositive, double, is_not_positive, millisecond, signed_lt}
use adaptivemsg_go.Errors.{and_then-ok, err, invalid_message, ok}
use adaptivemsg_go.Prelude.{
  arith, false, if◌then◌else◌, refl, true, ℕ, ◌%◌, ◌*◌, ◌/◌, ◌<◌, ◌==◌, ◌^◌, ◌∙◌, ◌≡◌, ◌≤◌,
}
use adaptivemsg_go.Recovery.{NegotiatedRecoveryOptions}
use adaptivemsg_go.Recovery.Defaults.{IsUsable, normalized_negotiated-id}

-- Milliseconds of a positive duration; less than one counts as one.
abbrev pub millis : ℕ → ℕ
millis d = if d / millisecond == 0 then 1 else d / millisecond

abbrev pub whole_millis : ℕ → ℕ
whole_millis d = millis d * millisecond

-- Usable options whose durations fit the 32 bits of milliseconds on the wire.
pub record FitsWire (o : NegotiatedRecoveryOptions) : Type 0 where
  pub usable : IsUsable o
  pub ack_every_u32 : o.ack_every < 2 ^ 32
  pub ack_delay_fits : millis o.ack_delay < 2 ^ 32
  pub interval_fits : millis o.heartbeat_interval < 2 ^ 32
  pub timeout_fits : millis o.heartbeat_timeout < 2 ^ 32

abbrev pub encoded : NegotiatedRecoveryOptions → EncodedOptions
encoded o = record {
  ack_every = o.ack_every;
  ack_delay_ms = millis o.ack_delay;
  heartbeat_interval_ms = millis o.heartbeat_interval;
  heartbeat_timeout_ms = millis o.heartbeat_timeout;
}

duration_to_millis-eq :
    (d : ℕ) → IsPositive d → millis d < 2 ^ 32 → duration_to_millis d ≡ ok (millis d)
unfolding duration_to_millis
duration_to_millis-eq d p h = ground arith

pub encode_options-eq :
    (o : NegotiatedRecoveryOptions) → FitsWire o → encode_options o ≡ ok (encoded o)
unfolding encode_options
encode_options-eq o f =
    rw (encode_options, normalized_negotiated-id o f.usable)
      (and_then-ok (duration_to_millis o.ack_delay) _
          (duration_to_millis-eq o.ack_delay f.usable.ack_delay_positive f.ack_delay_fits)
        ∙ and_then-ok (duration_to_millis o.heartbeat_interval) _
            (duration_to_millis-eq o.heartbeat_interval f.usable.interval_positive f.interval_fits)
        ∙ and_then-ok (duration_to_millis o.heartbeat_timeout) _
            (duration_to_millis-eq o.heartbeat_timeout f.usable.timeout_positive f.timeout_fits))

-- Options come back in whole milliseconds: rounded down, and up to one where they are below it.
-- The interval has to be at least a millisecond.
pub decode_options-encode_options :
    (o : NegotiatedRecoveryOptions)
    → FitsWire o
    → millisecond ≤ o.heartbeat_interval
    → decode_options (encoded o)
      ≡ ok (record {
        ack_every = o.ack_every;
        ack_delay = whole_millis o.ack_delay;
        heartbeat_interval = whole_millis o.heartbeat_interval;
        heartbeat_timeout = whole_millis o.heartbeat_timeout;
      })
unfolding decode_options
decode_options-encode_options o f h =
    rw (a, b, c, d)
      (λ i. ok (record {
        ack_every = o.ack_every;
        ack_delay = small o.ack_delay f.ack_delay_fits i;
        heartbeat_interval = small o.heartbeat_interval f.interval_fits i;
        heartbeat_timeout = small o.heartbeat_timeout f.timeout_fits i;
      }))
  where
    small : (v : ℕ) → millis v < 2 ^ 32 → millis v * millisecond % 2 ^ 64 ≡ millis v * millisecond
    small v l = omega (arith, l)

    a : (o.ack_every == 0) ≡ false
    a = ground (arith, f.usable)

    b : is_not_positive (millis o.ack_delay * millisecond % 2 ^ 64) ≡ false
    b = ground (arith, f)

    c : is_not_positive (millis o.heartbeat_interval * millisecond % 2 ^ 64) ≡ false
    c = ground (arith, f)

    d :
        signed_lt
          (millis o.heartbeat_timeout * millisecond % 2 ^ 64)
          (double (millis o.heartbeat_interval * millisecond % 2 ^ 64))
        ≡ false
    d = ground (arith, f)

-- A usable timeout below two milliseconds, with an interval below one, is refused by the peer:
-- both are sent as one millisecond.
pub decode_options_too_small :
    (o : NegotiatedRecoveryOptions)
    → FitsWire o
    → o.heartbeat_interval < millisecond
    → o.heartbeat_timeout < 2 * millisecond
    → decode_options (encoded o) ≡ err (invalid_message "negotiated heartbeat_timeout too small")
unfolding decode_options
decode_options_too_small o f h k = rw (a, b, c, d) refl
  where
    a : (o.ack_every == 0) ≡ false
    a = ground (arith, f.usable)

    b : is_not_positive (millis o.ack_delay * millisecond % 2 ^ 64) ≡ false
    b = ground (arith, f)

    c : is_not_positive (millis o.heartbeat_interval * millisecond % 2 ^ 64) ≡ false
    c = ground (arith, f)

    d :
        signed_lt
          (millis o.heartbeat_timeout * millisecond % 2 ^ 64)
          (double (millis o.heartbeat_interval * millisecond % 2 ^ 64))
        ≡ true
    d = ground (arith, f)
