-- ===== src/Recovery/Defaults.antt =====
-- What normalisation makes of any options.
use adaptivemsg_go.Duration.{IsPositive}
use adaptivemsg_go.Prelude.{arith, ◌*◌, ◌<◌, ◌^◌, ◌≡◌, ◌≤◌, ◌⊎◌}
use adaptivemsg_go.Recovery.{
  ClientRecoveryOptions, NegotiatedRecoveryOptions, normalized_client, normalized_negotiated,
}

-- Options that the runtime can work with.
pub record IsUsable (o : NegotiatedRecoveryOptions) : Type 0 where
  pub ack_every_positive : 0 < o.ack_every
  pub ack_delay_positive : IsPositive o.ack_delay
  pub interval_positive : IsPositive o.heartbeat_interval
  pub timeout_positive : IsPositive o.heartbeat_timeout
  pub timeout_enough : 2 * o.heartbeat_interval ≤ o.heartbeat_timeout

-- The fields are int64 patterns, and twice the interval does not overflow: it is below 2 ^ 62
-- nanoseconds, some 146 years.
pub record IsInRange (o : NegotiatedRecoveryOptions) : Type 0 where
  pub ack_delay_i64 : o.ack_delay < 2 ^ 64
  pub interval_i64 : o.heartbeat_interval < 2 ^ 64
  pub timeout_i64 : o.heartbeat_timeout < 2 ^ 64
  pub interval_doubles : (2 ^ 63 ≤ o.heartbeat_interval) ⊎ (o.heartbeat_interval < 2 ^ 62)

-- Options of int64 fields, zero and negative ones included, with a heartbeat interval that is below
-- 2 ^ 62 nanoseconds, some 146 years: the normalised ones are usable.
pub normalized_negotiated-IsUsable :
    (o : NegotiatedRecoveryOptions) → IsInRange o → IsUsable (normalized_negotiated o)
unfolding normalized_negotiated
normalized_negotiated-IsUsable o r = ground arith

-- Normalising leaves usable options alone.
pub normalized_negotiated-id :
    (o : NegotiatedRecoveryOptions) → IsUsable o → normalized_negotiated o ≡ o
unfolding normalized_negotiated
normalized_negotiated-id o u = ground arith

-- Client options: the backoff bounds are positive and in order, and there is room for replay.
pub normalized_client_bounds :
    (o : ClientRecoveryOptions)
    → o.reconnect_min_backoff < 2 ^ 64
    → o.reconnect_max_backoff < 2 ^ 64
    → o.max_replay_bytes < 2 ^ 64
    → IsPositive (normalized_client o).reconnect_min_backoff
      × ((normalized_client o).reconnect_min_backoff ≤ (normalized_client o).reconnect_max_backoff)
      × IsPositive (normalized_client o).max_replay_bytes
      × (normalized_client (normalized_client o) ≡ normalized_client o)
unfolding normalized_client
normalized_client_bounds o a b c = ground arith
