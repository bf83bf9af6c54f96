-- ===== src/Recovery.antt =====
-- recovery.go: the recovery options and their defaults.
mod Tests
pub mod Defaults
use adaptivemsg_go.Duration.{double, is_not_positive, millisecond, second, signed_lt}
use adaptivemsg_go.Prelude.{Bool, false, if◌then◌else◌, ℕ, ◌*◌, ◌==◌, ◌^◌}

abbrev pub default_max_frame : ℕ
default_max_frame = 16 * 2 ^ 20

-- Sizes are int64 patterns, as the durations are.
pub record ClientRecoveryOptions : Type 0 where
  pub enable : Bool
  pub reconnect_min_backoff : ℕ
  pub reconnect_max_backoff : ℕ
  pub max_replay_bytes : ℕ

pub record ServerRecoveryOptions : Type 0 where
  pub enable : Bool
  pub detached_ttl : ℕ
  pub max_replay_bytes : ℕ
  pub ack_every : ℕ
  pub ack_delay : ℕ
  pub heartbeat_interval : ℕ
  pub heartbeat_timeout : ℕ

pub record NegotiatedRecoveryOptions : Type 0 where
  pub ack_every : ℕ
  pub ack_delay : ℕ
  pub heartbeat_interval : ℕ
  pub heartbeat_timeout : ℕ

abbrev pub default_client_recovery_options : ClientRecoveryOptions
default_client_recovery_options = record {
  enable = false;
  reconnect_min_backoff = 100 * millisecond;
  reconnect_max_backoff = 2 * second;
  max_replay_bytes = 2 * default_max_frame;
}

abbrev pub default_server_recovery_options : ServerRecoveryOptions
default_server_recovery_options = record {
  enable = false;
  detached_ttl = 30 * second;
  max_replay_bytes = 2 * default_max_frame;
  ack_every = 64;
  ack_delay = 20 * millisecond;
  heartbeat_interval = 30 * second;
  heartbeat_timeout = 90 * second;
}

-- `if v <= 0 { v = def }`
abbrev pub or_default : ℕ → ℕ → ℕ
or_default d def = if is_not_positive d then def else d

-- `if v < least { v = least }`
abbrev pub at_least : ℕ → ℕ → ℕ
at_least d least = if signed_lt d least then least else d

pub normalized_client : ClientRecoveryOptions → ClientRecoveryOptions
normalized_client o =
    let min_backoff =
      or_default o.reconnect_min_backoff default_client_recovery_options.reconnect_min_backoff in
    let max_backoff =
      or_default o.reconnect_max_backoff default_client_recovery_options.reconnect_max_backoff in
    record o {
      reconnect_min_backoff = min_backoff;
      reconnect_max_backoff = at_least max_backoff min_backoff;
      max_replay_bytes =
          or_default o.max_replay_bytes default_client_recovery_options.max_replay_bytes;
    }

unfoldable pub normalized_server : ServerRecoveryOptions → ServerRecoveryOptions
normalized_server o =
    let def = default_server_recovery_options in
    let interval = or_default o.heartbeat_interval def.heartbeat_interval in
    record o {
      detached_ttl = or_default o.detached_ttl def.detached_ttl;
      max_replay_bytes = or_default o.max_replay_bytes def.max_replay_bytes;
      ack_every = if o.ack_every == 0 then def.ack_every else o.ack_every;
      ack_delay = or_default o.ack_delay def.ack_delay;
      heartbeat_interval = interval;
      heartbeat_timeout =
          at_least (or_default o.heartbeat_timeout def.heartbeat_timeout) (double interval);
    }

unfoldable pub negotiated : ServerRecoveryOptions → NegotiatedRecoveryOptions
unfolding normalized_server
negotiated o = record {
  ack_every = (normalized_server o).ack_every;
  ack_delay = (normalized_server o).ack_delay;
  heartbeat_interval = (normalized_server o).heartbeat_interval;
  heartbeat_timeout = (normalized_server o).heartbeat_timeout;
}

unfoldable pub normalized_negotiated : NegotiatedRecoveryOptions → NegotiatedRecoveryOptions
unfolding negotiated
normalized_negotiated o =
    let def = negotiated default_server_recovery_options in
    let interval = or_default o.heartbeat_interval def.heartbeat_interval in
    record {
      ack_every = if o.ack_every == 0 then def.ack_every else o.ack_every;
      ack_delay = or_default o.ack_delay def.ack_delay;
      heartbeat_interval = interval;
      heartbeat_timeout =
          at_least (or_default o.heartbeat_timeout def.heartbeat_timeout) (double interval);
    }
