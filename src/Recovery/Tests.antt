-- ===== src/Recovery/Tests.antt =====
-- Options at concrete inputs.
use adaptivemsg_go.Duration.{IsPositive, second}
use adaptivemsg_go.Prelude.{arith, inr, true, ◌*◌, ◌-◌, ◌^◌, ◌≡◌, ◌≤◌}
use adaptivemsg_go.Recovery.{
  ClientRecoveryOptions, NegotiatedRecoveryOptions, normalized_client, normalized_negotiated,
}
use adaptivemsg_go.Recovery.Defaults.{
  IsInRange, IsUsable, normalized_client_bounds, normalized_negotiated-IsUsable,
}

-- A timeout below twice the interval, and a negative delay.
abbrev odd_options : NegotiatedRecoveryOptions
odd_options = record {
  ack_every = 0;
  ack_delay = 2 ^ 64 - 1;
  heartbeat_interval = 5 * second;
  heartbeat_timeout = second;
}

odd_options-IsInRange : IsInRange odd_options
odd_options-IsInRange = record {
  ack_delay_i64 = omega arith;
  interval_i64 = omega arith;
  timeout_i64 = omega arith;
  interval_doubles = inr (omega arith);
}

normalized_negotiated-IsUsable_example : IsUsable (normalized_negotiated odd_options)
normalized_negotiated-IsUsable_example =
    normalized_negotiated-IsUsable odd_options odd_options-IsInRange

abbrev odd_client : ClientRecoveryOptions
odd_client = record {
  enable = true;
  reconnect_min_backoff = 3 * second;
  reconnect_max_backoff = second;
  max_replay_bytes = 0;
}

normalized_client_bounds_example :
    IsPositive (normalized_client odd_client).reconnect_min_backoff
    × ((normalized_client odd_client).reconnect_min_backoff
        ≤ (normalized_client odd_client).reconnect_max_backoff)
    × IsPositive (normalized_client odd_client).max_replay_bytes
    × (normalized_client (normalized_client odd_client) ≡ normalized_client odd_client)
normalized_client_bounds_example =
    normalized_client_bounds odd_client (omega arith) (omega arith) (omega arith)
