-- ===== src/Lifecycle/Tests.antt =====
-- Runs of a server that stops.
use adaptivemsg_go.Lifecycle.{
  Lifecycle, Reach, accept_conn, accept_step, await_close, begin_handshake, begin_shutdown,
  close_listed, close_step, finishes, listen, listen_step, new_lifecycle, no_steps, shutdown_step,
  start_step, starts, then_step, track_conn, track_listener, track_step, tracks,
}
use adaptivemsg_go.Lifecycle.Shutdown.{is_shut, is_stopped, shutdown_stops_all}
use adaptivemsg_go.Lifecycle.Stopping.{is_live}
use adaptivemsg_go.Prelude.{false, refl, true, ◌≡◌, ◌≤◌, ◌⊎◌}

-- Listener 7 is served; transport 1 gets through the handshake and transport 2 does not.
abbrev two_served : Lifecycle
two_served = tracks (starts (accept_conn (accept_conn (listen new_lifecycle 7) 1) 2) 1) 1

two_served-Reach : Reach new_lifecycle two_served
unfolding listen track_listener accept_conn begin_handshake starts tracks track_conn
two_served-Reach =
    then_step
      (then_step
        (then_step (then_step (then_step no_steps (listen_step 7 refl)) (accept_step 1 refl))
          (accept_step 2 refl))
        (start_step 1 refl))
      (track_step 1 refl)

-- Transport 2 starts a connection while Shutdown runs.
abbrev stopped : Lifecycle
stopped = tracks (starts (close_listed (begin_shutdown two_served)) 2) 2

stopped-Reach : Reach new_lifecycle stopped
unfolding listen track_listener accept_conn begin_handshake starts tracks track_conn begin_shutdown
    close_listed
stopped-Reach =
    then_step
      (then_step (then_step (then_step two_served-Reach shutdown_step) close_step)
        (start_step 2 refl))
      (track_step 2 refl)

shutdown_stops_all_example :
    (is_stopped stopped 2 ≡ true)
    × (is_shut stopped 7 ≡ true)
    × ((is_live (stopped.phase 2) ≡ false) ⊎ (1 ≤ stopped.running))
unfolding listen track_listener accept_conn begin_handshake starts tracks track_conn begin_shutdown
    close_listed
shutdown_stops_all_example = shutdown_stops_all 2 7 stopped-Reach refl refl refl refl

abbrev stopping_now : Lifecycle
stopping_now = begin_shutdown two_served

-- A third transport and another listener come too late, the second transport gets through its
-- handshake, and the first connection ends.
abbrev later : Lifecycle
later =
    await_close
      (finishes (tracks (starts (listen (accept_conn (close_listed stopping_now) 3) 8) 2) 2) 1) 1
