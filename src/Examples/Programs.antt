-- ===== src/Examples/Programs.antt =====
-- The program with ubus, on a bus that takes the object, up to its end behind a stop.
use cpe_acs_connector_tr.Base.{ℕ, true, false, [], ◌∷◌, ◌≡◌, refl, ap}
use cpe_acs_connector_tr.UbusServer.{Ubus, initialize, register}
use cpe_acs_connector_tr.UbusServer.Lifecycle.{Connections}
use cpe_acs_connector_tr.Main
use cpe_acs_connector_tr.Main.Ubus.{
  exited, Program, daemon_returns, daemon_stops_loop, loop_returns, joined, Reached, begun, stepped,
  main, leave, Step,
}
use cpe_acs_connector_tr.Main.Ubus.Joined.{Exits, main-Exits}
use cpe_acs_connector_tr.Examples.{platform, daemon}
use cpe_acs_connector_tr.Examples.Buses.{
  State, behind_first, opened, opened_opens, opened_fails, nothing_open,
}
use cpe_acs_connector_tr.Examples.Runs.{stopping, at_end, run_stopped}

abbrev accepting : Ubus State
accepting = record {
  uloop_init = λ s. (0, s);
  uloop_done = λ s. s;
  connect = opened;
  add_uloop = λ s c. s;
  add_object = λ s c. (0, s);
  remove_object = λ s c. s;
  free = λ s c. (behind_first s.0, s.1);
}

abbrev connections : Connections State accepting
connections = record {
  open_in = λ s. s.0;
  uloop_init_keeps = λ s. refl;
  uloop_done_keeps = λ s. refl;
  connect_opens = opened_opens;
  connect_fails = opened_fails;
  add_uloop_keeps = λ s c. refl;
  add_object_keeps = λ s c. refl;
  remove_object_keeps = λ s c. refl;
  free_closes = λ s c rest e. ap behind_first e;
}

-- The thread ends the loop before `main` has entered it.
abbrev final : Program ℕ State
unfolding leave main
final = leave accepting 0 (record (main accepting daemon nothing_open) {
  phase = Main.Ubus.joining;
  thread = Main.Ubus.ended at_end;
  end_asked = true;
  stop_asked = true;
})

all_steps : Reached accepting platform daemon nothing_open final
unfolding final main initialize register
all_steps =
    stepped
      (stepped
        (stepped (stepped begun (daemon_returns daemon at_end (stopping ∷ []) 0 refl run_stopped))
          (daemon_stops_loop at_end refl))
        (loop_returns refl))
      (joined at_end refl refl)

main-Exits_example :
    (final.bus.0 ≡ [])
    × (final.server.instance ≡ false)
    × Exits platform accepting connections daemon nothing_open 0 final.thread
unfolding final leave
main-Exits_example =
    main-Exits platform accepting connections daemon nothing_open final 0 all_steps refl
