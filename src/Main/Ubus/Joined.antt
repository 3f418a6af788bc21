-- ===== src/Main/Ubus/Joined.antt =====
-- The two threads of the program with ubus, up to the return of `main`.
use cpe_acs_connector_tr.Base.{
  ℕ, Bool, true, false, List, some, ◌≡◌, ◌⊎◌, inl, inr, refl, Bool-cases,
}
use cpe_acs_connector_tr.Platform.{Platform}
use cpe_acs_connector_tr.Daemon.{Daemon}
use cpe_acs_connector_tr.Daemon.Loop.{Inputs}
use cpe_acs_connector_tr.Daemon.Run.{returned, run}
use cpe_acs_connector_tr.Daemon.Run.Ending.{Stops, run-Stops}
use cpe_acs_connector_tr.UbusServer.{Ubus, new_server, initialize}
use cpe_acs_connector_tr.UbusServer.Lifecycle.{Connections, destroy-initialize}
use cpe_acs_connector_tr.Main.Ubus.{
  Phase, looping, joining, exited, Thread, absent, running, stopping, ended, Program, leave,
  launched, main, Step, daemon_returns, daemon_stops_loop, loop_returns, joined, Reached, begun,
  stepped,
}

module _ {S U : Type 0} (p : Platform S) (ubus : Ubus U) (known : Connections U ubus) where
  open known use {open_in}

  module _ (d : Daemon S) (bus : U) where
    -- A run that has returned this, with this daemon left.
    abbrev Ran : ℕ → Daemon S → Type 0
    Ran code d' = (inputs : List Inputs) × (run p inputs d ≡ some (returned code d'))

    abbrev ThreadFits : Thread S → ℕ → Type 0
    ThreadFits absent result = ⊥
    ThreadFits (running d') result = d ≡ d'
    ThreadFits (stopping d') result = Ran result d'
    ThreadFits (ended d') result = Ran result d'

    abbrev Result : ℕ → Thread S → Type 0
    Result code thread =
        (((initialize ubus new_server bus).0 ≡ false) × (code ≡ 1) × (thread ≡ absent))
        ⊎ (((initialize ubus new_server bus).0 ≡ true)
            × (d' : Daemon S) × (thread ≡ ended d')
            × Ran code d')

    abbrev Closed : Program S U → Type 0
    Closed g = (open_in g.bus ≡ open_in bus) × (g.server.instance ≡ false)

    -- What holds in each phase.
    abbrev Fits : Phase → Program S U → Type 0
    Fits (exited code) g = Closed g × Result code g.thread
    Fits _ g =
        (g.server ≡ (initialize ubus new_server bus).1)
        × (g.bus ≡ (initialize ubus new_server bus).2)
        × ((initialize ubus new_server bus).0 ≡ true)
        × ThreadFits g.thread g.result

    main-Fits : Fits (main ubus d bus).phase (main ubus d bus)
    unfolding main launched leave
    main-Fits =
        let cleaned = destroy-initialize ubus known bus in
        elim (Bool-cases (initialize ubus new_server bus).0) [
          | inl e ↦ rw e (refl, refl, e, refl)
          | inr e ↦ rw e ((cleaned.1, cleaned.2), inl (e, refl, refl))
        ]

    -- A step of the daemon's thread, from one thread and result to another.
    moved-Fits :
        (x : Phase) (g : Program S U) (thread : Thread S) (result : ℕ) (end_asked : Bool)
        → (ThreadFits g.thread g.result → ThreadFits thread result)
        → ((code : ℕ) → Result code g.thread → ⊥)
        → Fits x g
        → Fits x (record g { thread = thread; result = result; end_asked = end_asked })
    moved-Fits looping g thread result end_asked keeps not_over (server, bus_is, ready, fits) =
        (server, bus_is, ready, keeps fits)
    moved-Fits joining g thread result end_asked keeps not_over (server, bus_is, ready, fits) =
        (server, bus_is, ready, keeps fits)
    moved-Fits (exited code) g thread result end_asked keeps not_over (closed, is_over) =
        absurd (not_over code is_over)

    running-not_over : (code : ℕ) (d' : Daemon S) → Result code (running d') → ⊥
    running-not_over code d' (inl (_, _, e)) = cc
    running-not_over code d' (inr (_, _, e, _)) = cc

    stopping-not_over : (code : ℕ) (d' : Daemon S) → Result code (stopping d') → ⊥
    stopping-not_over code d' (inl (_, _, e)) = cc
    stopping-not_over code d' (inr (_, _, e, _)) = cc

    step-Fits : (g g' : Program S U) → Step ubus p g g' → Fits g.phase g → Fits g'.phase g'
    unfolding leave
    step-Fits g _ (daemon_returns d0 d' inputs code e r) h =
        moved-Fits g.phase g (stopping d') code g.end_asked (rw e (λ same. (inputs, rw same r)))
          (rw e (λ c. running-not_over c d0)) h
    step-Fits g _ (daemon_stops_loop d' e) h =
        moved-Fits g.phase g (ended d') g.result true (rw e (λ ran. ran))
          (rw e (λ c. stopping-not_over c d')) h
    step-Fits g _ (loop_returns e) h = rw e at h
    step-Fits g _ (joined d' e over) h =
        let (server, bus_is, ready, fits) = rw e at h in
        let cleaned = destroy-initialize ubus known bus in
        (rw (server, bus_is) (cleaned.1, cleaned.2), inr (ready, d', over, rw over at fits))

    reached-Fits : (g : Program S U) → Reached ubus p d bus g → Fits g.phase g
    reached-Fits _ begun = main-Fits
    reached-Fits _ (stepped {g = g} {g' = g'} before step) =
        step-Fits g g' step (reached-Fits g before)

    -- How the program can end.
    abbrev pub Exits : ℕ → Thread S → Type 0
    Exits code thread =
        ((code ≡ 1) × (((initialize ubus new_server bus).0 ≡ false) ⊎ (p.ready ≡ false)))
        ⊎ ((d' : Daemon S) × (thread ≡ ended d') × Stops p code d')

    Result-Exits : (code : ℕ) (thread : Thread S) → Result code thread → Exits code thread
    Result-Exits code thread (inl (failed, code_is, _)) = inl (code_is, inl failed)
    Result-Exits code thread (inr (_, d', over, (inputs, ran))) =
        elim (run-Stops p inputs d d' code ran) [
          | inl (unready, code_is, _) ↦ inl (code_is, inr unready)
          | inr (_, stops) ↦ inr (d', over, stops)
        ]

    -- When `main` returns, in whatever order the two threads have moved, no connection to the bus
    -- is open that was not open before and no pointer to the server is left, and either it returns
    -- 1, and the bus refused the server or the transformer was not ready, or it returns 0, the
    -- daemon's thread has ended, a stop was asked for, and no server for Connection Requests
    -- listens.
    pub main-Exits :
        (g : Program S U) (code : ℕ)
        → Reached ubus p d bus g
        → g.phase ≡ exited code
        → (open_in g.bus ≡ open_in bus) × (g.server.instance ≡ false) × Exits code g.thread
    main-Exits g code reached e =
        let ((same, gone), result) = rw e at (reached-Fits g reached) in
        (same, gone, Result-Exits code g.thread result)
