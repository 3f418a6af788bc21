-- ===== src/Main/Ubus.antt =====
-- The program with ubus (src/main.cpp), a step relation of its two threads: `main` and the one
-- that runs the daemon. What other threads ask of the daemon, `main` included, are the inputs of
-- its run. `uloop_run` may return at any time, since a signal ends it as well as `uloop_end`.
-- Logging is left out.
pub mod Joined
use cpe_acs_connector_tr.Base.{ℕ, Bool, true, false, List, ◌≡◌, some, if◌then◌else◌}
use cpe_acs_connector_tr.Platform.{Platform}
use cpe_acs_connector_tr.Daemon.{Daemon}
use cpe_acs_connector_tr.Daemon.Loop.{Inputs}
use cpe_acs_connector_tr.Daemon.Run.{returned, run}
use cpe_acs_connector_tr.UbusServer.{Ubus, UbusServer, new_server, initialize, destroy}

-- Where `main` stands: in `ubus.run()`, in `daemonThread.join()`, or it has returned a number.
pub data Phase : Type 0 where
  looping joining : Phase
  exited : ℕ → Phase

-- The daemon's thread: there is none, it is in `daemon.run()`, about to call `ubus.stop()`, or it
-- has ended.
pub data Thread (S : Type 0) : Type 0 where
  absent : Thread S
  running stopping ended : Daemon S → Thread S

-- `result` is the variable that the two threads share, and `end_asked` tells whether `uloop_end`
-- was called.
pub record Program (S U : Type 0) : Type 0 where
  pub phase : Phase
  pub thread : Thread S
  pub result : ℕ
  pub end_asked : Bool
  pub stop_asked : Bool
  pub server : UbusServer
  pub bus : U

module _ {S U : Type 0} (ubus : Ubus U) where
  -- `main` returns: the destructor of the server runs.
  unfoldable pub leave : ℕ → Program S U → Program S U
  leave code g =
      let (server, bus) = destroy ubus g.server g.bus in
      record g { phase = exited code; server = server; bus = bus }

  -- Behind `initialize`: the thread is started, or 1 is returned.
  unfoldable pub launched : Daemon S → Bool × UbusServer × U → Program S U
  unfolding leave
  launched d (initialized, server, bus) =
      let g : Program S U = record {
        phase = looping;
        thread = running d;
        result = 0;
        end_asked = false;
        stop_asked = false;
        server = server;
        bus = bus;
      } in
      if initialized then g else leave 1 (record g { thread = absent })

  unfoldable pub main : Daemon S → U → Program S U
  unfolding launched
  main d bus = launched d (initialize ubus new_server bus)

  pub data Step (p : Platform S) (g : Program S U) : Program S U → Type 0 where
    daemon_returns :
        (d d' : Daemon S) (inputs : List Inputs) (code : ℕ)
        → g.thread ≡ running d
        → run p inputs d ≡ some (returned code d')
        → Step p g (record g { thread = stopping d'; result = code })
    daemon_stops_loop :
        (d : Daemon S)
        → g.thread ≡ stopping d
        → Step p g (record g { thread = ended d; end_asked = true })
    loop_returns : g.phase ≡ looping → Step p g (record g { phase = joining; stop_asked = true })
    joined : (d : Daemon S) → g.phase ≡ joining → g.thread ≡ ended d → Step p g (leave g.result g)

  -- What the program can become.
  pub data Reached (p : Platform S) (d : Daemon S) (bus : U) : Program S U → Type 0 where
    begun : Reached p d bus (main d bus)
    stepped : {g g' : Program S U} → Reached p d bus g → Step p g g' → Reached p d bus g'
