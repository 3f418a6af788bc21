-- ===== src/Examples/Buses.antt =====
-- Sockets, the bus and libcurl at known inputs: a system that gives the numbers 0, 1, 2 and so on
-- to what it opens, the last first.
use cpe_acs_connector_tr.Base.{
  ℕ, suc, true, false, List, [], ◌∷◌, Option, none, some, ◌≡◌, ◌↔◌, refl, ap, Bytes, codes, length,
  stream,
}
use cpe_acs_connector_tr.Http.{HttpConfig, ok}
use cpe_acs_connector_tr.HttpClient.Post.{Easy, post, post_request}
use cpe_acs_connector_tr.HttpClient.Answered.{Succeeds, post-ok_iff}
use cpe_acs_connector_tr.ConnectionRequest.Listener.{Sockets, Listener, open_on, start, stop}
use cpe_acs_connector_tr.ConnectionRequest.Lifecycle.{Descriptors, Started, start-Started}
use cpe_acs_connector_tr.ConnectionRequest.Restart.{restart}
use cpe_acs_connector_tr.ConnectionRequest.Restart.Refined.{Holds, restart-Holds}
use cpe_acs_connector_tr.Daemon.{restart_connection_server}
use mathlib.Core.Option
use cpe_acs_connector_tr.Examples.{platform, daemon}

-- What is open, and the address and port of the last socket that was bound.
abbrev pub State : Type 0
State = List ℕ × Option (Bytes × ℕ)

abbrev pub behind_first : List ℕ → List ℕ
behind_first [] = []
behind_first (d ∷ ds) = ds

abbrev pub opened : State → Option ℕ × State
opened s = (some (length s.0), (length s.0 ∷ s.0, s.1))

pub opened_opens : (s : State) (d : ℕ) → (opened s).0 ≡ some d → (opened s).1.0 ≡ d ∷ s.0
opened_opens s d e = cc

pub opened_fails : (s : State) → (opened s).0 ≡ none → (opened s).1.0 ≡ s.0
opened_fails s e = cc

abbrev sockets : Sockets State
sockets = record {
  socket = opened;
  reuse_address = λ s d. s;
  is_address = λ address. true;
  bind = λ s d address port. (true, (s.0, some (address, port)));
  listen = λ s d. (true, s);
  shutdown = λ s d. s;
  close = λ s d. (behind_first s.0, s.1);
}

abbrev descriptors : Descriptors State sockets
descriptors = record {
  open_in = λ s. s.0;
  bound_to = λ s d. s.1;
  socket_opens = opened_opens;
  socket_fails = opened_fails;
  reuse_keeps = λ s d. refl;
  bind_keeps = λ s d address port. refl;
  bind_binds = λ s d address port e. refl;
  listen_keeps = λ s d. (refl, refl);
  shutdown_keeps = λ s d. refl;
  close_closes = λ s d rest e. ap behind_first e;
}

abbrev stopped : Listener
stopped = record {
  config = daemon.config.connection_request;
  running = false;
  listen_fd = none;
  thread = false;
}

abbrev pub nothing_open : State
nothing_open = ([], none)

start-Started_example :
    Started sockets descriptors stopped nothing_open (start sockets stopped nothing_open)
start-Started_example = start-Started sockets descriptors stopped nothing_open (refl, refl, refl)

abbrev listening : Listener
listening = record stopped { running = true; listen_fd = some 0; thread = true }

abbrev bound : State
bound = (0 ∷ [], some (codes "0.0.0.0", 7547))

-- The daemon's server is replaced by one with the same configuration.
restart-Holds_example :
    let config = daemon.config.connection_request in
    let (server', s') =
      restart sockets daemon.config.connection_request_enable config (some listening) bound in
    Holds sockets descriptors [] server' s'
    × ((restart_connection_server platform daemon).connection_server
        ≡ Option.map (λ (l : Listener). l.config) server')
unfolding start open_on codes stop
restart-Holds_example =
    restart-Holds sockets descriptors platform daemon [] (some listening) bound
      (0, refl, refl, refl, refl) refl

-- The ACS answers in two pieces.
abbrev answering : Easy ℕ
answering = record {
  has_handle = true;
  perform = λ s request. (
    record {
      failure = none;
      error_buffer = [];
      pieces = codes "ab" ∷ codes "c" ∷ [];
      status = 200;
    },
    suc s,
  );
}

abbrev acs : HttpConfig
acs = record {
  url = codes "http://acs";
  username = [];
  password = [];
  ca_file = [];
  insecure_tls = false;
  timeout_seconds = 30;
}

post-ok_iff_example :
    let t = (answering.perform 0 (post_request acs [])).0 in
    let r = (post answering acs 0 []).0 in
    ((ok r ≡ true) ↔ ((answering.has_handle ≡ true) × Succeeds t))
    × (ok r ≡ true → r.body ≡ stream t.pieces)
post-ok_iff_example = post-ok_iff answering acs 0 [] tt
