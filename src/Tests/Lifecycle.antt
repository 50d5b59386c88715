-- ===== src/Tests/Lifecycle.antt =====
-- The stop of a worker and the start of the process at concrete values.
use jungle_gaming_challenge.Base.{
  ◌≡◌, inr, refl, ap, true, false, List, [], ◌∷◌, Option, none, some, if◌then◌else◌,
}
use jungle_gaming_challenge.Transport.Lifecycle.{
  Worker, Moves, new_worker, looping, returned, stopped, waiting, at_rest, move, entered, turned,
  left, closed, waited,
}
use jungle_gaming_challenge.Transport.Lifecycle.Quiet.{stopped-Quiet}
use jungle_gaming_challenge.Boot.{BootError, Platform, Process, Hook, applied, no_change}
use jungle_gaming_challenge.Boot.Up.{Fx}

-- A worker that has begun: one turn, the channel is closed, the loop returns, and `Stop` answers nil.
abbrev begun : Worker
begun = record new_worker { phase = looping; wait_group = 1 }

abbrev ended : Worker
ended = record { phase = returned; wait_group = 0; is_closed = true; stop = stopped; turns = 1 }

begun-Moves : Moves false new_worker begun
begun-Moves = move at_rest (entered new_worker refl)

ended-Moves : Moves false begun ended
ended-Moves =
    move
      (move
        (move (move at_rest (turned begun refl refl))
          (closed (record begun { turns = 1 }) refl refl))
        (left (record begun { turns = 1; is_closed = true; stop = waiting }) refl refl))
      (waited (record ended { stop = waiting }) refl refl)

stopped-Quiet_example : ended.turns ≡ ended.turns
stopped-Quiet_example =
    stopped-Quiet false begun ended ended begun-Moves refl (inr (λ e. cc e)) ended-Moves refl
      at_rest

-- fx, with hooks that run one after the other, and that stop in the other direction
abbrev continue :
    (Process → Option BootError × Process) → Option BootError × Process → Option BootError × Process
continue rest (some e, u) = (some e, u)
continue rest (none, u) = rest u

abbrev start_hooks : List Hook → Platform → Process → Option BootError × Process
start_hooks [] platform p = (none, p)
start_hooks (h ∷ hs) platform p = continue (start_hooks hs platform) (h.on_start platform p)

abbrev stop_hooks : List Hook → Platform → Process → Process
stop_hooks [] platform p = p
stop_hooks (h ∷ hs) platform p = (h.on_stop platform (stop_hooks hs platform p)).1

abbrev fx : Fx
fx = record {
  start = start_hooks;
  stop = stop_hooks;
  start_none = λ platform p. refl;
  start_next = λ h hs platform p u e. ap (continue (start_hooks hs platform)) e;
  start_failed = λ h hs platform p u e answer. ap (continue (start_hooks hs platform)) answer;
  stop_none = λ platform p. refl;
  stop_last_first = λ h hs platform p. refl;
}

-- a first start: the migrations are applied
abbrev platform : Platform
platform = record {
  parse_config = λ url. true;
  new_pool = true;
  ping = true;
  new_migrate = λ url. true;
  up = λ current. if current then no_change else applied;
  load_aws = λ region. true;
  shutdown = true;
  drains = λ service. true;
}

abbrev nothing : Process
nothing = record {
  pool_is_open = false;
  is_migrated = false;
  server_is_launched = false;
  is_shutting_down = false;
  launched = [];
  closed = [];
}
