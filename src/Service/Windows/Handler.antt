-- ===== src/Service/Windows/Handler.antt =====
-- `Execute`: the handler of the Windows service as a machine over what its two `select`s receive. The
-- deferred `cancel` makes every return cancel the agent.
pub mod Protocol
use lan_nickname.Base.{ℕ, Bool, true, false, List, [], ◌∷◌, Option, none, some, Bytes}

pub data Status : Type 0 where
  start_pending is_running stop_pending : Status

pub data Log : Type 0 where
  agent_failed shutdown_failed : Bytes → Log
  shutdown_timeout : Log
  unexpected : ℕ → Log

-- The commands of the service manager.
pub data Command : Type 0 where
  interrogate stop shutdown : Command
  other : ℕ → Command

-- What is received: the end of the agent, with its error if there is one, a request, or the end of the
-- 20 seconds behind a stop request.
pub data Event : Type 0 where
  ended : Option Bytes → Event
  request : Command → Event
  timeout : Event

-- `finished` has the values that `Execute` returns.
pub data Phase : Type 0 where
  running stopping : Phase
  finished : Bool → ℕ → Phase

-- The statuses and the log have the latest first.
pub record Handler : Type 0 where
  pub phase : Phase
  pub sent : List Status
  pub logged : List Log
  pub cancelled : Bool

abbrev pub initial : Handler
initial = record {
  phase = running;
  sent = is_running ∷ start_pending ∷ [];
  logged = [];
  cancelled = false;
}

abbrev pub return : Bool → ℕ → Handler → Handler
return failed code h = record h { phase = finished failed code; cancelled = true }

abbrev pub return_error : Log → Handler → Handler
return_error l h = return true 1 (record h { logged = l ∷ h.logged })

unfoldable pub requested : Command → Handler → Handler
requested interrogate h = record h { sent = is_running ∷ h.sent }
requested stop h = record h { phase = stopping; sent = stop_pending ∷ h.sent; cancelled = true }
requested shutdown h = record h { phase = stopping; sent = stop_pending ∷ h.sent; cancelled = true }
requested (other n) h = record h { logged = unexpected n ∷ h.logged }

-- A phase takes only what its `select` waits for; anything else stays where it is.
unfoldable pub handle : Phase → Event → Handler → Handler
unfolding requested
handle running (ended none) h = return false 0 h
handle running (ended (some e)) h = return_error (agent_failed e) h
handle running (request c) h = requested c h
handle running timeout h = h
handle stopping (ended none) h = return false 0 h
handle stopping (ended (some e)) h = return_error (shutdown_failed e) h
handle stopping (request c) h = h
handle stopping timeout h = return_error shutdown_timeout h
handle (finished failed code) e h = h

unfoldable pub step : Handler → Event → Handler
unfolding handle
step h e = handle h.phase e h

unfoldable pub run : Handler → List Event → Handler
unfolding step
run h [] = h
run h (e ∷ es) = run (step h e) es
