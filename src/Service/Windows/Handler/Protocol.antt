-- ===== src/Service/Windows/Handler/Protocol.antt =====
-- What the service manager can rely on.
use lan_nickname.Base.{
  ℕ, ◌+◌, ◌≤◌, true, false, List, [], ◌∷◌, ◌++◌, ◌≡◌, refl, sym, subst, none, some, arith, ◌⊎◌, inl,
  inr,
}
use lan_nickname.Service.Windows.Handler.{
  Status, start_pending, is_running, stop_pending, Log, agent_failed, shutdown_failed,
  shutdown_timeout, unexpected, interrogate, stop, shutdown, other, Event, ended, request, timeout,
  Phase, running, stopping, finished, Handler, initial, handle, step, run,
}

-- How many stop-pending statuses were sent, and how many errors logged.
unfoldable pub stops : List Status → ℕ
stops [] = 0
stops (start_pending ∷ s) = stops s
stops (is_running ∷ s) = stops s
stops (stop_pending ∷ s) = 1 + stops s

unfoldable pub errors : List Log → ℕ
errors [] = 0
errors (agent_failed e ∷ l) = 1 + errors l
errors (shutdown_failed e ∷ l) = 1 + errors l
errors (shutdown_timeout ∷ l) = 1 + errors l
errors (unexpected n ∷ l) = errors l

-- What holds in each phase.
abbrev pub Holds : Phase → Handler → Type 0
Holds running h = (h.cancelled ≡ false) × (stops h.sent ≡ 0) × (errors h.logged ≡ 0)
Holds stopping h = (h.cancelled ≡ true) × (stops h.sent ≡ 1) × (errors h.logged ≡ 0)
Holds (finished failed code) h =
    (h.cancelled ≡ true)
    × (stops h.sent ≤ 1)
    × (errors h.logged ≡ code)
    × ((failed ≡ false) × (code ≡ 0) ⊎ (failed ≡ true) × (code ≡ 1))

handle-Holds :
    (p : Phase) (e : Event) (h : Handler)
    → h.phase ≡ p
    → Holds p h
    → Holds (handle p e h).phase (handle p e h)
unfolding handle stops errors
handle-Holds running (ended none) h is (c, s, l) = (refl, omega (arith, s), l, inl (refl, refl))
handle-Holds running (ended (some e)) h is (c, s, l) =
    (refl, omega (arith, s), omega (arith, l), inr (refl, refl))
handle-Holds running (request interrogate) h is k =
    subst (λ p. Holds p (record h { sent = is_running ∷ h.sent })) (sym is) k
handle-Holds running (request stop) h is (c, s, l) = (refl, omega (arith, s), l)
handle-Holds running (request shutdown) h is (c, s, l) = (refl, omega (arith, s), l)
handle-Holds running (request (other n)) h is k =
    subst (λ p. Holds p (record h { logged = unexpected n ∷ h.logged })) (sym is) k
handle-Holds running timeout h is k = subst (λ p. Holds p h) (sym is) k
handle-Holds stopping (ended none) h is (c, s, l) = (refl, omega (arith, s), l, inl (refl, refl))
handle-Holds stopping (ended (some e)) h is (c, s, l) =
    (refl, omega (arith, s), omega (arith, l), inr (refl, refl))
handle-Holds stopping (request c) h is k = subst (λ p. Holds p h) (sym is) k
handle-Holds stopping timeout h is (c, s, l) =
    (refl, omega (arith, s), omega (arith, l), inr (refl, refl))
handle-Holds (finished failed code) e h is k = subst (λ p. Holds p h) (sym is) k

keep-Holds : (h : Handler) (es : List Event) → Holds h.phase h → Holds (run h es).phase (run h es)
unfolding run step
keep-Holds h [] k = k
keep-Holds h (e ∷ es) k = keep-Holds (handle h.phase e h) es (handle-Holds h.phase e h refl k)

-- Whatever is received: while the handler runs, the agent is not cancelled and no stop was announced; while
-- it stops, the agent is cancelled and exactly one stop was announced; and when it has returned, the agent
-- is cancelled, at most one stop was announced, and it returned success with no error logged, or failure and
-- the code 1 with exactly one.
pub run-Holds : (es : List Event) → Holds (run initial es).phase (run initial es)
unfolding stops errors
run-Holds es = keep-Holds initial es (refl, refl, refl)

-- Neither running nor to run again.
abbrev IsLeaving : Phase → Type 0
IsLeaving running = ⊥
IsLeaving stopping = Unit
IsLeaving (finished failed code) = Unit

abbrev pub IsFinal : Event → Type 0
IsFinal (ended o) = Unit
IsFinal (request c) = ⊥
IsFinal timeout = Unit

abbrev pub HasReturned : Phase → Type 0
HasReturned running = ⊥
HasReturned stopping = ⊥
HasReturned (finished failed code) = Unit

stop-IsLeaving :
    (p : Phase) (h : Handler) → h.phase ≡ p → IsLeaving (handle p (request stop) h).phase
unfolding handle
stop-IsLeaving running h is = tt
stop-IsLeaving stopping h is = rw is tt
stop-IsLeaving (finished failed code) h is = rw is tt

handle-IsLeaving :
    (p : Phase) (e : Event) (h : Handler)
    → h.phase ≡ p
    → IsLeaving p
    → IsLeaving (handle p e h).phase
unfolding handle
handle-IsLeaving running e h is k = absurd k
handle-IsLeaving stopping (ended none) h is k = tt
handle-IsLeaving stopping (ended (some e)) h is k = tt
handle-IsLeaving stopping (request c) h is k = rw is tt
handle-IsLeaving stopping timeout h is k = tt
handle-IsLeaving (finished failed code) e h is k = rw is tt

handle-HasReturned :
    (p : Phase) (e : Event) (h : Handler)
    → h.phase ≡ p
    → IsLeaving p
    → IsFinal e
    → HasReturned (handle p e h).phase
unfolding handle
handle-HasReturned running e h is k f = absurd k
handle-HasReturned stopping (ended none) h is k f = tt
handle-HasReturned stopping (ended (some e)) h is k f = tt
handle-HasReturned stopping (request c) h is k f = absurd f
handle-HasReturned stopping timeout h is k f = tt
handle-HasReturned (finished failed code) e h is k f = rw is tt

leaving-HasReturned :
    (h : Handler) (es : List Event) (e : Event)
    → IsLeaving h.phase
    → IsFinal e
    → HasReturned (run h (es ++ e ∷ [])).phase
unfolding run step
leaving-HasReturned h [] e k f = handle-HasReturned h.phase e h refl k f
leaving-HasReturned h (d ∷ es) e k f =
    leaving-HasReturned (handle h.phase d h) es e (handle-IsLeaving h.phase d h refl k) f

-- Behind a stop request, in any state and with any events between, the handler has returned once the agent
-- ends or the 20 seconds are over.
pub stop-HasReturned :
    (h : Handler) (es : List Event) (e : Event)
    → IsFinal e
    → HasReturned (run h (request stop ∷ (es ++ e ∷ []))).phase
unfolding run step
stop-HasReturned h es e f =
    leaving-HasReturned (handle h.phase (request stop) h) es e (stop-IsLeaving h.phase h refl) f
