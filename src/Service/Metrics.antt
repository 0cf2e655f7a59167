-- ===== src/Service/Metrics.antt =====
-- `RollingCounter` and the counters of `MetricsRegistry` of agentkit/metrics.py, and the part of the
-- middleware of agentkit/server.py that drives them. Times are those of the monotonic clock, in any
-- unit that the window is given in too.
pub mod Window
pub mod Rate
use agent_bakery.Prelude.{
  ℕ, ◌+◌, ◌<◌, String, Bool, true, false, not, ◌&&◌, ◌||◌, List, [], ◌∷◌, ◌++◌, ltb, leb, ◌==◌,
  str_eq, length, replicate, if◌then◌else◌,
}

-- The events with the oldest first, as in the deque.
pub record RollingCounter : Type 0 where
  pub window : ℕ
  pub events : List ℕ

abbrev pub new_counter : ℕ → RollingCounter
new_counter window = record { window = window; events = [] }

-- The `while` loop: pops the head while it is older than the cutoff, `now - window`.
unfoldable pub evict : ℕ → ℕ → List ℕ → List ℕ
evict window now [] = []
evict window now (t ∷ events) =
    let rest = evict window now events in if ltb (t + window) now then rest else t ∷ events

-- A negative count, which adds no event, is 0 here.
unfoldable pub incr : ℕ → ℕ → RollingCounter → RollingCounter
unfolding evict
incr n now c = record c { events = evict c.window now c.events ++ replicate n now }

unfoldable pub count : ℕ → RollingCounter → ℕ × RollingCounter
unfolding evict
count now c =
    let events = evict c.window now c.events in (length events, record c { events = events })

pub record MetricsRegistry : Type 0 where
  pub requests : RollingCounter
  pub errors : RollingCounter

abbrev pub new_registry : ℕ → MetricsRegistry
new_registry window = record { requests = new_counter window; errors = new_counter window }

unfoldable pub record_request : ℕ → ℕ → MetricsRegistry → MetricsRegistry
unfolding incr
record_request n now r = record r { requests = incr n now r.requests }

unfoldable pub record_error : ℕ → ℕ → MetricsRegistry → MetricsRegistry
unfolding incr
record_error n now r = record r { errors = incr n now r.errors }

-- The quotient as a numerator and a denominator, which is never 0. The clock is read twice.
unfoldable pub error_rate_5m : ℕ → ℕ → MetricsRegistry → (ℕ × ℕ) × MetricsRegistry
unfolding count
error_rate_5m now later r =
    let (reqs, requests) = count now r.requests in
    if reqs == 0
    then ((0, 1), record r { requests = requests })
    else (let (errs, errors) = count later r.errors in
        ((errs, reqs), record { requests = requests; errors = errors }))

abbrev pub is_uncounted : String → Bool
is_uncounted path = str_eq path "/healthz" || (str_eq path "/readyz" || str_eq path "/metrics.json")

-- What the rest of the application makes of a request: a response with a status, or an exception.
pub data Handled : Type 0 where
  responded : ℕ → Handled
  unhandled : Handled

abbrev pub is_error : Handled → Bool
is_error (responded status) = leb 500 status
is_error unhandled = true

-- `dispatch`, when the request comes in.
unfoldable pub dispatch_begin : String → ℕ → MetricsRegistry → MetricsRegistry
unfolding record_request
dispatch_begin path now r = if is_uncounted path then r else record_request 1 now r

-- `dispatch`, when the request has been handled.
unfoldable pub dispatch_end : String → Handled → ℕ → MetricsRegistry → MetricsRegistry
unfolding record_error
dispatch_end path outcome now r =
    if not (is_uncounted path) && is_error outcome then record_error 1 now r else r
