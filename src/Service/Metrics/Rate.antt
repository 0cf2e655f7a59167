-- ===== src/Service/Metrics/Rate.antt =====
-- The error rate that agentkit/metrics.py reports of the requests that the middleware of
-- agentkit/server.py has seen.
use agent_bakery.Prelude.{
  ℕ, ◌≤◌, String, ◌≡◌, refl, Bool, true, false, not, ◌&&◌, List, [], ◌∷◌, ◌==◌, Bool-cases, inl,
  inr, arith, if◌then◌else◌,
}
use agent_bakery.Service.Metrics.{
  MetricsRegistry, new_registry, error_rate_5m, is_uncounted, Handled, is_error, dispatch_begin,
  dispatch_end,
}
use agent_bakery.Service.Metrics.Window.{Use, events, recent, IsMonotonic, count-recent}
use agent_bakery.Service.Metrics.Window

-- Requests overlap: each comes in at one time and ends at another.
pub data Event : Type 0 where
  came : String → ℕ → Event
  ended : String → Handled → ℕ → Event

-- The latest first.
unfoldable pub after : ℕ → List Event → MetricsRegistry
after window [] = new_registry window
after window (came path now ∷ es) = dispatch_begin path now (after window es)
after window (ended path outcome now ∷ es) = dispatch_end path outcome now (after window es)

abbrev one_if : Bool → ℕ → List Use → List Use
one_if c now us = if c then events 1 now ∷ us else us

-- The requests that count, and the failures that count.
unfoldable pub requests_of : List Event → List Use
requests_of [] = []
requests_of (came path now ∷ es) = one_if (not (is_uncounted path)) now (requests_of es)
requests_of (ended path outcome now ∷ es) = requests_of es

unfoldable pub errors_of : List Event → List Use
errors_of [] = []
errors_of (came path now ∷ es) = errors_of es
errors_of (ended path outcome now ∷ es) =
    one_if (not (is_uncounted path) && is_error outcome) now (errors_of es)

abbrev pub time : Event → ℕ
time (came path now) = now
time (ended path outcome now) = now

-- The clock does not go back, up to a time.
abbrev pub IsInOrder : List Event → ℕ → Type 0
IsInOrder [] now = Unit
IsInOrder (e ∷ es) now = (time e ≤ now) × IsInOrder es (time e)

IsMonotonic-later : (us : List Use) (a b : ℕ) → a ≤ b → IsMonotonic us a → IsMonotonic us b
IsMonotonic-later [] a b h m = tt
IsMonotonic-later (u ∷ us) a b h m = (omega (arith, m.0), m.1)

one_if-IsMonotonic :
    (c : Bool) (t now : ℕ) (us : List Use)
    → t ≤ now
    → IsMonotonic us t
    → IsMonotonic (one_if c t us) now
one_if-IsMonotonic true t now us h m = (h, m)
one_if-IsMonotonic false t now us h m = IsMonotonic-later us t now h m

requests_of-IsMonotonic :
    (es : List Event) (now : ℕ) → IsInOrder es now → IsMonotonic (requests_of es) now
unfolding requests_of
requests_of-IsMonotonic [] now h = tt
requests_of-IsMonotonic (came path t ∷ es) now h =
    one_if-IsMonotonic (not (is_uncounted path)) t now (requests_of es) h.0
      (requests_of-IsMonotonic es t h.1)
requests_of-IsMonotonic (ended path outcome t ∷ es) now h =
    IsMonotonic-later (requests_of es) t now h.0 (requests_of-IsMonotonic es t h.1)

errors_of-IsMonotonic :
    (es : List Event) (now : ℕ) → IsInOrder es now → IsMonotonic (errors_of es) now
unfolding errors_of
errors_of-IsMonotonic [] now h = tt
errors_of-IsMonotonic (came path t ∷ es) now h =
    IsMonotonic-later (errors_of es) t now h.0 (errors_of-IsMonotonic es t h.1)
errors_of-IsMonotonic (ended path outcome t ∷ es) now h =
    one_if-IsMonotonic (not (is_uncounted path) && is_error outcome) t now (errors_of es) h.0
      (errors_of-IsMonotonic es t h.1)

after-counters :
    (w : ℕ) (es : List Event)
    → ((after w es).requests ≡ Window.after w (requests_of es))
      × ((after w es).errors ≡ Window.after w (errors_of es))
unfolding after requests_of errors_of dispatch_begin dispatch_end Window.after
after-counters w [] = (refl, refl)
after-counters w (came path t ∷ es) =
    let (r, e) = after-counters w es in
    elim (Bool-cases (is_uncounted path)) [ inl c ↦ rw c (r, e) | inr c ↦ rw c (rw r refl, e) ]
after-counters w (ended path outcome t ∷ es) =
    let (r, e) = after-counters w es in
    elim (Bool-cases (not (is_uncounted path) && is_error outcome)) [
      | inl c ↦ rw c (r, rw e refl)
      | inr c ↦ rw c (r, e)
    ]

-- However requests overlap, the rate that is reported is the number of failures within the window (an
-- exception, or a status from 500 up) over the number of requests that came in within the window, the
-- three operational paths left out of both; without such a request it is 0, failures or not.
pub error_rate-recent :
    (w now later : ℕ) (es : List Event)
    → IsInOrder es now
    → now ≤ later
    → let requests = recent w now (requests_of es) in
      (error_rate_5m now later (after w es)).0
      ≡ (if requests == 0 then (0, 1) else (recent w later (errors_of es), requests))
unfolding error_rate_5m
error_rate-recent w now later es h k =
    let (r, e) = after-counters w es in
    let reqs = count-recent w now (requests_of es) (requests_of-IsMonotonic es now h) in
    let errs =
      count-recent w later (errors_of es)
        (IsMonotonic-later (errors_of es) now later k (errors_of-IsMonotonic es now h)) in
    rw (r, e, reqs, errs) (ground arith)
