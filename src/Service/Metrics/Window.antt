-- ===== src/Service/Metrics/Window.antt =====
-- What the rolling counter of agentkit/metrics.py counts, against the whole history of its events.
use agent_bakery.Prelude.{
  Bool-cases, inl, inr, ℕ, zero, suc, ◌+◌, ◌≤◌, ◌≡◌, refl, List, [], ◌∷◌, ◌++◌, ltb, replicate,
  length, ◌∙◌, arith, if◌then◌else◌,
}
use agent_bakery.Service.Metrics.{RollingCounter, new_counter, evict, incr, count}

-- What happened to the counter: so many events at a time, or a reading at a time.
pub data Use : Type 0 where
  events : ℕ → ℕ → Use
  reading : ℕ → Use

abbrev pub at : Use → ℕ
at (events n now) = now
at (reading now) = now

-- The latest first.
unfoldable pub after : ℕ → List Use → RollingCounter
after window [] = new_counter window
after window (events n now ∷ us) = incr n now (after window us)
after window (reading now ∷ us) = (count now (after window us)).1

-- The clock does not go back, up to a time.
abbrev pub IsMonotonic : List Use → ℕ → Type 0
IsMonotonic [] now = Unit
IsMonotonic (u ∷ us) now = (at u ≤ now) × IsMonotonic us (at u)

-- The specification: all the events of the history that are not older than the window.
unfoldable pub recent : ℕ → ℕ → List Use → ℕ
recent window now [] = 0
recent window now (events n t ∷ us) = (if ltb (t + window) now then 0 else n) + recent window now us
recent window now (reading t ∷ us) = recent window now us

-- How many events of a deque are not older than the window.
fresh : ℕ → ℕ → List ℕ → ℕ
fresh window now [] = 0
fresh window now (t ∷ ts) = (if ltb (t + window) now then 0 else 1) + fresh window now ts

fresh-append :
    (w now : ℕ) (xs ys : List ℕ) → fresh w now (xs ++ ys) ≡ fresh w now xs + fresh w now ys
unfolding fresh
fresh-append w now [] ys = omega arith
fresh-append w now (x ∷ xs) ys = omega (arith, fresh-append w now xs ys)

fresh-replicate : (w now n t : ℕ) → fresh w now (replicate n t) ≡ (if ltb (t + w) now then 0 else n)
unfolding fresh
fresh-replicate w now zero t = ground arith
fresh-replicate w now (suc n) t = ground (arith, fresh-replicate w now n t)

-- Evicting at an earlier time loses nothing that a later reading counts.
fresh-evict : (w t now : ℕ) (es : List ℕ) → t ≤ now → fresh w now (evict w t es) ≡ fresh w now es
unfolding fresh evict
fresh-evict w t now [] h = refl
fresh-evict w t now (e ∷ es) h = ground (arith, fresh-evict w t now es h)

-- Each event is at or after the one before it in the deque, from a time on and up to another.
Ascends : ℕ → List ℕ → ℕ → Type 0
Ascends a [] b = a ≤ b
Ascends a (t ∷ ts) b = (a ≤ t) × Ascends t ts b

Ascends-lower : (a a' b : ℕ) (es : List ℕ) → a' ≤ a → Ascends a es b → Ascends a' es b
unfolding Ascends
Ascends-lower a a' b [] h k = omega (arith, k)
Ascends-lower a a' b (e ∷ es) h k = (omega (arith, k.0), k.1)

Ascends-evict : (w t a b : ℕ) (es : List ℕ) → Ascends a es b → Ascends a (evict w t es) b
unfolding evict Ascends
Ascends-evict w t a b [] k = k
Ascends-evict w t a b (e ∷ es) k =
    ground (arith, Ascends-lower e a b (evict w t es) k.0 (Ascends-evict w t e b es k.1))

Ascends-replicate : (a n now : ℕ) → a ≤ now → Ascends a (replicate n now) now
unfolding Ascends
Ascends-replicate a zero now h = h
Ascends-replicate a (suc n) now h = (h, Ascends-replicate now n now (omega arith))

Ascends-append :
    (a b n now : ℕ) (es : List ℕ) → b ≤ now → Ascends a es b → Ascends a (es ++ replicate n now) now
unfolding Ascends
Ascends-append a b n now [] h k = Ascends-replicate a n now (omega (arith, k))
Ascends-append a b n now (e ∷ es) h k = (k.0, Ascends-append e b n now es h k.1)

Ascends-upper : (a b b' : ℕ) (es : List ℕ) → b ≤ b' → Ascends a es b → Ascends a es b'
unfolding Ascends
Ascends-upper a b b' [] h k = omega (arith, k)
Ascends-upper a b b' (e ∷ es) h k = (k.0, Ascends-upper e b b' es h k.1)

all_fresh :
    (w now a b : ℕ) (es : List ℕ) → now ≤ a + w → Ascends a es b → fresh w now es ≡ length es
unfolding fresh Ascends
all_fresh w now a b [] h k = refl
all_fresh w now a b (e ∷ es) h k =
    ground (arith, k, all_fresh w now e b es (omega (arith, k.0)) k.1)

length-evict :
    (w now a b : ℕ) (es : List ℕ) → Ascends a es b → length (evict w now es) ≡ fresh w now es
unfolding evict fresh Ascends
length-evict w now a b [] k = refl
length-evict w now a b (e ∷ es) k = elim (Bool-cases (ltb (e + w) now)) [
  | inl old ↦ rw old (omega (arith, length-evict w now e b es k.1))
  | inr young ↦ rw young (omega (arith, all_fresh w now e b es (ground arith) k.1))
]

same_window : (w : ℕ) (us : List Use) → (after w us).window ≡ w
unfolding after incr count
same_window w [] = refl
same_window w (events n t ∷ us) = same_window w us
same_window w (reading t ∷ us) = same_window w us

after-Ascends : (w now : ℕ) (us : List Use) → IsMonotonic us now → Ascends 0 (after w us).events now
unfolding after incr count Ascends
after-Ascends w now [] m = omega arith
after-Ascends w now (events n t ∷ us) m =
    Ascends-upper 0 t now _ m.0
      (Ascends-append 0 t n t _ (omega arith) (Ascends-evict _ t 0 t _ (after-Ascends w t us m.1)))
after-Ascends w now (reading t ∷ us) m =
    Ascends-upper 0 t now _ m.0 (Ascends-evict _ t 0 t _ (after-Ascends w t us m.1))

fresh-after :
    (w t now : ℕ) (us : List Use)
    → IsMonotonic us t
    → t ≤ now
    → fresh w now (after w us).events ≡ recent w now us
unfolding after incr count recent fresh
fresh-after w t now [] m h = refl
fresh-after w t now (events n at_n ∷ us) m h = rw (same_window w us) (
    omega (
      arith,
      fresh-append w now (evict w at_n (after w us).events) (replicate n at_n),
      fresh-evict w at_n now (after w us).events (omega (arith, m.0)),
      fresh-replicate w now n at_n,
      fresh-after w at_n now us m.1 (omega (arith, m.0)),
    ))
fresh-after w t now (reading at_n ∷ us) m h = rw (same_window w us) (
    fresh-evict w at_n now (after w us).events (omega (arith, m.0))
    ∙ fresh-after w at_n now us m.1 (omega (arith, m.0)))

-- With a clock that does not go back, a reading counts exactly the events of the whole history that
-- are not older than the window, however many readings and evictions came before.
pub count-recent :
    (window now : ℕ) (us : List Use)
    → IsMonotonic us now
    → (count now (after window us)).0 ≡ recent window now us
unfolding count
count-recent window now us m = rw (same_window window us) (
    length-evict window now 0 now (after window us).events (after-Ascends window now us m)
    ∙ fresh-after window now now us m (omega arith))
