-- ===== src/Prelude/Exec.antt =====
-- Methods that mutate an object and may raise. What was written before a raise stays written, so the
-- state comes back beside the error too.
use agent_bakery.Prelude.Tests.{if◌then◌else◌}
use mathlib.Core.Bool.{Bool}

pub data Result (E A : Type 0) : Type 0 where
  ok : A → Result E A
  raised : E → Result E A

abbrev pub Exec : Type 0 → Type 0 → Type 0 → Type 0
Exec S E A = S → Result E A × S

module _ {S E A : Type 0} where
  abbrev pub pure : A → Exec S E A
  pure a s = (ok a, s)

  abbrev pub raise : E → Exec S E A
  raise e s = (raised e, s)

  abbrev pub gets : (S → A) → Exec S E A
  gets f s = (ok (f s), s)

-- What follows a method, given what it returned.
abbrev pub continue : {S E A B : Type 0} → Result E A × S → (A → Exec S E B) → Result E B × S
continue (ok a, s) f = f a s
continue (raised e, s) f = (raised e, s)

infixl 5 ◌>>=◌ ◌>>◌
abbrev pub ◌>>=◌ : {S E A B : Type 0} → Exec S E A → (A → Exec S E B) → Exec S E B
◌>>=◌ m f s = continue (m s) f

abbrev pub ◌>>◌ : {S E A B : Type 0} → Exec S E A → Exec S E B → Exec S E B
m >> k = m >>= λ _. k

abbrev pub raise_if : {S E : Type 0} → Bool → E → Exec S E (Unit {0})
raise_if c e s = (if c then raised e else ok tt, s)

abbrev pub modify : {S E : Type 0} → (S → S) → Exec S E (Unit {0})
modify f s = (ok tt, f s)
