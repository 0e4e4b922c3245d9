-- ===== src/Base/Status.antt =====
-- `Status` of utils.h, and code that returns one while it changes a state of type `S`.
use mathlib.Core.Option.{Option, none, some}
use mathlib.Core.Path.{◌≡◌, ap}

-- `ok` is the status OK with what goes out through the pointers, `failed` is FAILED. `fault` is a
-- run that C leaves undefined (a read of memory never written) or one that does not end.
pub data Outcome (A : Type 0) : Type 0 where
  ok : A → Outcome A
  failed : Outcome A
  fault : Outcome A

abbrev pub M : Type 0 → Type 0 → Type 0
M S A = S → Outcome A × S

-- What comes after a status, and what comes after it by `DO_OR_FAIL`.
abbrev pub and_then : {S A B : Type 0} → Outcome A × S → (A → M S B) → Outcome B × S
and_then (ok a, s) k = k a s
and_then (failed, s) k = (failed, s)
and_then (fault, s) k = (fault, s)

abbrev pub pure : {S A : Type 0} → A → M S A
pure a s = (ok a, s)

abbrev pub fail : {S A : Type 0} → M S A
fail s = (failed, s)

abbrev pub stop : {S A : Type 0} → M S A
stop s = (fault, s)

infixl 5 ◌>>=◌ ◌>>◌
abbrev pub ◌>>=◌ : {S A B : Type 0} → M S A → (A → M S B) → M S B
◌>>=◌ m k s = and_then (m s) k

abbrev pub ◌>>◌ : {S B : Type 0} → M S (Unit {0}) → M S B → M S B
◌>>◌ m k s = and_then (m s) (λ _. k)

abbrev pub get : {S : Type 0} → M S S
get s = (ok s, s)

abbrev pub put : {S : Type 0} → S → M S (Unit {0})
put s' s = (ok tt, s')

abbrev pub modify : {S : Type 0} → (S → S) → M S (Unit {0})
modify f s = (ok tt, f s)

-- A call whose status is thrown away: `none` for FAILED.
abbrev pub attempt : {S A : Type 0} → Outcome A × S → Outcome (Option A) × S
attempt (ok a, s) = (ok (some a), s)
attempt (failed, s) = (ok none, s)
attempt (fault, s) = (fault, s)

-- To run a first part whose result is known.
pub step :
    {S A B : Type 0} {r : Outcome A × S} {a : A} {s : S} (k : A → M S B)
    → r ≡ (ok a, s)
    → and_then r k ≡ k a s
step k e = ap (λ r. and_then r k) e

-- A fault of the first part is one of the whole.
pub stopped :
    {S A B : Type 0} {r : Outcome A × S} {s : S} (k : A → M S B)
    → r ≡ (fault, s)
    → and_then r k ≡ (fault, s)
stopped k e = ap (λ r. and_then r k) e
