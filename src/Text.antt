-- ===== src/Text.antt =====
-- dbms/src/utils/string.c: a `String` is a counted block of bytes, here the list of its bytes.
pub mod Laws
use nosql_gql_dbms.Base.{ℕ, ◌≡◌, List, [], ◌∷◌, ◌==◌, if◌then◌else◌, ltb, length, replicate, suc}

-- `strncpy(to, val, size)`: what follows a NUL is cleared.
unfoldable pub strncpy : List ℕ → List ℕ
strncpy [] = []
strncpy (b ∷ bs) = if b == 0 then replicate (suc (length bs)) 0 else b ∷ strncpy bs

unfoldable pub string_ctor : List ℕ → List ℕ
unfolding strncpy
string_ctor val = strncpy val

pub string_get_size : List ℕ → ℕ
string_get_size str = length str

-- The sign of the `int` that a comparison returns.
pub data Sign : Type 0 where
  less equal greater : Sign

-- `strncmp(a, b, n)` at two blocks of n bytes: it stops at a difference or at a NUL.
unfoldable pub strncmp : List ℕ → List ℕ → Sign
strncmp [] bs = equal
strncmp (a ∷ xs) [] = equal
strncmp (a ∷ xs) (b ∷ bs) =
    if ltb a b then less else if ltb b a then greater else if a == 0 then equal else strncmp xs bs

unfoldable pub string_cmp : List ℕ → List ℕ → Sign
unfolding strncmp
string_cmp s t =
    if ltb (length t) (length s)
    then greater
    else if ltb (length s) (length t)
    then less
    else strncmp s t

-- A block that `string_ctor` made: nothing but NULs follows a NUL.
abbrev pub IsText : List ℕ → Type 0
IsText s = strncpy s ≡ s
