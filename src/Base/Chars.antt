-- ===== src/Base/Chars.antt =====
-- Texts as lists of bytes, and how the standard library writes numbers.
use mathlib.Core.Bool.{Bool}
use Prim.Native.Char.{code}
use Prim.Native.Nat.{ℕ, zero, suc, ◌+◌, ◌-◌, ◌/◌, ◌%◌, ◌^◌}
use Prim.Native.String.{String}
use mathlib.Core.List.{List, [], ◌∷◌}
use nosql_gql_dbms.Base.Tests.{◌==◌, ltb, if◌then◌else◌}

-- The bytes of a text of ASCII.
abbrev pub codes : String → List ℕ
codes String.[] = []
codes (String.◌∷◌ c s) = code c ∷ codes s

-- The digits of a number in front of a text, on fuel: one round for each digit.
unfoldable pub digits : ℕ → ℕ → List ℕ → List ℕ
digits zero n acc = acc
digits (suc fuel) n acc =
    let more = digits fuel (n / 10) ((b'0' + n % 10) ∷ acc) in
    if n / 10 == 0 then (b'0' + n % 10) ∷ acc else more

-- `std::to_string` and `<<` of an `int32_t`, given by its pattern: no number of 32 bits has more than ten
-- digits.
unfoldable pub show_int32 : ℕ → List ℕ
unfolding digits
show_int32 n = if ltb n (2 ^ 31) then digits 10 n [] else b'-' ∷ digits 10 (2 ^ 32 - n) []

-- `std::to_string` and `<<` of a `bool`
unfoldable pub show_bool : Bool → List ℕ
show_bool b = if b then b'1' ∷ [] else b'0' ∷ []
