-- ===== src/Base/Words.antt =====
-- `size_t` arithmetic, and the bytes of a struct of 64-bit words (x86-64, little-endian).
use Prim.Native.Nat.{ℕ, zero, suc, ◌+◌, ◌-◌, ◌*◌, ◌/◌, ◌%◌, ◌^◌, ◌<◌}
use mathlib.Core.Path.{◌∙◌, ap₂, ◌≡◌, refl, ap}
use mathlib.Core.List.{List, [], ◌∷◌, ◌++◌}
use native.Mathlib.Nat.{pow-suc}
use native.Mathlib.Omega.{arith}
use nosql_gql_dbms.Base.Lists.{length, take, drop, length-append, take-append, drop-append}

abbrev pub u64_mod : ℕ
u64_mod = 2 ^ 64

abbrev pub u64 : ℕ → ℕ
u64 n = n % u64_mod

-- `-1 * n` for a `size_t` n
abbrev pub neg64 : ℕ → ℕ
neg64 n = u64 (u64_mod - u64 n)

-- the `k` low bytes of a number, lowest first
unfoldable pub le_bytes : ℕ → ℕ → List ℕ
le_bytes zero n = []
le_bytes (suc k) n = n % 256 ∷ le_bytes k (n / 256)

unfoldable pub le_value : List ℕ → ℕ
le_value [] = 0
le_value (b ∷ bs) = b + 256 * le_value bs

pub length-le_bytes : (k n : ℕ) → length (le_bytes k n) ≡ k
unfolding le_bytes
length-le_bytes zero n = refl
length-le_bytes (suc k) n = ap suc (length-le_bytes k (n / 256))

pub le_value-le_bytes : (k n : ℕ) → n < 256 ^ k → le_value (le_bytes k n) ≡ n
unfolding le_bytes le_value
le_value-le_bytes zero n h = omega arith
le_value-le_bytes (suc k) n h =
    omega (arith, le_value-le_bytes k (n / 256) (omega (arith, pow-suc 256 k)))

-- a struct whose members are the words `ws`
unfoldable pub words_bytes : List ℕ → List ℕ
words_bytes [] = []
words_bytes (w ∷ ws) = le_bytes 8 w ++ words_bytes ws

unfoldable pub bytes_words : ℕ → List ℕ → List ℕ
bytes_words zero bs = []
bytes_words (suc k) bs = le_value (take 8 bs) ∷ bytes_words k (drop 8 bs)

abbrev pub AllWords : List ℕ → Type 0
AllWords [] = Unit
AllWords (w ∷ ws) = (w < u64_mod) × AllWords ws

pub length-words_bytes : (ws : List ℕ) → length (words_bytes ws) ≡ 8 * length ws
unfolding words_bytes
length-words_bytes [] = refl
length-words_bytes (w ∷ ws) = omega (
  arith,
  length-append (le_bytes 8 w) (words_bytes ws),
  length-le_bytes 8 w,
  length-words_bytes ws,
)

pub bytes_words-words_bytes :
    (ws : List ℕ) → AllWords ws → bytes_words (length ws) (words_bytes ws) ≡ ws
unfolding words_bytes bytes_words
bytes_words-words_bytes [] h = refl
bytes_words-words_bytes (w ∷ ws) h = rw (
  take-append 8 (le_bytes 8 w) (words_bytes ws) (length-le_bytes 8 w),
  drop-append 8 (le_bytes 8 w) (words_bytes ws) (length-le_bytes 8 w),
  bytes_words-words_bytes ws h.1,
  le_value-le_bytes 8 w h.0,
)

abbrev pub AllBytes : List ℕ → Type 0
AllBytes [] = Unit
AllBytes (b ∷ bs) = (b < 256) × AllBytes bs

pub le_bytes-le_value : (bs : List ℕ) → AllBytes bs → le_bytes (length bs) (le_value bs) ≡ bs
unfolding le_bytes le_value
le_bytes-le_value [] a = refl
le_bytes-le_value (b ∷ bs) a =
    ap₂ (λ x xs. x ∷ xs) (omega (arith, a.0))
      (ap (le_bytes (length bs)) (omega (arith, a.0)) ∙ le_bytes-le_value bs a.1)

-- The first byte of words is the low byte of the first one.
pub words_bytes_head : (w : ℕ) (ws : List ℕ) → (bs : List ℕ) × (words_bytes (w ∷ ws) ≡ w % 256 ∷ bs)
unfolding words_bytes le_bytes
words_bytes_head w ws = (le_bytes 7 (w / 256) ++ words_bytes ws, refl)
