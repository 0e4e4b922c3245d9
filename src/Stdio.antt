-- ===== src/Stdio.antt =====
-- What the sources use of <stdio.h>: one stream, opened by `fopen(name, "w+")`, with the macros of
-- include/utils/utils.h over it.
pub mod Laws
use nosql_gql_dbms.Base.{
  ℕ, zero, suc, ◌+◌, ◌-◌, ◌^◌, Bool, List, [], ◌∷◌, ltb, leb, ◌==◌, if◌then◌else◌, length, get_or,
  max, Outcome, ok, failed, M, and_then, pure, fail, ◌>>=◌, ◌>>◌, get,
}

-- `byte` is zero from `size` on, so that a write behind the end leaves zeros in the gap.
-- The medium takes every write: a full device is not modelled.
pub record Stream : Type 0 where
  pub byte : ℕ → ℕ
  pub size : ℕ
  pub pos : ℕ

-- `fopen(name, "w+")` truncates the file.
unfoldable pub fopen : Stream
fopen = record { byte = λ _. 0; size = 0; pos = 0 }

abbrev pub max_pos : ℕ
max_pos = 2 ^ 63

-- the `n` bytes from `a` on
unfoldable pub bytes : (ℕ → ℕ) → ℕ → ℕ → List ℕ
bytes b a zero = []
bytes b a (suc n) = b a ∷ bytes b (a + 1) n

-- `b` with `ds` written from `a` on
unfoldable pub patch : (ℕ → ℕ) → ℕ → List ℕ → ℕ → ℕ
patch b a ds x = if ltb x a then b x else get_or ds (x - a) (b x)

unfoldable pub ftell : M Stream ℕ
ftell f = (ok f.pos, f)

-- The offset is converted to `long`: from 2^63 on it is negative, and refused.
unfoldable pub fseek : ℕ → M Stream (Unit {0})
fseek off f = if ltb off max_pos then (ok tt, record f { pos = off }) else (failed, f)

-- `fread(p, n, 1, f) == 1`. A short read leaves the position at the end of the file, and a read of
-- no bytes returns 0, which is no success.
unfoldable pub fread : ℕ → M Stream (List ℕ)
fread n f =
    if n == 0
    then (failed, f)
    else if leb (f.pos + n) f.size
    then (ok (bytes f.byte f.pos n), record f { pos = f.pos + n })
    else (failed, record f { pos = max f.pos f.size })

-- `fwrite(p, n, 1, f) == 1` for the n bytes `ds`
unfoldable pub fwrite : List ℕ → M Stream (Unit {0})
fwrite ds f = if length ds == 0 then (failed, f) else (
  ok tt,
  record f {
    byte = patch f.byte f.pos ds;
    size = max (f.pos + length ds) f.size;
    pos = f.pos + length ds;
  },
)

-- `SAVE_FILP(filp, RA_FREAD_OR_FAIL(o_data, n, off, filp))`
unfoldable pub read_at : ℕ → ℕ → M Stream (List ℕ)
read_at off n = do prev_ptr ← ftell; fseek off; bs ← fread n; fseek prev_ptr; pure bs

-- `SAVE_FILP(filp, RA_FWRITE_OR_FAIL(data, n, off, filp))`
unfoldable pub write_at : ℕ → List ℕ → M Stream (Unit {0})
write_at off ds = do prev_ptr ← ftell; fseek off; fwrite ds; fseek prev_ptr
