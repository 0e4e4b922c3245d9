-- ===== src/Stdio/Laws.antt =====
-- The stream as bytes: what a write leaves where, and what a read then returns.
use nosql_gql_dbms.Base.{
  ==→ne, ltb_false→le, sym, ==→eq, ltb→lt, ltb, Bool-cases, if◌then◌else◌, ◌==◌, fun_ext, ℕ, zero,
  suc, ◌+◌, ◌-◌, ◌≤◌, ◌<◌, ◌≡◌, ◌≢◌, refl, ap₂, ap, ◌∙◌, ◌⊎◌, inl, inr, List, [], ◌∷◌, arith,
  length, get_or, max, ok, le→ltb_false,
}
use nosql_gql_dbms.Stdio.{
  Stream, max_pos, bytes, patch, ftell, fseek, fread, fwrite, read_at, write_at,
}

-- the stream with `ds` in place from `off` on
abbrev pub put_bytes : ℕ → List ℕ → Stream → Stream
put_bytes off ds f = record f {
  byte = patch f.byte off ds;
  size = if length ds == 0 then f.size else max (off + length ds) f.size;
}

-- The position of a stream is always one that `fseek` takes.
abbrev pub IsSeekable : Stream → Type 0
IsSeekable f = f.pos < max_pos

pub write_at-ok :
    (off : ℕ) (ds : List ℕ) (f : Stream)
    → IsSeekable f
    → off < max_pos
    → length ds ≢ 0
    → write_at off ds f ≡ (ok tt, put_bytes off ds f)
unfolding write_at fseek ftell fwrite
write_at-ok off ds f p h n = ground arith

pub read_at-ok :
    (off n : ℕ) (f : Stream)
    → IsSeekable f
    → off < max_pos
    → n ≢ 0
    → off + n ≤ f.size
    → read_at off n f ≡ (ok (bytes f.byte off n), f)
unfolding read_at fseek ftell fread
read_at-ok off n f p h m le = ground arith

-- Writing nothing changes nothing.
pub put_bytes-nil : (off : ℕ) (f : Stream) → put_bytes off [] f ≡ f
unfolding patch
put_bytes-nil off f = λ i. record f { byte = fun_ext (λ x. same x) i }
  where
    same : (x : ℕ) → patch f.byte off [] x ≡ f.byte x
    same x = ground arith

bytes_ext :
    (b c : ℕ → ℕ) (a n : ℕ) → ((x : ℕ) → a ≤ x → x < a + n → b x ≡ c x) → bytes b a n ≡ bytes c a n
unfolding bytes
bytes_ext b c a zero h = refl
bytes_ext b c a (suc n) h =
    ap₂ (λ t ts. t ∷ ts) (h a (omega arith) (omega arith))
      (bytes_ext b c (a + 1) n λ x p q. h x (omega arith) (omega arith))

length-bytes : (b : ℕ → ℕ) (a n : ℕ) → length (bytes b a n) ≡ n
unfolding bytes
length-bytes b a zero = refl
length-bytes b a (suc n) = ap suc (length-bytes b (a + 1) n)

get_or_beyond : (ds : List ℕ) (i d : ℕ) → length ds ≤ i → get_or ds i d ≡ d
get_or_beyond [] i d h = refl
get_or_beyond (x ∷ xs) zero d h = absurd (omega arith)
get_or_beyond (x ∷ xs) (suc i) d h = get_or_beyond xs i d (omega arith)

-- A write leaves every byte outside its range.
patch_outside :
    (b : ℕ → ℕ) (a : ℕ) (ds : List ℕ) (x : ℕ) → (x < a) ⊎ (a + length ds ≤ x) → patch b a ds x ≡ b x
unfolding patch
patch_outside b a ds x h = ground (arith, get_or_beyond ds (x - a) (b x))

-- Two ranges of bytes that do not meet.
abbrev pub Apart : ℕ → ℕ → ℕ → ℕ → Type 0
Apart a n c m = (a + n ≤ c) ⊎ (c + m ≤ a)

pub bytes-patch-Apart :
    (b : ℕ → ℕ) (a : ℕ) (ds : List ℕ) (c n : ℕ)
    → Apart c n a (length ds)
    → bytes (patch b a ds) c n ≡ bytes b c n
bytes-patch-Apart b a ds c n h =
    bytes_ext (patch b a ds) b c n λ x p q. patch_outside b a ds x (side x p q h)
  where
    side : (x : ℕ) → c ≤ x → x < c + n → Apart c n a (length ds) → (x < a) ⊎ (a + length ds ≤ x)
    side x p q (inl e) = inl (omega arith)
    side x p q (inr e) = inr (omega arith)

patch-cons_tail :
    (b : ℕ → ℕ) (a d : ℕ) (ds : List ℕ) (x : ℕ)
    → a + 1 ≤ x
    → patch b a (d ∷ ds) x ≡ patch b (a + 1) ds x
unfolding patch
patch-cons_tail b a d ds x h =
    rw (le→ltb_false x a (omega arith), le→ltb_false x (a + 1) h) (go (x - a) (omega arith))
  where
    go : (k : ℕ) → k ≡ suc (x - (a + 1)) → get_or (d ∷ ds) k (b x) ≡ get_or ds (x - (a + 1)) (b x)
    go k e = rw e

patch-cons_head : (b : ℕ → ℕ) (a d : ℕ) (ds : List ℕ) → patch b a (d ∷ ds) a ≡ d
unfolding patch
patch-cons_head b a d ds = rw (le→ltb_false a a (omega arith)) (go (a - a) (omega arith))
  where
    go : (k : ℕ) → k ≡ 0 → get_or (d ∷ ds) k (b a) ≡ d
    go k e = rw e

-- What is written is read back.
pub bytes-patch_self : (b : ℕ → ℕ) (a : ℕ) (ds : List ℕ) → bytes (patch b a ds) a (length ds) ≡ ds
unfolding bytes
bytes-patch_self b a [] = refl
bytes-patch_self b a (d ∷ ds) =
    ap₂ (λ t ts. t ∷ ts) (patch-cons_head b a d ds)
      (bytes_ext (patch b a (d ∷ ds)) (patch b (a + 1) ds) (a + 1) (length ds)
          (λ x p q. patch-cons_tail b a d ds x p)
        ∙ bytes-patch_self b (a + 1) ds)

patch-same :
    (b : ℕ → ℕ) (a : ℕ) (ds : List ℕ) → bytes b a (length ds) ≡ ds → (x : ℕ) → patch b a ds x ≡ b x
unfolding bytes
patch-same b a [] e x = patch_outside b a [] x (omega arith)
patch-same b a (d ∷ ds) e x =
    let first : b a ≡ d = cc in
    let rest : bytes b (a + 1) (length ds) ≡ ds = cc in
    elim (Bool-cases (ltb x a)) [
      | inl lt ↦ patch_outside b a (d ∷ ds) x (inl (ltb→lt x a lt))
      | inr ge ↦ elim (Bool-cases (x == a)) [
        | inl same ↦
            let p : x ≡ a = ==→eq x a same in
            ap (patch b a (d ∷ ds)) p ∙ patch-cons_head b a d ds ∙ sym first ∙ ap b (sym p)
        | inr ne ↦
            patch-cons_tail b a d ds x (omega (arith, ltb_false→le x a ge, ==→ne x a ne))
            ∙ patch-same b (a + 1) ds rest x
      ]
    ]

-- Writing what stands there already changes nothing.
pub put_bytes-same :
    (a : ℕ) (ds : List ℕ) (f : Stream)
    → bytes f.byte a (length ds) ≡ ds
    → (length ds ≡ 0) ⊎ (a + length ds ≤ f.size)
    → put_bytes a ds f ≡ f
put_bytes-same a ds f e p =
    λ i. record f { byte = fun_ext (patch-same f.byte a ds e) i; size = size i }
  where
    size : (if length ds == 0 then f.size else max (a + length ds) f.size) ≡ f.size
    size = ground (arith, p)
