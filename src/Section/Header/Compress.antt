-- ===== src/Section/Header/Compress.antt =====
-- The loops that move the borders of a section over cleared bytes: they end, and where.
use nosql_gql_dbms.Base.{
  u64, Option, some, none, attempt, ◌⊎◌, inl, inr, ◌∙◌, step, suc, eq→==, ne→==, Bool-cases, leb,
  max, lt→ltb, ◌-◌, subst, ℕ, zero, ◌+◌, ◌≤◌, ◌<◌, ◌≡◌, ◌≢◌, refl, sym, ap, List, [], ◌∷◌, arith,
  ok,
}
use nosql_gql_dbms.Stdio.{bytes, max_pos, read_at, fseek, fread, ftell}
use nosql_gql_dbms.Section.Header.{
  Sect, SectHead, section_size, head_size, read, cmprs_frp_loop, cmprs_frp, after_read,
}
use nosql_gql_dbms.Section.Header.Laws.{
  IsValid, Holds, moved, borders, read-ok_of_length, sync-moved,
}

-- the section with other borders in memory; the file is as it was
abbrev pub with_borders : ℕ → ℕ → Sect → Sect
with_borders lip frp s = record s { header = borders lip frp s.header }

pub with_borders-IsValid :
    (lip frp : ℕ) (s : Sect)
    → IsValid s
    → head_size ≤ lip
    → lip ≤ frp
    → frp ≤ section_size
    → IsValid (with_borders lip frp s)
with_borders-IsValid lip frp s v a b c = record {
  balance = omega arith;
  low = a;
  high = c;
  placed = v.placed;
  seekable = v.seekable;
}

with_borders_self :
    (s : Sect) → IsValid s → with_borders s.header.lst_itm_ptr s.header.fst_rec_ptr s ≡ s
with_borders_self s v = λ i. record s { header = record s.header { free_space = free i } }
  where
    free : s.header.fst_rec_ptr - s.header.lst_itm_ptr ≡ s.header.free_space
    free = omega (arith, v.balance)

pub Holds-with_borders :
    (lip frp : ℕ) (s : Sect) (c : ℕ) (cs : List ℕ)
    → Holds s c cs
    → Holds (with_borders lip frp s) c cs
Holds-with_borders lip frp s c cs h = record { same = h.same; inside = h.inside }

-- the section with its stream at another position, where a failed read may leave it
abbrev pub at_pos : ℕ → Sect → Sect
at_pos p s = record s { filp = record s.filp { pos = p } }

-- A read of one byte whose status is thrown away moves the stream at most.
attempt-read :
    (soff : ℕ) (s : Sect)
    → IsValid s
    → u64 (s.header.file_offset + soff) < max_pos
    → (o : Option (List ℕ)) × (p : ℕ) × (p < max_pos)
      × (attempt (read soff 1 s) ≡ (ok o, at_pos p s))
unfolding read read_at fseek fread ftell
attempt-read soff s v h = elim (Bool-cases (leb (off + 1) s.filp.size)) [
  | inl long ↦ (
    some (bytes s.filp.byte off 1),
    s.filp.pos,
    v.seekable,
    rw (lt→ltb off max_pos h, long, lt→ltb s.filp.pos max_pos v.seekable),
  )
  | inr short ↦ (none, max off s.filp.size, ground (arith, h), rw (lt→ltb off max_pos h, short))
]
  where
    off : ℕ
    off = u64 (s.header.file_offset + soff)

-- From `frp` on stand `k` cleared bytes, and then one that is not, or the end of the section.
pub record Gap (s : Sect) (frp k : ℕ) : Type 0 where
  pub cleared : (i : ℕ) → i < k → Holds s (frp + i) (0 ∷ [])
  pub ends : (frp + k ≡ section_size) ⊎ ((b : ℕ) × (b ≢ 0) × Holds s (frp + k) (b ∷ []))

Gap-suc :
    (lip frp k : ℕ) (s : Sect) → Gap s frp (suc k) → Gap (with_borders lip (frp + 1) s) (frp + 1) k
Gap-suc lip frp k s g = record {
  cleared = λ i h.
      Holds-with_borders lip (frp + 1) s (frp + 1 + i) (0 ∷ [])
        (subst (λ (c : ℕ). Holds s c (0 ∷ [])) (omega arith) (g.cleared (suc i) (omega arith)));
  ends = go g.ends;
}
  where
    go :
        (frp + suc k ≡ section_size) ⊎ ((b : ℕ) × (b ≢ 0) × Holds s (frp + suc k) (b ∷ []))
        → (frp + 1 + k ≡ section_size)
          ⊎ ((b : ℕ) × (b ≢ 0) × Holds (with_borders lip (frp + 1) s) (frp + 1 + k) (b ∷ []))
    go (inl e) = inl (omega arith)
    go (inr (b, n, h)) = inr (
      b,
      n,
      Holds-with_borders lip (frp + 1) s (frp + 1 + k) (b ∷ [])
          (subst (λ (c : ℕ). Holds s c (b ∷ [])) (omega arith) h),
    )

pub frp_stop :
    (fuel : ℕ) (old : Option (List ℕ)) (s : Sect) (b : ℕ)
    → IsValid s
    → b ≢ 0
    → Holds s s.header.fst_rec_ptr (b ∷ [])
    → cmprs_frp_loop (suc fuel) old s ≡ (ok tt, s)
unfolding cmprs_frp_loop after_read
frp_stop fuel old s b v n h =
    rw (read-ok_of_length s.header.fst_rec_ptr 1 (b ∷ []) s v v.high refl h) (ground arith)

frp_end :
    (fuel : ℕ) (old : Option (List ℕ)) (s : Sect)
    → IsValid s
    → s.header.fst_rec_ptr ≡ section_size
    → (p : ℕ) × (p < max_pos) × (cmprs_frp_loop (suc fuel) old s ≡ (ok tt, at_pos p s))
unfolding cmprs_frp_loop after_read
frp_end fuel old s v e =
    let (o, p, h, r) = attempt-read s.header.fst_rec_ptr s v (omega (arith, v.placed, v.high)) in
    (p, h, step _ r ∙ rw (eq→== s.header.fst_rec_ptr section_size e))

frp_step :
    (fuel : ℕ) (old : Option (List ℕ)) (s : Sect)
    → IsValid s
    → s.header.fst_rec_ptr < section_size
    → Holds s s.header.fst_rec_ptr (0 ∷ [])
    → cmprs_frp_loop (suc fuel) old s
      ≡ cmprs_frp_loop fuel
          (some (0 ∷ []))
          (with_borders s.header.lst_itm_ptr (s.header.fst_rec_ptr + 1) s)
unfolding cmprs_frp_loop after_read
frp_step fuel old s v l h =
    rw
      (
        read-ok_of_length s.header.fst_rec_ptr 1 (0 ∷ []) s v v.high refl h,
        ne→== s.header.fst_rec_ptr section_size (omega arith),
      )
      (ap
        (λ (h : SectHead).
          cmprs_frp_loop fuel (some (0 ∷ [])) (record { header = h; filp = s.filp }))
        heads)
  where
    heads :
        record s.header {
          free_space = u64 (s.header.free_space + 1);
          fst_rec_ptr = u64 (s.header.fst_rec_ptr + 1);
        }
        ≡ borders s.header.lst_itm_ptr (s.header.fst_rec_ptr + 1) s.header
    heads = ground (arith, v.balance, v.high, l)

-- What the loop leaves: the border of the records moved over `k` bytes.
abbrev pub Moves : ℕ → Option (List ℕ) → Sect → ℕ → Type 0
Moves fuel old s k =
    (p : ℕ) × (p < max_pos)
    × (cmprs_frp_loop fuel old s
        ≡ (ok tt, at_pos p (with_borders s.header.lst_itm_ptr (s.header.fst_rec_ptr + k) s)))

frp_done :
    (fuel : ℕ) (old : Option (List ℕ)) (s : Sect)
    → IsValid s
    → Gap s s.header.fst_rec_ptr 0
    → Moves (suc fuel) old s 0
frp_done fuel old s v g =
    subst
      (λ (u : Sect).
        (p : ℕ) × (p < max_pos) × (cmprs_frp_loop (suc fuel) old s ≡ (ok tt, at_pos p u)))
      (sym (here ∙ with_borders_self s v)) (go g.ends)
  where
    here :
        with_borders s.header.lst_itm_ptr (s.header.fst_rec_ptr + 0) s
        ≡ with_borders s.header.lst_itm_ptr s.header.fst_rec_ptr s
    here = ap (λ k. with_borders s.header.lst_itm_ptr k s) (omega arith)

    go :
        (s.header.fst_rec_ptr + 0 ≡ section_size)
          ⊎ ((b : ℕ) × (b ≢ 0) × Holds s (s.header.fst_rec_ptr + 0) (b ∷ []))
        → (p : ℕ) × (p < max_pos) × (cmprs_frp_loop (suc fuel) old s ≡ (ok tt, at_pos p s))
    go (inl e) = frp_end fuel old s v (omega arith)
    go (inr (b, n, h)) = (
      s.filp.pos,
      v.seekable,
      frp_stop fuel old s b v n (subst (λ (c : ℕ). Holds s c (b ∷ [])) (omega arith) h),
    )

Moves-suc :
    (fuel k : ℕ) (old : Option (List ℕ)) (s : Sect)
    → IsValid s
    → s.header.fst_rec_ptr < section_size
    → Holds s s.header.fst_rec_ptr (0 ∷ [])
    → Moves fuel (some (0 ∷ [])) (with_borders s.header.lst_itm_ptr (s.header.fst_rec_ptr + 1) s) k
    → Moves (suc fuel) old s (suc k)
Moves-suc fuel k old s v l h (p, q, r) = (
  p,
  q,
  frp_step fuel old s v l h
      ∙ r
      ∙ ap (λ c. (ok tt, at_pos p (with_borders s.header.lst_itm_ptr c s))) (omega arith),
)

frp_loop :
    (k fuel : ℕ) (old : Option (List ℕ)) (s : Sect)
    → IsValid s
    → k < fuel
    → s.header.fst_rec_ptr + k ≤ section_size
    → Gap s s.header.fst_rec_ptr k
    → Moves fuel old s k
frp_loop k zero old s v l b g = absurd (omega arith)
frp_loop zero (suc fuel) old s v l b g = frp_done fuel old s v g
frp_loop (suc k) (suc fuel) old s v l b g =
    Moves-suc fuel k old s v (omega arith)
      (subst (λ (c : ℕ). Holds s c (0 ∷ [])) (omega arith) (g.cleared 0 (omega arith)))
      (frp_loop k fuel (some (0 ∷ []))
        (with_borders s.header.lst_itm_ptr (s.header.fst_rec_ptr + 1) s)
        (with_borders-IsValid s.header.lst_itm_ptr (s.header.fst_rec_ptr + 1) s v v.low
          (omega (arith, v.balance)) (omega arith))
        (omega arith) (omega arith) (Gap-suc s.header.lst_itm_ptr s.header.fst_rec_ptr k s g))

-- On a valid section with `k` zero bytes in the file from the border of the records on, and behind
-- them the end of the section or a byte in the file that is not zero, `sect_head_cmprs_frp` returns
-- ok and moves the border behind the `k` bytes. The free space grows by them, the header is written
-- to the file, and nothing else changes but the position of the stream.
pub cmprs_frp-ok :
    (k : ℕ) (s : Sect)
    → IsValid s
    → s.header.fst_rec_ptr + k ≤ section_size
    → Gap s s.header.fst_rec_ptr k
    → (p : ℕ) × (p < max_pos)
      × (cmprs_frp s ≡ (ok tt, moved s.header.lst_itm_ptr (s.header.fst_rec_ptr + k) (at_pos p s)))
unfolding cmprs_frp
cmprs_frp-ok k s v b g = go (frp_loop k (suc section_size) none s v (omega arith) b g)
  where
    go :
        Moves (suc section_size) none s k
        → (p : ℕ) × (p < max_pos)
          × (cmprs_frp s
              ≡ (ok tt, moved s.header.lst_itm_ptr (s.header.fst_rec_ptr + k) (at_pos p s)))
    go (p, q, r) = (
      p,
      q,
      step _ r
          ∙ sync-moved s.header.lst_itm_ptr (s.header.fst_rec_ptr + k) (at_pos p s)
              (record {
                balance = v.balance;
                low = v.low;
                high = v.high;
                placed = v.placed;
                seekable = q;
              })
              refl,
    )
