-- ===== src/Section/Header/Laws.antt =====
-- What the operations of a valid section do to its header and to its bytes.
use nosql_gql_dbms.Base.{ap}
use nosql_gql_dbms.Base.{
  get_or-get_or, fun_ext, if◌then◌else◌, ◌==◌, max, ◌-◌, suc-==-zero, ◌⊎◌, inl, inr, ◌∙◌, List, [],
  ◌∷◌, refl, sym, subst, u64, neg64, ℕ, ◌+◌, ◌≤◌, ◌<◌, ◌≡◌, ◌≢◌, arith, length, ok, words_bytes,
  length-words_bytes,
}
use nosql_gql_dbms.Stdio.{bytes, write_at, max_pos, patch}
use nosql_gql_dbms.Stdio.Laws.{
  put_bytes-same, put_bytes-nil, read_at-ok, bytes-patch_self, bytes-patch-Apart, Apart, put_bytes,
  IsSeekable, write_at-ok,
}
use nosql_gql_dbms.Section.Header.{
  read, ctor, new_header, on_filp, shift_frp, shift_lip, section_size, head_size, SectHead, Sect,
  head_words, sync, write,
}

-- The header is consistent, and the section and the stream lie where `fseek` reaches.
pub record IsValid (s : Sect) : Type 0 where
  pub balance : s.header.free_space + s.header.lst_itm_ptr ≡ s.header.fst_rec_ptr
  pub low : head_size ≤ s.header.lst_itm_ptr
  pub high : s.header.fst_rec_ptr ≤ section_size
  pub placed : s.header.file_offset + section_size < max_pos
  pub seekable : IsSeekable s.filp

-- the section with the bytes `ds` in its file from `soff` on
unfoldable pub stored : ℕ → List ℕ → Sect → Sect
stored soff ds s = record s { filp = put_bytes (s.header.file_offset + soff) ds s.filp }

-- the section with its header written to the file
unfoldable pub synced : Sect → Sect
unfolding stored
synced s = stored 0 (words_bytes (head_words s.header)) s

abbrev pub borders : ℕ → ℕ → SectHead → SectHead
borders lip frp h = record h { lst_itm_ptr = lip; fst_rec_ptr = frp; free_space = frp - lip }

-- the section with the borders of the items and of the records set, and written to the file
unfoldable pub moved : ℕ → ℕ → Sect → Sect
unfolding synced
moved lip frp s = synced (record s { header = borders lip frp s.header })

pub header-stored : (soff : ℕ) (ds : List ℕ) (s : Sect) → (stored soff ds s).header ≡ s.header
unfolding stored
header-stored soff ds s = refl

pub header-synced : (s : Sect) → (synced s).header ≡ s.header
unfolding synced
header-synced s = refl

pub header-moved : (lip frp : ℕ) (s : Sect) → (moved lip frp s).header ≡ borders lip frp s.header
unfolding moved
header-moved lip frp s = refl

pub stored-IsValid : (soff : ℕ) (ds : List ℕ) (s : Sect) → IsValid s → IsValid (stored soff ds s)
unfolding stored
stored-IsValid soff ds s v = record {
  balance = v.balance;
  low = v.low;
  high = v.high;
  placed = v.placed;
  seekable = v.seekable;
}

pub synced-IsValid : (s : Sect) → IsValid s → IsValid (synced s)
unfolding synced
synced-IsValid s v = stored-IsValid 0 (words_bytes (head_words s.header)) s v

pub moved-IsValid :
    (lip frp : ℕ) (s : Sect)
    → IsValid s
    → head_size ≤ lip
    → lip ≤ frp
    → frp ≤ section_size
    → IsValid (moved lip frp s)
unfolding moved
moved-IsValid lip frp s v a b c =
    synced-IsValid (record s { header = borders lip frp s.header })
      (record {
        balance = omega arith;
        low = a;
        high = c;
        placed = v.placed;
        seekable = v.seekable;
      })

write_at-stored :
    (soff : ℕ) (ds : List ℕ) (s : Sect)
    → s.header.file_offset + section_size < max_pos
    → IsSeekable s.filp
    → soff ≤ section_size
    → length ds ≢ 0
    → on_filp (write_at (s.header.file_offset + soff) ds) s ≡ (ok tt, stored soff ds s)
unfolding stored
write_at-stored soff ds s p q h n =
    rw (write_at-ok (s.header.file_offset + soff) ds s.filp q (omega arith) n)

pub write-ok :
    (soff : ℕ) (ds : List ℕ) (s : Sect)
    → IsValid s
    → soff + length ds ≤ section_size
    → write soff ds s ≡ (ok tt, stored soff ds s)
unfolding write
write-ok soff [] s v h =
    unfold stored in
    λ i. (ok tt, record s { filp = sym (put_bytes-nil (s.header.file_offset + soff) s.filp) i })
write-ok soff (d ∷ ds) s v h =
    let e : u64 (s.header.file_offset + soff) ≡ s.header.file_offset + soff =
      omega (arith, v.placed) in
    rw e (write_at-stored soff (d ∷ ds) s v.placed v.seekable (omega arith) (omega arith))

pub length-head : (h : SectHead) → length (words_bytes (head_words h)) ≡ head_size
length-head h = length-words_bytes (head_words h)

pub sync-ok :
    (s : Sect)
    → s.header.file_offset + section_size < max_pos
    → IsSeekable s.filp
    → sync s ≡ (ok tt, synced s)
unfolding sync synced
sync-ok s p q =
    let e : s.header.file_offset ≡ s.header.file_offset + 0 = omega arith in
    subst
      (λ k.
        on_filp (write_at k (words_bytes (head_words s.header))) s
        ≡ (ok tt, stored 0 (words_bytes (head_words s.header)) s))
      (sym e)
      (write_at-stored 0 (words_bytes (head_words s.header)) s p q (omega arith)
        (omega (arith, length-head s.header)))

pub sync-valid : (s : Sect) → IsValid s → sync s ≡ (ok tt, synced s)
sync-valid s v = sync-ok s v.placed v.seekable

-- A header with consistent borders, however it was computed, is written as those borders.
pub sync-moved :
    (lip frp : ℕ) (s : Sect) {h : SectHead}
    → IsValid s
    → h ≡ borders lip frp s.header
    → sync (record { header = h; filp = s.filp }) ≡ (ok tt, moved lip frp s)
unfolding moved
sync-moved lip frp s v e =
    rw e (sync-ok (record s { header = borders lip frp s.header }) v.placed v.seekable)

-- Moving the border of the records down by `n`: the code adds the two's complement of `n`.
pub shift_frp-down :
    (n : ℕ) (s : Sect)
    → IsValid s
    → n ≤ s.header.free_space
    → shift_frp (neg64 n) s ≡ (ok tt, moved s.header.lst_itm_ptr (s.header.fst_rec_ptr - n) s)
unfolding shift_frp
shift_frp-down n s v h =
    sync-moved s.header.lst_itm_ptr (s.header.fst_rec_ptr - n) s v (ground arith)

shift_frp-up :
    (n : ℕ) (s : Sect)
    → IsValid s
    → s.header.fst_rec_ptr + n ≤ section_size
    → shift_frp n s ≡ (ok tt, moved s.header.lst_itm_ptr (s.header.fst_rec_ptr + n) s)
unfolding shift_frp
shift_frp-up n s v h = sync-moved s.header.lst_itm_ptr (s.header.fst_rec_ptr + n) s v (ground arith)

pub shift_lip-up :
    (n : ℕ) (s : Sect)
    → IsValid s
    → n ≤ s.header.free_space
    → shift_lip n s ≡ (ok tt, moved (s.header.lst_itm_ptr + n) s.header.fst_rec_ptr s)
unfolding shift_lip
shift_lip-up n s v h = sync-moved (s.header.lst_itm_ptr + n) s.header.fst_rec_ptr s v (ground arith)

shift_lip-down :
    (n : ℕ) (s : Sect)
    → IsValid s
    → head_size + n ≤ s.header.lst_itm_ptr
    → shift_lip (neg64 n) s ≡ (ok tt, moved (s.header.lst_itm_ptr - n) s.header.fst_rec_ptr s)
unfolding shift_lip
shift_lip-down n s v h =
    sync-moved (s.header.lst_itm_ptr - n) s.header.fst_rec_ptr s v (ground arith)

pub ctor-moved :
    (offset : ℕ) (s : Sect)
    → offset + section_size < max_pos
    → IsSeekable s.filp
    → ctor offset s ≡ (ok tt, synced (record s { header = new_header offset }))
unfolding ctor
ctor-moved offset s p q = sync-ok (record s { header = new_header offset }) p q

-- What the file holds: the bytes `ds` stand at `soff` of the section, inside the file.
pub record Holds (s : Sect) (soff : ℕ) (ds : List ℕ) : Type 0 where
  pub same : bytes s.filp.byte (s.header.file_offset + soff) (length ds) ≡ ds
  pub inside : (length ds ≡ 0) ⊎ (s.header.file_offset + soff + length ds ≤ s.filp.size)

Holds-nil : (s : Sect) (soff : ℕ) → Holds s soff []
unfolding bytes
Holds-nil s soff = record { same = refl; inside = inl refl }

pub read-ok :
    (soff : ℕ) (ds : List ℕ) (s : Sect)
    → IsValid s
    → soff ≤ section_size
    → Holds s soff ds
    → read soff (length ds) s ≡ (ok ds, s)
unfolding read
read-ok soff [] s v p h = refl
read-ok soff (d ∷ ds) s v p h =
    let e : u64 (s.header.file_offset + soff) ≡ s.header.file_offset + soff =
      omega (arith, v.placed) in
    rw (
      suc-==-zero (length ds),
      e,
      read_at-ok (s.header.file_offset + soff) (length (d ∷ ds)) s.filp v.seekable
          (omega (arith, v.placed)) (omega arith) (omega (arith, h.inside)),
      h.same,
    )

pub Holds-stored_self : (soff : ℕ) (ds : List ℕ) (s : Sect) → Holds (stored soff ds s) soff ds
unfolding stored
Holds-stored_self soff ds s = record {
  same = bytes-patch_self s.filp.byte (s.header.file_offset + soff) ds;
  inside = ground arith;
}

pub Holds-stored-Apart :
    (soff : ℕ) (ds : List ℕ) (s : Sect) (c : ℕ) (cs : List ℕ)
    → Apart c (length cs) soff (length ds)
    → Holds s c cs
    → Holds (stored soff ds s) c cs
unfolding stored
Holds-stored-Apart soff ds s c cs a h = record {
  same =
      bytes-patch-Apart s.filp.byte (s.header.file_offset + soff) ds (s.header.file_offset + c)
        (length cs) (omega (arith, a))
      ∙ h.same;
  inside = ground (arith, h.inside);
}

pub Holds-synced :
    (s : Sect) (c : ℕ) (cs : List ℕ) → head_size ≤ c → Holds s c cs → Holds (synced s) c cs
unfolding synced
Holds-synced s c cs p h =
    Holds-stored-Apart 0 (words_bytes (head_words s.header)) s c cs
      (inr (omega (arith, length-head s.header))) h

pub Holds-moved :
    (lip frp : ℕ) (s : Sect) (c : ℕ) (cs : List ℕ)
    → head_size ≤ c
    → Holds s c cs
    → Holds (moved lip frp s) c cs
unfolding moved
Holds-moved lip frp s c cs p h =
    Holds-synced (record s { header = borders lip frp s.header }) c cs p
      (record { same = h.same; inside = h.inside })

-- The same at a size that is known to be the length.
pub read-ok_of_length :
    (soff n : ℕ) (ds : List ℕ) (s : Sect)
    → IsValid s
    → soff ≤ section_size
    → length ds ≡ n
    → Holds s soff ds
    → read soff n s ≡ (ok ds, s)
read-ok_of_length soff n ds s v p e h = rw (← e) (read-ok soff ds s v p h)

patch-patch : (b : ℕ → ℕ) (a : ℕ) (ds : List ℕ) → patch (patch b a ds) a ds ≡ patch b a ds
unfolding patch
patch-patch b a ds = fun_ext λ x. ground (arith, get_or-get_or ds (x - a) (b x))

-- Writing the same bytes again changes nothing.
stored-stored :
    (soff : ℕ) (ds : List ℕ) (s : Sect) → stored soff ds (stored soff ds s) ≡ stored soff ds s
unfolding stored
stored-stored soff ds s = λ i. record s {
  filp = record s.filp {
    byte = patch-patch s.filp.byte (s.header.file_offset + soff) ds i;
    size = same i;
  };
}
  where
    same :
        (if length ds == 0
          then (if length ds == 0
              then s.filp.size
              else max (s.header.file_offset + soff + length ds) s.filp.size)
          else max (s.header.file_offset + soff + length ds) (
              if length ds == 0
              then s.filp.size
              else max (s.header.file_offset + soff + length ds) s.filp.size))
        ≡ (if length ds == 0
            then s.filp.size
            else max (s.header.file_offset + soff + length ds) s.filp.size)
    same = ground arith

-- The file holds the header as it is in memory.
abbrev pub IsSynced : Sect → Type 0
IsSynced s = synced s ≡ s

pub synced-IsSynced : (s : Sect) → IsSynced (synced s)
unfolding synced
synced-IsSynced s = stored-stored 0 (words_bytes (head_words s.header)) s

-- What the file holds stays where it is when only the header in memory is set.
pub Holds-set_header :
    (h : SectHead) (s : Sect) (c : ℕ) (cs : List ℕ)
    → h.file_offset ≡ s.header.file_offset
    → Holds s c cs
    → Holds (record s { header = h }) c cs
Holds-set_header h s c cs e held = record {
  same = subst (λ k. bytes s.filp.byte (k + c) (length cs) ≡ cs) (sym e) held.same;
  inside = omega (arith, e, held.inside);
}

-- After a sync the file holds the header.
pub Holds-synced_head : (s : Sect) → Holds (synced s) 0 (words_bytes (head_words (synced s).header))
unfolding synced stored
Holds-synced_head s = Holds-stored_self 0 (words_bytes (head_words s.header)) s

pub Holds-IsSynced : (s : Sect) → Holds s 0 (words_bytes (head_words s.header)) → IsSynced s
unfolding synced stored
Holds-IsSynced s h = λ i. record s {
  filp =
      put_bytes-same (s.header.file_offset + 0) (words_bytes (head_words s.header)) s.filp h.same
        h.inside i;
}

-- The first byte of what the file holds.
pub Holds_first :
    (s : Sect) (soff b : ℕ) (bs : List ℕ) → Holds s soff (b ∷ bs) → Holds s soff (b ∷ [])
unfolding bytes
Holds_first s soff b bs h = record {
  same = ap (λ x. x ∷ []) (first h.same);
  inside = inr (omega (arith, h.inside));
}
  where
    first : {x y : ℕ} {xs ys : List ℕ} → x ∷ xs ≡ y ∷ ys → x ≡ y
    first e = cc
