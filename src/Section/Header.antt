-- ===== src/Section/Header.antt =====
-- `Sect_head` of dbms/src/section/header.c with include/section/header.h and header_p.h.
pub mod Laws
pub mod Compress
use nosql_gql_dbms.Base.{
  attempt, ℕ, zero, suc, ◌+◌, ◌-◌, Bool, true, ◌&&◌, Option, none, some, List, [], ◌∷◌, ◌==◌,
  if◌then◌else◌, u64, u64_mod, words_bytes, Outcome, ok, failed, fault, M, and_then, stop, ◌>>=◌,
  ◌>>◌, get, modify,
}
use nosql_gql_dbms.Stdio.{Stream, read_at, write_at}

-- `SECTION_SIZE`
abbrev pub section_size : ℕ
section_size = 8192

-- `sizeof(Sect_head_entity)`: the first four members, which are what the file holds.
abbrev pub head_size : ℕ
head_size = 32

-- `Sect_head` without `filp`. `lst_itm_ptr` is the first free cell behind the items,
-- `fst_rec_ptr` the first byte of the records.
pub record SectHead : Type 0 where
  pub free_space : ℕ
  pub next_ptr : ℕ
  pub lst_itm_ptr : ℕ
  pub fst_rec_ptr : ℕ
  pub file_offset : ℕ

-- A section together with the stream that its `filp` points at.
pub record Sect : Type 0 where
  pub header : SectHead
  pub filp : Stream

abbrev pub head_words : SectHead → List ℕ
head_words h = h.free_space ∷ h.next_ptr ∷ h.lst_itm_ptr ∷ h.fst_rec_ptr ∷ []

abbrev pub on_filp : {A : Type 0} → M Stream A → M Sect A
on_filp m s = let (o, f) = m s.filp in (o, record s { filp = f })

abbrev pub set_header : SectHead → M Sect (Unit {0})
set_header h = modify (λ s. record s { header = h })

abbrev pub get_fileoff : SectHead → ℕ → ℕ
get_fileoff h soff = u64 (h.file_offset + soff)

abbrev pub get_sectoff : SectHead → ℕ → ℕ
get_sectoff h foff = u64 (foff + u64_mod - h.file_offset)

unfoldable pub sync : M Sect (Unit {0})
sync s = on_filp (write_at s.header.file_offset (words_bytes (head_words s.header))) s

abbrev pub new_header : ℕ → SectHead
new_header offset = record {
  free_space = section_size - head_size;
  next_ptr = 0;
  lst_itm_ptr = head_size;
  fst_rec_ptr = section_size;
  file_offset = offset;
}

unfoldable pub ctor : ℕ → M Sect (Unit {0})
ctor offset = do set_header (new_header offset); sync

-- The memory of the header is freed; what is left is the cleared header in the file.
unfoldable pub dtor : M Sect (Unit {0})
dtor = do
  s ← get
  set_header (record s.header { free_space = 0; next_ptr = 0; lst_itm_ptr = 0; fst_rec_ptr = 0 })
  sync

unfoldable pub shift_lip : ℕ → M Sect (Unit {0})
shift_lip shift = do
  s ← get
  set_header (record s.header {
    free_space = u64 (s.header.free_space + u64_mod - shift);
    lst_itm_ptr = u64 (s.header.lst_itm_ptr + shift);
  })
  sync

unfoldable pub shift_frp : ℕ → M Sect (Unit {0})
shift_frp shift = do
  s ← get
  set_header (record s.header {
    free_space = u64 (s.header.free_space + shift);
    fst_rec_ptr = u64 (s.header.fst_rec_ptr + shift);
  })
  sync

unfoldable pub read : ℕ → ℕ → M Sect (List ℕ)
read soff sz s = if sz == 0 then (ok [], s) else on_filp (read_at (get_fileoff s.header soff) sz) s

unfoldable pub write : ℕ → List ℕ → M Sect (Unit {0})
write soff [] s = (ok tt, s)
write soff (d ∷ ds) s = on_filp (write_at (get_fileoff s.header soff) (d ∷ ds)) s

-- `memcmp(rd_data, zr_data, itm_size) == 0`
abbrev pub is_zero : List ℕ → Bool
is_zero [] = true
is_zero (b ∷ bs) = (b == 0) && is_zero bs

-- A buffer after a read whose status is thrown away: one that fails, as its place cannot be reached,
-- leaves the bytes of before.
unfoldable pub after_read : Option (List ℕ) → Option (List ℕ) → Option (List ℕ)
after_read old none = old
after_read old (some bs) = some bs

-- The loop of `sect_head_cmprs_lip` on fuel, with the buffer `rd_data`. Comparing a buffer that
-- no read filled is a fault.
unfoldable pub cmprs_lip_loop : ℕ → ℕ → Option (List ℕ) → M Sect (Unit {0})
unfolding after_read
cmprs_lip_loop zero itm_size rd_data s = (fault, s)
cmprs_lip_loop (suc fuel) itm_size rd_data s =
    let h = s.header in
    let lip = u64 (h.lst_itm_ptr + u64_mod - itm_size) in
    let s' : Sect = record s {
      header = record h { lst_itm_ptr = lip; free_space = u64 (h.free_space + itm_size) };
    } in
    let rest =
      and_then (attempt (read (u64 (lip + u64_mod - itm_size)) itm_size s'))
        (λ got. cmprs_lip_loop fuel itm_size (after_read rd_data got)) in
    if h.lst_itm_ptr == head_size
    then (ok tt, s)
    else elim rd_data [ none ↦ (fault, s) | some bs ↦ if is_zero bs then rest else (ok tt, s) ]

-- `lst_itm_ptr` rounds are enough, since each round takes at least one byte off it.
unfoldable pub cmprs_lip : ℕ → M Sect (Unit {0})
unfolding cmprs_lip_loop
cmprs_lip itm_size s =
    let h = s.header in
    and_then (attempt (read (u64 (h.lst_itm_ptr + u64_mod - itm_size)) itm_size s))
      λ rd_data. cmprs_lip_loop (suc h.lst_itm_ptr) itm_size rd_data >> sync

-- The loop of `sect_head_cmprs_frp` on fuel, with the byte `chr` of before.
unfoldable pub cmprs_frp_loop : ℕ → Option (List ℕ) → M Sect (Unit {0})
unfolding after_read
cmprs_frp_loop zero old s = (fault, s)
cmprs_frp_loop (suc fuel) old s = and_then (attempt (read s.header.fst_rec_ptr 1 s)) λ got t.
    let chr = after_read old got in
    let h = t.header in
    let t' : Sect = record t {
      header = record h {
        fst_rec_ptr = u64 (h.fst_rec_ptr + 1);
        free_space = u64 (h.free_space + 1);
      };
    } in
    let rest = cmprs_frp_loop fuel chr t' in
    if h.fst_rec_ptr == section_size
    then (ok tt, t)
    else elim chr [ none ↦ (fault, t) | some bs ↦ if is_zero bs then rest else (ok tt, t) ]

-- A round for each byte of the section is enough.
unfoldable pub cmprs_frp : M Sect (Unit {0})
unfolding cmprs_frp_loop
cmprs_frp = do cmprs_frp_loop (suc section_size) none; sync
