-- ===== src/File.antt =====
-- `File` of dbms/src/file: the header of the data file, and its sections in memory.
pub mod Layout
pub mod WellFormed
pub mod Put
pub mod Grow
pub mod Place
pub mod Relink
pub mod Tree
mod Tests
pub mod Docs
pub mod TypeDefs
pub mod Find
use nosql_gql_dbms.Base.{pure, get, attempt}
use nosql_gql_dbms.Base.{length}
use nosql_gql_dbms.Base.{◌>>=◌, ◌>>◌}
use nosql_gql_dbms.Base.{
  ℕ, zero, suc, ◌+◌, ◌&&◌, List, [], ◌∷◌, ◌++◌, Option, none, some, ltb, leb, if◌then◌else◌,
  get_elem?, set, words_bytes, u64, ok, failed, fault, M, modify,
}
use nosql_gql_dbms.Stdio.{Stream, read_at, write_at}
use nosql_gql_dbms.Section.Header
use nosql_gql_dbms.Section.Header.{Sect, SectHead, section_size}

-- `sizeof(File_head_entity)`
abbrev pub file_head_size : ℕ
file_head_size = 8

-- The lists `f_extent` and `f_types` as the headers of their sections; all share the one stream.
pub record File : Type 0 where
  pub lst_sect_ptr : ℕ
  pub f_extent : List SectHead
  pub f_types : List SectHead
  pub filp : Stream

abbrev pub on_stream : {A : Type 0} → M Stream A → M File A
on_stream m f = let (o, t) = m f.filp in (o, record f { filp = t })

-- `file_head_read` has no guard for a size of 0, `file_head_write` has.
unfoldable pub head_read : ℕ → ℕ → M File (List ℕ)
head_read foff sz = on_stream (read_at foff sz)

unfoldable pub head_write : ℕ → List ℕ → M File (Unit {0})
head_write foff [] f = (ok tt, f)
head_write foff (d ∷ ds) f = on_stream (write_at foff (d ∷ ds)) f

unfoldable pub head_sync : M File (Unit {0})
head_sync f = on_stream (write_at 0 (words_bytes (f.lst_sect_ptr ∷ []))) f

unfoldable pub head_ctor : M File (Unit {0})
head_ctor = do modify (λ f. record f { lst_sect_ptr = file_head_size }); head_sync

unfoldable pub shift_lsp : ℕ → M File (Unit {0})
shift_lsp shift = do
  modify (λ f. record f { lst_sect_ptr = u64 (f.lst_sect_ptr + shift) })
  head_sync

-- `file_ctor` on the stream that `fopen` returned.
unfoldable pub ctor : M File (Unit {0})
ctor = do modify (λ f. record f { f_extent = []; f_types = [] }); head_ctor

-- The section of a header, over the stream of the file.
abbrev pub section_of : SectHead → File → Sect
section_of h f = record { header = h; filp = f.filp }

-- A call on the i-th section of entities, and on the i-th section of types.
unfoldable pub on_ext : {A : Type 0} → ℕ → M Sect A → M File A
on_ext i m f = elim (get_elem? f.f_extent i) [
  | none ↦ (fault, f)
  | some h ↦
      let (o, s) = m (section_of h f) in
      (o, record f { f_extent = set f.f_extent i s.header; filp = s.filp })
]

unfoldable pub on_types : {A : Type 0} → ℕ → M Sect A → M File A
on_types i m f = elim (get_elem? f.f_types i) [
  | none ↦ (fault, f)
  | some h ↦
      let (o, s) = m (section_of h f) in
      (o, record f { f_types = set f.f_types i s.header; filp = s.filp })
]

-- `while (cur != NULL && call(cur) == FAILED) cur = cur->next;` over the sections from the i-th on,
-- of which `left` are left. `none` is NULL.
unfoldable pub first_fit : {A : Type 0} → (ℕ → M File A) → ℕ → ℕ → M File (Option (ℕ × A))
first_fit call zero i f = (ok none, f)
first_fit call (suc left) i f =
    let (o, g) = call i f in
    elim o [
      | ok a ↦ (ok (some (i, a)), g)
      | failed ↦ first_fit call left (i + 1) g
      | fault ↦ (fault, g)
    ]

-- A header that `calloc` cleared, before the constructor runs on it.
abbrev pub no_head : SectHead
no_head = record { free_space = 0; next_ptr = 0; lst_itm_ptr = 0; fst_rec_ptr = 0; file_offset = 0 }

-- `file_add_sect_ext` and `file_add_sect_types`: the status of the constructor is thrown away.
unfoldable pub add_sect_ext : M File (Unit {0})
add_sect_ext f =
    let (o, s) = Header.ctor f.lst_sect_ptr (section_of no_head f) in
    shift_lsp section_size (record f { f_extent = f.f_extent ++ (s.header ∷ []); filp = s.filp })

unfoldable pub add_sect_types : M File (Unit {0})
add_sect_types f =
    let (o, s) = Header.ctor f.lst_sect_ptr (section_of no_head f) in
    shift_lsp section_size (record f { f_types = f.f_types ++ (s.header ∷ []); filp = s.filp })

-- The loop of `get_sect_ext` and of `get_sect_types`: the index of the section of an offset.
unfoldable pub sect_of : List SectHead → ℕ → ℕ → Option ℕ
sect_of [] foff i = none
sect_of (h ∷ hs) foff i =
    if leb h.file_offset foff && ltb foff (u64 (h.file_offset + section_size))
    then some i
    else sect_of hs foff (i + 1)

unfoldable pub get_sect_ext : File → ℕ → Option ℕ
unfolding sect_of
get_sect_ext f foff = sect_of f.f_extent foff 0

unfoldable pub get_sect_types : File → ℕ → Option ℕ
unfolding sect_of
get_sect_types f foff = sect_of f.f_types foff 0

-- `file_offset` of a section found, for `sect_head_get_fileoff` and `sect_head_get_sectoff`.
abbrev pub head_at : List SectHead → ℕ → SectHead
head_at hs i = elim (get_elem? hs i) [ none ↦ no_head | some h ↦ h ]

-- `list_Sect_ext_dtor` and `list_Sect_types_dtor`: each section is closed, and its status thrown away.
unfoldable pub dtor_exts : ℕ → ℕ → M File (Unit {0})
unfolding on_ext
dtor_exts zero i = pure tt
dtor_exts (suc left) i = do _ ← (λ f. attempt (on_ext i Header.dtor f)); dtor_exts left (i + 1)

unfoldable pub dtor_types : ℕ → ℕ → M File (Unit {0})
unfolding on_types
dtor_types zero i = pure tt
dtor_types (suc left) i = do _ ← (λ f. attempt (on_types i Header.dtor f)); dtor_types left (i + 1)

-- `file_head_dtor`, up to the closing of the stream
unfoldable pub head_dtor : M File (Unit {0})
unfolding head_sync
head_dtor = do modify (λ f. record f { lst_sect_ptr = 0 }); head_sync

unfoldable pub dtor : M File (Unit {0})
unfolding dtor_exts dtor_types head_dtor
dtor = do f ← get; dtor_exts (length f.f_extent) 0; dtor_types (length f.f_types) 0; head_dtor
