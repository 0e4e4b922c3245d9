-- ===== src/File/Layout.antt =====
-- Where the sections of a file lie: one behind the other, so that an offset finds its section.
use nosql_gql_dbms.Base.{
  sym, ◌≢◌, set, Outcome, ℕ, zero, suc, ◌+◌, ◌≤◌, ◌<◌, ◌≡◌, ◌∙◌, ◌⊎◌, inl, refl, ap, List, [], ◌∷◌,
  ◌++◌, arith, some, get_elem?, ok, words_bytes, length-words_bytes,
}
use nosql_gql_dbms.Stdio.{Stream, max_pos}
use nosql_gql_dbms.Stdio.Laws.{IsSeekable, write_at-ok, put_bytes}
use nosql_gql_dbms.Section.Header.{Sect, SectHead, section_size, new_header, get_fileoff}
use nosql_gql_dbms.Section.Header.Laws.{ctor-moved, synced, stored}
use nosql_gql_dbms.Section.Extents.Frame.{Separate}
use nosql_gql_dbms.File.{
  File, add_sect_ext, shift_lsp, head_sync, sect_of, get_sect_ext, section_of, no_head,
}

-- The sections lie in the file below `p`.
abbrev pub Below : ℕ → List SectHead → Type 0
Below p [] = Unit
Below p (h ∷ hs) = (h.file_offset + section_size ≤ p) × Below p hs

-- The section of `h` shares no byte with those of the list.
abbrev pub ApartFrom : SectHead → List SectHead → Type 0
ApartFrom h [] = Unit
ApartFrom h (k ∷ ks) =
    ((h.file_offset + section_size ≤ k.file_offset)
      ⊎ (k.file_offset + section_size ≤ h.file_offset))
    × ApartFrom h ks

abbrev pub AllApart : List SectHead → Type 0
AllApart [] = Unit
AllApart (h ∷ hs) = ApartFrom h hs × AllApart hs

-- The sections are below the place of the next one, and those of entities are apart.
pub record IsLaidOut (f : File) : Type 0 where
  pub extents : Below f.lst_sect_ptr f.f_extent
  pub types : Below f.lst_sect_ptr f.f_types
  pub apart : AllApart f.f_extent
  pub seekable : IsSeekable f.filp
  pub reachable : f.lst_sect_ptr < max_pos

apart_at :
    (h k : SectHead) (hs : List SectHead) (i : ℕ)
    → ApartFrom h hs
    → get_elem? hs i ≡ some k
    → (h.file_offset + section_size ≤ k.file_offset)
      ⊎ (k.file_offset + section_size ≤ h.file_offset)
apart_at h k [] i a e = cc
apart_at h k (x ∷ hs) zero (a, as_) e =
    let same : x ≡ k = cc in omega (arith, a, ap (λ (y : SectHead). y.file_offset) same)
apart_at h k (x ∷ hs) (suc i) (a, as_) e = apart_at h k hs i as_ e

sect_of-get_elem? :
    (hs : List SectHead) (p i n foff : ℕ) (h : SectHead)
    → Below p hs
    → p < max_pos
    → AllApart hs
    → get_elem? hs i ≡ some h
    → h.file_offset ≤ foff
    → foff < h.file_offset + section_size
    → sect_of hs foff n ≡ some (n + i)
unfolding sect_of
sect_of-get_elem? [] p i n foff h b r a e lo hi = cc
sect_of-get_elem? (x ∷ hs) p zero n foff h b r a e lo hi =
    let same : x ≡ h = cc in ground (arith, b, r, lo, hi, ap (λ (y : SectHead). y.file_offset) same)
sect_of-get_elem? (x ∷ hs) p (suc i) n foff h b r a e lo hi =
    let rest : sect_of hs foff (n + 1) ≡ some (n + 1 + i) =
      sect_of-get_elem? hs p i (n + 1) foff h b.1 r a.1 e lo hi in
    ground (arith, rest, b, r, lo, hi, apart_at x h hs i a.0 e)

pub Below-at :
    (p : ℕ) (k : SectHead) (hs : List SectHead) (i : ℕ)
    → Below p hs
    → get_elem? hs i ≡ some k
    → k.file_offset + section_size ≤ p
Below-at p k [] i b e = cc
Below-at p k (x ∷ hs) zero b e =
    let same : x ≡ k = cc in omega (arith, b, ap (λ (y : SectHead). y.file_offset) same)
Below-at p k (x ∷ hs) (suc i) b e = Below-at p k hs i b.1 e

-- In a file whose sections are laid out apart, the offset of a place in a section of entities leads
-- `get_sect_ext` to that section.
pub get_sect_ext-get_fileoff :
    (f : File) (i soff : ℕ) (h : SectHead)
    → IsLaidOut f
    → get_elem? f.f_extent i ≡ some h
    → soff < section_size
    → get_sect_ext f (get_fileoff h soff) ≡ some i
unfolding get_sect_ext
get_sect_ext-get_fileoff f i soff h l e p =
    let inside : h.file_offset + section_size ≤ f.lst_sect_ptr =
      Below-at f.lst_sect_ptr h f.f_extent i l.extents e in
    sect_of-get_elem? f.f_extent f.lst_sect_ptr i 0 (get_fileoff h soff) h l.extents l.reachable
      l.apart e (omega (arith, inside, l.reachable)) (omega (arith, inside, l.reachable))
    ∙ ap (λ k. some k) (omega arith)

pub Below-append :
    (p : ℕ) (hs : List SectHead) → Below p hs → Below (p + section_size) (hs ++ (new_header p ∷ []))
Below-append p [] b = omega arith
Below-append p (h ∷ hs) b = (omega (arith, b), Below-append p hs b.1)

pub Below-later : (p : ℕ) (hs : List SectHead) → Below p hs → Below (p + section_size) hs
Below-later p [] b = tt
Below-later p (h ∷ hs) b = (omega (arith, b), Below-later p hs b.1)

ApartFrom-append :
    (p : ℕ) (h : SectHead) (hs : List SectHead)
    → h.file_offset + section_size ≤ p
    → ApartFrom h hs
    → ApartFrom h (hs ++ (new_header p ∷ []))
ApartFrom-append p h [] b a = (inl b, tt)
ApartFrom-append p h (k ∷ hs) b a = (a.0, ApartFrom-append p h hs b a.1)

pub AllApart-append :
    (p : ℕ) (hs : List SectHead) → Below p hs → AllApart hs → AllApart (hs ++ (new_header p ∷ []))
AllApart-append p [] b a = (tt, tt)
AllApart-append p (h ∷ hs) b a = (ApartFrom-append p h hs b.0 a.0, AllApart-append p hs b.1 a.1)

-- the file with the place of the next section moved, and written
abbrev pub shifted : ℕ → File → File
shifted n f = record f {
  lst_sect_ptr = f.lst_sect_ptr + n;
  filp = put_bytes 0 (words_bytes ((f.lst_sect_ptr + n) ∷ [])) f.filp;
}

-- the file with a new section of entities
abbrev pub extended : File → File
extended f = record f {
  f_extent = f.f_extent ++ (new_header f.lst_sect_ptr ∷ []);
  filp = (synced (section_of (new_header f.lst_sect_ptr) f)).filp;
}

pub shift_lsp-ok :
    (n : ℕ) (f : File)
    → IsSeekable f.filp
    → f.lst_sect_ptr + n < max_pos
    → shift_lsp n f ≡ (ok tt, shifted n f)
unfolding shift_lsp head_sync
shift_lsp-ok n f q p =
    ap (λ k. head_sync (record f { lst_sect_ptr = k })) (omega (arith, p))
    ∙ ap
        (λ (r : Outcome (Unit {0}) × Stream).
          (r.0, record f { lst_sect_ptr = f.lst_sect_ptr + n; filp = r.1 }))
        (write_at-ok 0 (words_bytes ((f.lst_sect_ptr + n) ∷ [])) f.filp q (omega (arith, p))
          (omega (arith, length-words_bytes ((f.lst_sect_ptr + n) ∷ []))))

pub add_sect_ext-ok :
    (f : File)
    → IsSeekable f.filp
    → f.lst_sect_ptr + section_size < max_pos
    → add_sect_ext f ≡ (ok tt, shifted section_size (extended f))
unfolding add_sect_ext synced stored
add_sect_ext-ok f q p =
    ap
      (λ (r : Outcome (Unit {0}) × Sect).
        shift_lsp section_size
          (record f { f_extent = f.f_extent ++ (r.1.header ∷ []); filp = r.1.filp }))
      (ctor-moved f.lst_sect_ptr (section_of no_head f) p q)
    ∙ shift_lsp-ok section_size (extended f) q p

pub extended-IsLaidOut :
    (f : File)
    → IsLaidOut f
    → f.lst_sect_ptr + section_size < max_pos
    → IsLaidOut (shifted section_size (extended f))
unfolding synced stored
extended-IsLaidOut f l p = record {
  extents = Below-append f.lst_sect_ptr f.f_extent l.extents;
  types = Below-later f.lst_sect_ptr f.f_types l.types;
  apart = AllApart-append f.lst_sect_ptr f.f_extent l.extents l.apart;
  seekable = l.seekable;
  reachable = p;
}

-- Where `fseek` still reaches the end of one more section, `file_add_sect_ext` succeeds with a new
-- section of entities at the end of the list, at the place of the next one, and the sections stay laid
-- out apart.
pub add_sect_ext-IsLaidOut :
    (f : File)
    → IsLaidOut f
    → f.lst_sect_ptr + section_size < max_pos
    → (g : File) × (add_sect_ext f ≡ (ok tt, g))
      × (g.f_extent ≡ f.f_extent ++ (new_header f.lst_sect_ptr ∷ []))
      × (g.f_types ≡ f.f_types)
      × (g.lst_sect_ptr ≡ f.lst_sect_ptr + section_size)
      × IsLaidOut g
add_sect_ext-IsLaidOut f l p = (
  shifted section_size (extended f),
  add_sect_ext-ok f l.seekable p,
  refl,
  refl,
  refl,
  extended-IsLaidOut f l p,
)

pub Separate-AllApart :
    (hs : List SectHead) (i j : ℕ) (h k : SectHead)
    → AllApart hs
    → get_elem? hs i ≡ some h
    → get_elem? hs j ≡ some k
    → i ≢ j
    → Separate h k
Separate-AllApart [] i j h k a e f n = cc
Separate-AllApart (x ∷ hs) zero zero h k a e f n = absurd (n refl)
Separate-AllApart (x ∷ hs) zero (suc j) h k a e f n =
    let same : x ≡ h = cc in
    omega (arith, apart_at x k hs j a.0 f, ap (λ (y : SectHead). y.file_offset) same)
Separate-AllApart (x ∷ hs) (suc i) zero h k a e f n =
    let same : x ≡ k = cc in
    omega (arith, apart_at x h hs i a.0 e, ap (λ (y : SectHead). y.file_offset) same)
Separate-AllApart (x ∷ hs) (suc i) (suc j) h k a e f n =
    Separate-AllApart hs i j h k a.1 e f (λ m. n (ap suc m))

-- The layout does not see a change of a header that keeps its place.
module _ (k : SectHead) where
  pub Below-set :
      (p : ℕ) (hs : List SectHead) (i : ℕ)
      → k.file_offset + section_size ≤ p
      → Below p hs
      → Below p (set hs i k)
  Below-set p [] i h b = tt
  Below-set p (x ∷ hs) zero h b = (h, b.1)
  Below-set p (x ∷ hs) (suc i) h b = (b.0, Below-set p hs i h b.1)

  ApartFrom-set :
      (h : SectHead) (hs : List SectHead) (i : ℕ)
      → (h.file_offset + section_size ≤ k.file_offset)
        ⊎ (k.file_offset + section_size ≤ h.file_offset)
      → ApartFrom h hs
      → ApartFrom h (set hs i k)
  ApartFrom-set h [] i a b = tt
  ApartFrom-set h (x ∷ hs) zero a b = (a, b.1)
  ApartFrom-set h (x ∷ hs) (suc i) a b = (b.0, ApartFrom-set h hs i a b.1)

  ApartFrom-same :
      (h : SectHead) (hs : List SectHead)
      → k.file_offset ≡ h.file_offset
      → ApartFrom h hs
      → ApartFrom k hs
  ApartFrom-same h [] e a = tt
  ApartFrom-same h (x ∷ hs) e a = (omega (arith, a.0), ApartFrom-same h hs e a.1)

  pub AllApart-set :
      (h : SectHead) (hs : List SectHead) (i : ℕ)
      → get_elem? hs i ≡ some h
      → k.file_offset ≡ h.file_offset
      → AllApart hs
      → AllApart (set hs i k)
  AllApart-set h [] i e o a = tt
  AllApart-set h (x ∷ hs) zero e o a =
      let same : x ≡ h = cc in
      (ApartFrom-same x hs (o ∙ ap (λ (y : SectHead). y.file_offset) (sym same)) a.0, a.1)
  AllApart-set h (x ∷ hs) (suc i) e o a = (
    ApartFrom-set x hs i (omega (arith, apart_at x h hs i a.0 e)) a.0,
    AllApart-set h hs i e o a.1,
  )
