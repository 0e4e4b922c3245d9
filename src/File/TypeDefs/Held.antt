-- ===== src/File/TypeDefs/Held.antt =====
-- A file whose sections of types stand for lists of types, and a write into one of them.
use nosql_gql_dbms.Base.{lt_of_get_elem?, get_elem?_of_lt}
use nosql_gql_dbms.File.{sect_of, get_sect_types}
use nosql_gql_dbms.Base.{[], ◌∷◌, ◌<◌, ◌+◌, suc}
use nosql_gql_dbms.Base.{
  ℕ, ◌≤◌, ◌≡◌, ◌≢◌, refl, sym, ap, ◌∙◌, subst, ◌⊎◌, inl, inr, List, Option, none, some, arith,
  length, fault, Outcome, M, ◌==◌, Bool-cases, get_elem?, set,
}
use nosql_gql_dbms.Stdio.{Stream}
use nosql_gql_dbms.Stdio.Laws.{IsSeekable}
use nosql_gql_dbms.Base.{get_elem?-set_self, get_elem?-set_ne}
use nosql_gql_dbms.Base.{==→ne, ==→eq}
use nosql_gql_dbms.File.Layout.{Separate-AllApart}
use nosql_gql_dbms.Section.Within.{Within}
use nosql_gql_dbms.File.Grow.{Grows-AllSpared}
use nosql_gql_dbms.Base.{length-set}
use nosql_gql_dbms.Section.Extents.Frame.{Separate, Spares-Within, over, Spares}
use nosql_gql_dbms.File.{File}
use nosql_gql_dbms.File.WellFormed.{IsWellFormed, AllSpared, IsHead-Spares, Grows}
use nosql_gql_dbms.File.Layout.{AllApart-set, Below-set, AllApart, Below-at}
use nosql_gql_dbms.Section.Types.Cells.{Contents, Contents-Spares}
use nosql_gql_dbms.Json.TypeDef.{TypeDef}
use nosql_gql_dbms.Section.Header.{SectHead, Sect}
use nosql_gql_dbms.File.{on_types}

-- The section of `h` stands for the types, behind the header of the file.
pub record IsTypes (s : Stream) (h : SectHead) (ts : List TypeDef) : Type 0 where
  pub contents : Contents (over h s) ts
  pub above : 8 ≤ h.file_offset

-- The sections of types stand for these lists, in their order, apart from each other and from the
-- sections of entities.
pub record HasTypes (f : File) (tss : List (List TypeDef)) : Type 0 where
  pub count : length f.f_types ≡ length tss
  pub each :
      (i : ℕ) (h : SectHead) (ts : List TypeDef)
      → get_elem? f.f_types i ≡ some h
      → get_elem? tss i ≡ some ts
      → IsTypes f.filp h ts
  pub apart : AllApart f.f_types
  pub cross :
      (i k : ℕ) (h e : SectHead)
      → get_elem? f.f_types i ≡ some h
      → get_elem? f.f_extent k ≡ some e
      → Separate h e

pub IsTypes-Spares :
    (h : SectHead) (s t : Stream) (ts : List TypeDef)
    → (IsSeekable s → IsSeekable t)
    → Spares h s t
    → IsTypes s h ts
    → IsTypes t h ts
IsTypes-Spares h s t ts q p c = record {
  contents = Contents-Spares h s t ts q p c.contents;
  above = c.above;
}

-- The file with the i-th section of types as `t` leaves it.
abbrev pub put_types : ℕ → Sect → File → File
put_types i t f = record f { f_types = set f.f_types i t.header; filp = t.filp }

pub on_types-ok :
    {A : Type 0} (i : ℕ) (m : M Sect A) (f : File) (h : SectHead) (a : Outcome A) (t : Sect)
    → get_elem? f.f_types i ≡ some h
    → m (over h f.filp) ≡ (a, t)
    → on_types i m f ≡ (a, put_types i t f)
unfolding on_types
on_types-ok i m f h a t e r =
    ap
      (λ (o : Option SectHead). elim o [
        | none ↦ (fault, f)
        | some x ↦
            let (b, s) = m (over x f.filp) in
            (b, record f { f_types = set f.f_types i s.header; filp = s.filp })
      ])
      e
    ∙ ap
        (λ (x : Outcome _ × Sect).
          (x.0, record f { f_types = set f.f_types i x.1.header; filp = x.1.filp }))
        r

-- What stands at an index after `set`.
get_elem?-set :
    {A : Type 0} (xs : List A) (i k : ℕ) (x y z : A)
    → get_elem? xs i ≡ some x
    → get_elem? (set xs i y) k ≡ some z
    → ((i ≡ k) × (y ≡ z)) ⊎ ((i ≢ k) × (get_elem? xs k ≡ some z))
get_elem?-set xs i k x y z at e = elim (Bool-cases (i == k)) [
  | inl b ↦ let p : i ≡ k = ==→eq i k b in inl (p, cc (get_elem?-set_self xs i x y at, p, e))
  | inr b ↦ let p : i ≢ k = ==→ne i k b in inr (p, sym (get_elem?-set_ne xs i k y p) ∙ e)
]

-- The sections of entities are the same, and spared.
pub record KeepsExts (f g : File) : Type 0 where
  pub exts : g.f_extent ≡ f.f_extent
  pub spared : AllSpared f g.filp

pub KeepsExts-trans : (f g h : File) → KeepsExts f g → KeepsExts g h → KeepsExts f h
KeepsExts-trans f g h a b = record {
  exts = b.exts ∙ a.exts;
  spared = λ i e at c cs lo x.
      b.spared i e (ap (λ es. get_elem? es i) a.exts ∙ at) c cs lo (a.spared i e at c cs lo x);
}

pub KeepsExts-Grows : (f g : File) → IsWellFormed f → KeepsExts f g → Grows f g
KeepsExts-Grows f g wf a =
    Grows-AllSpared f g wf (λ i h at. ap (λ es. get_elem? es i) a.exts ∙ at) a.spared

sect_of-low :
    (hs : List SectHead) (foff n : ℕ)
    → ((i : ℕ) (h : SectHead) → get_elem? hs i ≡ some h → 8 ≤ h.file_offset)
    → foff < 8
    → sect_of hs foff n ≡ none
unfolding sect_of
sect_of-low [] foff n above p = refl
sect_of-low (h ∷ hs) foff n above p =
    ground (arith, above 0 h refl, p, sect_of-low hs foff (n + 1) (λ i x e. above (suc i) x e) p)

-- No type stands in the header of the file.
pub get_sect_types-low :
    (f : File) (tss : List (List TypeDef)) (foff : ℕ)
    → HasTypes f tss
    → foff < 8
    → get_sect_types f foff ≡ none
unfolding get_sect_types
get_sect_types-low f tss foff has p =
    sect_of-low f.f_types foff 0
      (λ i h at.
        let (ts, at_ts) =
          get_elem?_of_lt tss i (omega (arith, has.count, lt_of_get_elem? f.f_types i h at)) in
        (has.each i h ts at at_ts).above)
      p

-- An operation in the i-th section of types.
module _ (i : ℕ) (f : File) (h : SectHead) (t : Sect) (ts ts' : List TypeDef)
    (tss : List (List TypeDef)) (wf : IsWellFormed f) (has : HasTypes f tss)
    (at : get_elem? f.f_types i ≡ some h) (at_ts : get_elem? tss i ≡ some ts)
    (w : Within (over h f.filp) t) where
  spared_exts : AllSpared f t.filp
  spared_exts k e ate =
      Spares-Within e (over h f.filp) t w (omega (arith, has.cross i k h e at ate))

  pub put_types-IsWellFormed : IsWellFormed (put_types i t f)
  put_types-IsWellFormed = record {
    laid = record {
      extents = wf.laid.extents;
      types =
          Below-set t.header f.lst_sect_ptr f.f_types i
            (omega (arith, w.offset, Below-at f.lst_sect_ptr h f.f_types i wf.laid.types at))
            wf.laid.types;
      apart = wf.laid.apart;
      seekable = w.seeks wf.laid.seekable;
      reachable = wf.laid.reachable;
    };
    start = wf.start;
    room = wf.room;
    heads =
        λ k e ate. IsHead-Spares e f.filp t.filp w.seeks (spared_exts k e ate) (wf.heads k e ate);
  }

  pub put_types-KeepsExts : KeepsExts f (put_types i t f)
  put_types-KeepsExts = record { exts = refl; spared = spared_exts }

  pub put_types-HasTypes : IsTypes t.filp t.header ts' → HasTypes (put_types i t f) (set tss i ts')
  put_types-HasTypes new = record {
    count = length-set f.f_types i t.header ∙ has.count ∙ sym (length-set tss i ts');
    each = each;
    apart = AllApart-set t.header h f.f_types i at w.offset has.apart;
    cross = cross;
  }
    where
      each :
          (k : ℕ) (x : SectHead) (us : List TypeDef)
          → get_elem? (set f.f_types i t.header) k ≡ some x
          → get_elem? (set tss i ts') k ≡ some us
          → IsTypes t.filp x us
      each k x us p q = elim (get_elem?-set f.f_types i k h t.header x at p) [
        | inl (n, same) ↦ elim (get_elem?-set tss i k ts ts' us at_ts q) [
          | inl (m, sames) ↦
              subst (λ (z : SectHead). IsTypes t.filp z us) same
                (subst (λ (zs : List TypeDef). IsTypes t.filp t.header zs) sames new)
          | inr (m, y) ↦ absurd (m n)
        ]
        | inr (n, y) ↦ elim (get_elem?-set tss i k ts ts' us at_ts q) [
          | inl (m, sames) ↦ absurd (n m)
          | inr (m, z) ↦
              IsTypes-Spares x f.filp t.filp us w.seeks
                (Spares-Within x (over h f.filp) t w
                  (Separate-AllApart f.f_types k i x h has.apart y at (λ r. n (sym r))))
                (has.each k x us y z)
        ]
      ]

      cross :
          (j k : ℕ) (x e : SectHead)
          → get_elem? (set f.f_types i t.header) j ≡ some x
          → get_elem? f.f_extent k ≡ some e
          → Separate x e
      cross j k x e p q = elim (get_elem?-set f.f_types i j h t.header x at p) [
        | inl (n, same) ↦
            omega
              (arith, has.cross i k h e at q, w.offset, ap (λ (z : SectHead). z.file_offset) same)
        | inr (n, y) ↦ has.cross j k x e y q
      ]
