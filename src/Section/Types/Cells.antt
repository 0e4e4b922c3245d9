-- ===== src/Section/Types/Cells.antt =====
-- A section of types as the list of its types: `sect_types_write`, `sect_types_load` and
-- `sect_types_find` on it.
use nosql_gql_dbms.Stdio.Laws.{IsSeekable}
use nosql_gql_dbms.Section.Extents.Frame.{IsValid-over, over, Spares}
use nosql_gql_dbms.Section.Header.Laws.{Holds}
use nosql_gql_dbms.Stdio.{Stream}
use nosql_gql_dbms.Section.Header.{section_size}
use nosql_gql_dbms.Base.{◌⊎◌}
use nosql_gql_dbms.Section.Within.{Within}
use nosql_gql_dbms.Base.{
  refl, none, failed, ap, ℕ, zero, suc, ◌+◌, ◌≤◌, ◌<◌, ◌≡◌, ◌≢◌, ◌∙◌, inl, inr, List, [], ◌∷◌, ◌++◌,
  arith, length, ok, subst, step, lt→ltb, le→ltb_false, sym, some,
}
use nosql_gql_dbms.Text.{equal, string_cmp}
use nosql_gql_dbms.Json.TypeDef.{
  Attr, TypeDef, attr_bytes, type_bytes, attr_entity_size, type_entity_size, length-attr_bytes,
  length-type_bytes,
}
use nosql_gql_dbms.Section.Header.{Sect, SectHead, head_size}
use nosql_gql_dbms.Section.Header.Laws.{IsValid}
use nosql_gql_dbms.Section.Types.{write, load_loop, load, find_in, find}
use nosql_gql_dbms.Section.Types.Attrs.{AttrsAt, attr_entity}
use nosql_gql_dbms.Section.Types.RoundTrip.{
  TypeAt, IsTypeDef, WroteType, item_size, size_of, type_entity, read-TypeAt, write-WroteType,
}

-- From `i` up to the border of the items stand these types, one behind the other.
abbrev pub TypesAt : Sect → ℕ → List TypeDef → Type 0
TypesAt s i [] = i ≡ s.header.lst_itm_ptr
TypesAt s i (t ∷ ts) = TypeAt s i t × IsTypeDef t × TypesAt s (i + item_size t) ts

-- The section stands for the list of types.
pub record Contents (s : Sect) (ts : List TypeDef) : Type 0 where
  pub valid : IsValid s
  pub types : TypesAt s head_size ts

-- the types with their offsets
abbrev pub with_offsets : ℕ → List TypeDef → List (ℕ × TypeDef)
with_offsets i [] = []
with_offsets i (t ∷ ts) = (i, t) ∷ with_offsets (i + item_size t) ts

load_loop-ok :
    (ts : List TypeDef) (fuel i : ℕ) (s : Sect)
    → IsValid s
    → length ts < fuel
    → TypesAt s i ts
    → load_loop fuel i s ≡ (ok (with_offsets i ts), s)
unfolding load_loop
load_loop-ok ts zero i s v l c = absurd (omega arith)
load_loop-ok [] (suc fuel) i s v l c = rw (le→ltb_false i s.header.lst_itm_ptr (omega (arith, c)))
load_loop-ok (t ∷ ts) (suc fuel) i s v l (c, d, rest) =
    rw (lt→ltb i s.header.lst_itm_ptr (omega (arith, c.item_high))) (
      step _ (read-TypeAt t i s v d c)
      ∙ step _ (
          ap (λ k. load_loop fuel k s) (omega (arith, c.item_high, v.balance, v.high))
          ∙ load_loop-ok ts fuel (i + item_size t) s v (omega arith) rest))

length-TypesAt :
    (ts : List TypeDef) (i : ℕ) (s : Sect) → TypesAt s i ts → length ts + i ≤ s.header.lst_itm_ptr
length-TypesAt [] i s c = omega (arith, c)
length-TypesAt (t ∷ ts) i s (c, d, rest) = omega (arith, length-TypesAt ts (i + item_size t) s rest)

-- `sect_types_load` on a section that stands for a list of types ends, lists them with their offsets
-- in their order, and leaves the section and the file as they are.
pub type_load-Contents :
    (s : Sect) (ts : List TypeDef) → Contents s ts → load s ≡ (ok (with_offsets head_size ts), s)
unfolding load
type_load-Contents s ts c =
    load_loop-ok ts (suc s.header.lst_itm_ptr) head_size s c.valid
      (omega (arith, length-TypesAt ts head_size s c.types)) c.types

-- The first type of the name, with its offset.
pub data Finds (name : List ℕ) : List (ℕ × TypeDef) → ℕ → TypeDef → Type 0 where
  here :
      {i : ℕ} {t : TypeDef} {rest : List (ℕ × TypeDef)}
      → string_cmp t.name name ≡ equal
      → Finds name ((i, t) ∷ rest) i t
  later :
      {i j : ℕ} {t u : TypeDef} {rest : List (ℕ × TypeDef)}
      → string_cmp u.name name ≢ equal
      → Finds name rest i t
      → Finds name ((j, u) ∷ rest) i t

find_in-Finds :
    {name : List ℕ} {l : List (ℕ × TypeDef)} {i : ℕ} {t : TypeDef}
    → Finds name l i t
    → find_in name l ≡ some (i, t)
unfolding find_in
find_in-Finds (here e) = ground (arith, e)
find_in-Finds (later n f) = ground (arith, find_in-Finds f)

-- No type has the name.
abbrev pub Lacks : List ℕ → List TypeDef → Type 0
Lacks name [] = Unit
Lacks name (t ∷ ts) = (string_cmp t.name name ≢ equal) × Lacks name ts

find_in-Lacks :
    (name : List ℕ) (ts : List TypeDef) (i : ℕ)
    → Lacks name ts
    → find_in name (with_offsets i ts) ≡ none
unfolding find_in
find_in-Lacks name [] i l = refl
find_in-Lacks name (t ∷ ts) i (n, l) = ground (arith, n, find_in-Lacks name ts (i + item_size t) l)

-- On a section that stands for a list of types `sect_types_find` returns the first type of the name
-- with its offset when the list has one, and FAILED when it has none, and leaves the section and the
-- file as they are.
pub find-Contents :
    (s : Sect) (ts : List TypeDef) (name : List ℕ)
    → Contents s ts
    → ((i : ℕ) (t : TypeDef)
        → Finds name (with_offsets head_size ts) i t
        → find name s ≡ (ok (i, t), s))
      × (Lacks name ts → find name s ≡ (failed, s))
unfolding find
find-Contents s ts name c = (
  λ i t f. step _ (type_load-Contents s ts c) ∙ rw (find_in-Finds f),
  λ l. step _ (type_load-Contents s ts c) ∙ rw (find_in-Lacks name ts head_size l),
)

-- What stands in the part of the section that is in use stays.
abbrev Keeps : Sect → Sect → Type 0
Keeps s u =
    (c : ℕ) (cs : List ℕ)
    → head_size ≤ c
    → c + length cs ≤ section_size
    → (c + length cs ≤ s.header.lst_itm_ptr) ⊎ (s.header.fst_rec_ptr ≤ c)
    → Holds s c cs
    → Holds u c cs

AttrsAt-Keeps :
    (s u : Sect)
    → Keeps s u
    → s.header.lst_itm_ptr ≤ u.header.lst_itm_ptr
    → u.header.fst_rec_ptr ≤ s.header.fst_rec_ptr
    → IsValid s
    → (as_ : List Attr) (soff : ℕ) → AttrsAt s soff as_
    → AttrsAt u soff as_
AttrsAt-Keeps s u k l r v [] soff c = tt
AttrsAt-Keeps s u k l r v (a ∷ rest) soff (c, cs) = (
  record {
    name_ptr = c.name_ptr;
    item =
        k soff (attr_bytes (attr_entity a c.name_ptr)) c.item_low
          (omega
            (arith, c.item_high, length-attr_bytes (attr_entity a c.name_ptr), v.balance, v.high))
          (inl (omega (arith, c.item_high, length-attr_bytes (attr_entity a c.name_ptr)))) c.item;
    name =
        k c.name_ptr a.name (omega (arith, c.rec_low, v.balance, v.low)) c.rec_high (inr c.rec_low)
          c.name;
    item_low = c.item_low;
    item_high = omega (arith, c.item_high);
    rec_low = omega (arith, c.rec_low);
    rec_high = c.rec_high;
  },
  AttrsAt-Keeps s u k l r v rest (soff + attr_entity_size) cs,
)

TypeAt-Keeps :
    (s u : Sect) (t : TypeDef) (soff : ℕ)
    → Keeps s u
    → s.header.lst_itm_ptr ≤ u.header.lst_itm_ptr
    → u.header.fst_rec_ptr ≤ s.header.fst_rec_ptr
    → IsValid s
    → TypeAt s soff t
    → TypeAt u soff t
TypeAt-Keeps s u t soff k l r v c = record {
  name_ptr = c.name_ptr;
  item =
      k soff (type_bytes (type_entity t c.name_ptr)) c.item_low
        (omega
          (arith, c.item_high, length-type_bytes (type_entity t c.name_ptr), v.balance, v.high))
        (inl (omega (arith, c.item_high, length-type_bytes (type_entity t c.name_ptr)))) c.item;
  name =
      k c.name_ptr t.name (omega (arith, c.rec_low, v.balance, v.low)) c.rec_high (inr c.rec_low)
        c.name;
  attrs = AttrsAt-Keeps s u k l r v t.attr_list (soff + type_entity_size) c.attrs;
  item_low = c.item_low;
  item_high = omega (arith, c.item_high);
  rec_low = omega (arith, c.rec_low);
  rec_high = c.rec_high;
}

TypesAt-Spares :
    (h : SectHead) (f g : Stream)
    → Spares h f g
    → IsValid (over h f)
    → (ts : List TypeDef) (i : ℕ) → TypesAt (over h f) i ts
    → TypesAt (over h g) i ts
TypesAt-Spares h f g p v [] i c = c
TypesAt-Spares h f g p v (t ∷ ts) i (c, d, rest) = (
  TypeAt-Keeps (over h f) (over h g) t i (λ k cs lo hi q x. p k cs hi x) (omega arith) (omega arith)
      v c,
  d,
  TypesAt-Spares h f g p v ts (i + item_size t) rest,
)

-- A section that is spared stands for the same types.
pub Contents-Spares :
    (h : SectHead) (f g : Stream) (ts : List TypeDef)
    → (IsSeekable f → IsSeekable g)
    → Spares h f g
    → Contents (over h f) ts
    → Contents (over h g) ts
Contents-Spares h f g ts q p c = record {
  valid = IsValid-over h f g q c.valid;
  types = TypesAt-Spares h f g p c.valid ts head_size c.types;
}

TypesAt-WroteType :
    (t : TypeDef) (s u : Sect) (w : WroteType t s u)
    → IsValid s
    → IsTypeDef t
    → (ts : List TypeDef) (i : ℕ) → TypesAt s i ts
    → TypesAt u i (ts ++ (t ∷ []))
TypesAt-WroteType t s u w v d [] i c = (
  subst (λ (k : ℕ). TypeAt u k t) (sym c) w.new,
  d,
  omega (arith, c, ap (λ (h : SectHead). h.lst_itm_ptr) w.header),
)
TypesAt-WroteType t s u w v d (x ∷ ts) i (c, e, rest) = (
  TypeAt-Keeps s u x i (λ k cs p b q y. w.kept k cs p q y)
      (omega (arith, ap (λ (h : SectHead). h.lst_itm_ptr) w.header))
      (omega (arith, ap (λ (h : SectHead). h.fst_rec_ptr) w.header)) v c,
  e,
  TypesAt-WroteType t s u w v d ts (i + item_size x) rest,
)

-- The write of a type, with what it leaves of the rest of the file.
pub type_write-Within :
    (t : TypeDef) (s : Sect) (ts : List TypeDef)
    → Contents s ts
    → IsTypeDef t
    → size_of t ≤ s.header.free_space
    → (u : Sect) × (write t s ≡ (ok s.header.lst_itm_ptr, u))
      × Contents u (ts ++ (t ∷ []))
      × Within s u
type_write-Within t s ts c d fits =
    let (u, r, w) = write-WroteType t s c.valid fits in
    (
      u,
      r,
      record { valid = w.valid; types = TypesAt-WroteType t s u w c.valid d ts head_size c.types },
      w.within,
    )

-- Where a type fits, with names as `string_ctor` makes them, `sect_types_write` on a section that
-- stands for a list succeeds at its border of items, and leaves one that stands for the list with
-- the type at its end.
pub type_write-Contents :
    (t : TypeDef) (s : Sect) (ts : List TypeDef)
    → Contents s ts
    → IsTypeDef t
    → size_of t ≤ s.header.free_space
    → (u : Sect) × (write t s ≡ (ok s.header.lst_itm_ptr, u)) × Contents u (ts ++ (t ∷ []))
type_write-Contents t s ts c d fits =
    let (u, r, contents, within) = type_write-Within t s ts c d fits in (u, r, contents)
