-- ===== src/File/TypeDefs/Find.antt =====
-- `file_find_type` of dbms/src/file/file.c on sections of types that stand for lists of types.
use nosql_gql_dbms.Base.{
  ℕ, zero, suc, ◌+◌, ◌-◌, ◌≤◌, ◌<◌, ◌≡◌, refl, ap, ◌∙◌, List, [], ◌∷◌, ◌++◌, Option, none, some,
  arith, length, ok, failed, fault, Outcome, M, step, get_elem?,
}
use nosql_gql_dbms.Stdio.{max_pos}
use nosql_gql_dbms.File.TypeDefs.Held.{KeepsExts-Grows}
use nosql_gql_dbms.File.TypeDefs.Add.{add_type-Added}
use nosql_gql_dbms.Text.{equal, string_cmp}
use nosql_gql_dbms.Section.Types.RoundTrip.{size_of, item_size, IsTypeDef}
use nosql_gql_dbms.Text.Laws.{string_cmp-eq_iff}
use nosql_gql_dbms.File.WellFormed.{IsWellFormed, Grows}
use nosql_gql_dbms.Section.Header.{section_size}
use nosql_gql_dbms.File.TypeDefs.Held.{on_types-ok, put_types, HasTypes}
use nosql_gql_dbms.Base.{set_same, get_elem?_of_lt}
use nosql_gql_dbms.Section.Extents.Frame.{over}
use nosql_gql_dbms.File.{File, first_fit, on_types}
use nosql_gql_dbms.Json.TypeDef.{TypeDef}
use nosql_gql_dbms.Section.Types.Cells.{with_offsets, find-Contents}
use nosql_gql_dbms.Section.Header.{head_size, SectHead}
use nosql_gql_dbms.Section.Types
use nosql_gql_dbms.Section.Types.Cells.{Finds, Lacks, here}
use nosql_gql_dbms.Section.Types.Cells
use nosql_gql_dbms.File.TypeDefs.{find_type, add_type}
use nosql_gql_dbms.File.TypeDefs.Add.{Adds, into, in_new}
use nosql_gql_dbms.File.TypeDefs.Add

-- The first type of the name: its section, its offset there, and the type.
pub data FindsIn (name : List ℕ) : List (List TypeDef) → ℕ → ℕ → TypeDef → Type 0 where
  found_in :
      {soff : ℕ} {t : TypeDef} {ts : List TypeDef} {tss : List (List TypeDef)}
      → Finds name (with_offsets head_size ts) soff t
      → FindsIn name (ts ∷ tss) 0 soff t
  behind :
      {i soff : ℕ} {t : TypeDef} {ts : List TypeDef} {tss : List (List TypeDef)}
      → Lacks name ts
      → FindsIn name tss i soff t
      → FindsIn name (ts ∷ tss) (suc i) soff t

-- No section has a type of the name.
abbrev pub AllLack : List ℕ → List (List TypeDef) → Type 0
AllLack name [] = Unit
AllLack name (ts ∷ tss) = Lacks name ts × AllLack name tss

module _ (name : List ℕ) (f : File) (tss : List (List TypeDef)) (has : HasTypes f tss) where
  abbrev search_in : ℕ → M File (ℕ × TypeDef)
  search_in i = on_types i (Types.find name)

  -- What `first_fit` does with the outcome of a call.
  abbrev tried : ℕ → ℕ → Outcome (ℕ × TypeDef) × File → Outcome (Option (ℕ × (ℕ × TypeDef))) × File
  tried left i r = elim r.0 [
    | ok a ↦ (ok (some (i, a)), r.1)
    | failed ↦ first_fit search_in left (i + 1) r.1
    | fault ↦ (fault, r.1)
  ]

  unchanged :
      (i : ℕ) (h : SectHead) → get_elem? f.f_types i ≡ some h → put_types i (over h f.filp) f ≡ f
  unchanged i h at = λ j. record f { f_types = set_same f.f_types i h at j }

  -- From the i-th section on stand the lists `tail`.
  search :
      (left i : ℕ) (tail : List (List TypeDef))
      → i + left ≡ length f.f_types
      → left ≡ length tail
      → ((k : ℕ) → get_elem? tss (i + k) ≡ get_elem? tail k)
      → ((n soff : ℕ) (t : TypeDef)
          → FindsIn name tail n soff t
          → first_fit search_in left i f ≡ (ok (some (i + n, (soff, t))), f))
        × (AllLack name tail → first_fit search_in left i f ≡ (ok none, f))
  unfolding first_fit
  search zero i [] e l same = (λ n soff t x. no x, λ a. refl)
    where
      no : {A : Type 0} {n soff : ℕ} {t : TypeDef} → FindsIn name [] n soff t → A
      no x = elim x [ ]
  search zero i (ts ∷ tail) e l same = absurd (omega (arith, l))
  search (suc left) i [] e l same = absurd (omega (arith, l))
  search (suc left) i (ts ∷ tail) e l same =
      let (h, at) = get_elem?_of_lt f.f_types i (omega (arith, e)) in
      let at_ts : get_elem? tss i ≡ some ts = ap (λ k. get_elem? tss k) (omega arith) ∙ same 0 in
      let (finds, lacks) =
        Cells.find-Contents (over h f.filp) ts name (has.each i h ts at at_ts).contents in
      let (finds', lacks') =
        search left (i + 1) tail (omega (arith, e)) (omega (arith, l))
          (λ k. ap (λ m. get_elem? tss m) (omega arith) ∙ same (suc k)) in
      let skip : Lacks name ts
          → first_fit search_in (suc left) i f ≡ first_fit search_in left (i + 1) f =
        λ x. ap (tried left i) (
          on_types-ok i (Types.find name) f h failed (over h f.filp) at (lacks x) ∙ λ j.
          (failed, unchanged i h at j)) in
      (go h at finds finds' skip, λ (x, y). skip x ∙ lacks' y)
    where
      go :
          (h : SectHead)
          → get_elem? f.f_types i ≡ some h
          → ((soff : ℕ) (t : TypeDef)
              → Finds name (with_offsets head_size ts) soff t
              → Types.find name (over h f.filp) ≡ (ok (soff, t), over h f.filp))
          → ((n soff : ℕ) (t : TypeDef)
              → FindsIn name tail n soff t
              → first_fit search_in left (i + 1) f ≡ (ok (some (i + 1 + n, (soff, t))), f))
          → (Lacks name ts
              → first_fit search_in (suc left) i f ≡ first_fit search_in left (i + 1) f)
          → (n soff : ℕ) (t : TypeDef) → FindsIn name (ts ∷ tail) n soff t
          → first_fit search_in (suc left) i f ≡ (ok (some (i + n, (soff, t))), f)
      go h at finds finds' skip n soff t (found_in x) =
          ap (tried left i)
            (on_types-ok i (Types.find name) f h (ok (soff, t)) (over h f.filp) at (finds soff t x))
          ∙ λ j. (ok (some (here_ j, (soff, t))), unchanged i h at j)
        where
          here_ : i ≡ i + 0
          here_ = omega arith
      go h at finds finds' skip n soff t (behind {i = m} x y) =
          skip x ∙ finds' m soff t y ∙ λ j. (ok (some (next_ j, (soff, t))), f)
        where
          next_ : i + 1 + m ≡ i + suc m
          next_ = omega arith

  -- On a file whose sections of types stand for lists of types `file_find_type` returns the first type of
  -- the name in them, with its section and its offset there, and FAILED where no section has one. It leaves
  -- the file as it is.
  pub find_type-HasTypes :
      ((i soff : ℕ) (t : TypeDef)
        → FindsIn name tss i soff t
        → find_type name f ≡ (ok (i, (soff, t)), f))
      × (AllLack name tss → find_type name f ≡ (failed, f))
  unfolding find_type
  find_type-HasTypes =
      let (finds, lacks) =
        search (length f.f_types) 0 tss (omega arith) has.count
          (λ k. ap (λ m. get_elem? tss m) (omega arith)) in
      (
        λ i soff t x. step _ (finds i soff t x) ∙ λ j. (ok (zero_ i j, (soff, t)), f),
        λ a. step _ (lacks a),
      )
    where
      zero_ : (i : ℕ) → 0 + i ≡ i
      zero_ i = omega arith

-- A type that no section has is found where it was added.
Finds-append :
    (name : List ℕ) (ts : List TypeDef) (t : TypeDef) (i : ℕ)
    → Lacks name ts
    → string_cmp t.name name ≡ equal
    → (soff : ℕ) × Finds name (with_offsets i (ts ++ (t ∷ []))) soff t
Finds-append name [] t i l e = (i, here e)
Finds-append name (u ∷ ts) t i (n, l) e =
    let (soff, x) = Finds-append name ts t (i + item_size u) l e in (soff, Cells.later n x)

pub FindsIn-Adds :
    {t : TypeDef} {tss uss : List (List TypeDef)}
    → Adds t tss uss
    → (name : List ℕ) → AllLack name tss
    → string_cmp t.name name ≡ equal
    → (i : ℕ) × (soff : ℕ) × FindsIn name uss i soff t
FindsIn-Adds {t} (into {ts}) name (l, a) e =
    let (soff, x) = Finds-append name ts t head_size l e in (0, soff, found_in x)
FindsIn-Adds {t} (Add.later x) name (l, a) e =
    let (i, soff, y) = FindsIn-Adds x name a e in (suc i, soff, behind l y)
FindsIn-Adds {t} in_new name a e = (0, head_size, found_in (here e))

-- Under the conditions under which `file_add_type` succeeds, a type whose name no section has is found by
-- `file_find_type` afterwards, as it was given, in the file that has all the documents of before.
pub add_type-find_type :
    (t : TypeDef) (d : IsTypeDef t) (f : File) (tss : List (List TypeDef))
    → IsWellFormed f
    → HasTypes f tss
    → AllLack t.name tss
    → size_of t ≤ section_size - head_size
    → f.lst_sect_ptr + section_size < max_pos
    → (foff i soff : ℕ) × (g : File) × (add_type t f ≡ (ok foff, g))
      × (find_type t.name g ≡ (ok (i, (soff, t)), g))
      × IsWellFormed g
      × Grows f g
add_type-find_type t d f tss wf has lack small room =
    let (foff, g, adds, a) = add_type-Added t d f tss wf has small room in
    let (i, soff, x) =
      FindsIn-Adds a.adds t.name lack ((string_cmp-eq_iff t.name t.name d.0 d.0).1 refl) in
    (
      foff,
      i,
      soff,
      g,
      adds,
      (find_type-HasTypes t.name g a.lists a.has).0 i soff t x,
      a.wf,
      KeepsExts-Grows f g wf a.keeps,
    )
