-- ===== src/File/TypeDefs/Add.antt =====
-- `file_add_type` of dbms/src/file/file.c: where a type goes.
use nosql_gql_dbms.Base.{
  ℕ, zero, suc, ◌+◌, ◌-◌, ◌≤◌, ◌<◌, ◌≡◌, refl, sym, ap, ◌∙◌, subst, ◌⊎◌, inl, inr, List, [], ◌∷◌,
  ◌++◌, Option, none, some, arith, length, u64_mod, ok, failed, fault, Outcome, step, ltb,
  Bool-cases, lt→ltb, get_elem?, set,
}
use nosql_gql_dbms.Stdio.{max_pos}
use nosql_gql_dbms.File.TypeDefs.Held.{KeepsExts-trans, KeepsExts}
use nosql_gql_dbms.File.TypeDefs.Grow.{headed-KeepsExts}
use nosql_gql_dbms.File.TypeDefs.Grow.{
  add_sect_types-ok, more_types-HasTypes, more_types-IsWellFormed, more_types-KeepsExts,
  headed-HasTypes, more_types,
}
use nosql_gql_dbms.File.Relink.{head_sync-ok, headed-IsWellFormed, headed}
use nosql_gql_dbms.Base.{get_elem?_of_lt, get_elem?-append_length}
use nosql_gql_dbms.Base.{ltb→lt, ltb_false→le}
use nosql_gql_dbms.Section.Header.{get_fileoff, new_header, section_size, head_size}
use nosql_gql_dbms.File.{head_at, first_fit}
use nosql_gql_dbms.File.TypeDefs.Held.{
  put_types-IsWellFormed, put_types-HasTypes, put_types, HasTypes, IsTypes, on_types-ok,
  put_types-KeepsExts,
}
use nosql_gql_dbms.Base.{set_same}
use nosql_gql_dbms.Section.Types.Cells.{type_write-Within}
use nosql_gql_dbms.Json.TypeDef.{type_ph_sz, type_rec_sz, type_itm_sz, TypeDef}
use nosql_gql_dbms.Section.Types.RoundTrip.{size_of, IsTypeDef}
use nosql_gql_dbms.Section.Extents.Frame.{over}
use nosql_gql_dbms.Section.Header.{SectHead}
use nosql_gql_dbms.File.WellFormed.{IsWellFormed}
use nosql_gql_dbms.File.{File, on_types}
use nosql_gql_dbms.Section.Types
use nosql_gql_dbms.File.TypeDefs.{add_type}

-- The lists of types, one for each section, with a type put at the end of one of them, or of a new one.
pub data Adds (t : TypeDef) : List (List TypeDef) → List (List TypeDef) → Type 0 where
  into :
      {ts : List TypeDef} {tss : List (List TypeDef)} → Adds t (ts ∷ tss) ((ts ++ (t ∷ [])) ∷ tss)
  later :
      {ts : List TypeDef} {tss uss : List (List TypeDef)}
      → Adds t tss uss
      → Adds t (ts ∷ tss) (ts ∷ uss)
  in_new : Adds t [] ((t ∷ []) ∷ [])

Adds-set :
    (t : TypeDef) (tss : List (List TypeDef)) (i : ℕ) (ts : List TypeDef)
    → get_elem? tss i ≡ some ts
    → Adds t tss (set tss i (ts ++ (t ∷ [])))
Adds-set t [] i ts e = cc
Adds-set t (us ∷ tss) zero ts e =
    subst (λ (zs : List TypeDef). Adds t (us ∷ tss) ((zs ++ (t ∷ [])) ∷ tss)) (cc) into
Adds-set t (us ∷ tss) (suc i) ts e = later (Adds-set t tss i ts e)

Adds-new :
    (t : TypeDef) (tss : List (List TypeDef))
    → Adds t tss (set (tss ++ ([] ∷ [])) (length tss) (t ∷ []))
Adds-new t [] = in_new
Adds-new t (ts ∷ tss) = later (Adds-new t tss)

-- What a type added leaves: all documents stay, and the sections of types stand for the lists with it.
pub record Added (t : TypeDef) (f : File) (tss : List (List TypeDef)) (g : File) : Type 0 where
  pub wf : IsWellFormed g
  pub keeps : KeepsExts f g
  pub lists : List (List TypeDef)
  pub has : HasTypes g lists
  pub adds : Adds t tss lists
  pub lsp : g.lst_sect_ptr ≤ f.lst_sect_ptr + section_size

module _ (t : TypeDef) (d : IsTypeDef t) where
  -- A write into the i-th section, where it fits.
  write_sect :
      (i : ℕ) (f : File) (h : SectHead) (ts : List TypeDef) (tss : List (List TypeDef))
      → IsWellFormed f
      → HasTypes f tss
      → get_elem? f.f_types i ≡ some h
      → get_elem? tss i ≡ some ts
      → size_of t ≤ h.free_space
      → (g : File) × (on_types i (Types.write t) f ≡ (ok h.lst_itm_ptr, g))
        × IsWellFormed g
        × KeepsExts f g
        × HasTypes g (set tss i (ts ++ (t ∷ [])))
        × (g.lst_sect_ptr ≡ f.lst_sect_ptr)
  write_sect i f h ts tss wf has at at_ts fits =
      let x : IsTypes f.filp h ts = has.each i h ts at at_ts in
      let (u, r, c, w) = type_write-Within t (over h f.filp) ts x.contents d fits in
      (
        put_types i u f,
        on_types-ok i (Types.write t) f h (ok h.lst_itm_ptr) u at r,
        put_types-IsWellFormed i f h u ts ts tss wf has at at_ts w,
        put_types-KeepsExts i f h u ts ts tss wf has at at_ts w,
        put_types-HasTypes i f h u ts (ts ++ (t ∷ [])) tss wf has at at_ts w
            (record { contents = c; above = omega (arith, x.above, w.offset) }),
        refl,
      )

  write_sect-failed :
      (i : ℕ) (f : File) (h : SectHead)
      → size_of t < u64_mod
      → get_elem? f.f_types i ≡ some h
      → h.free_space < size_of t
      → on_types i (Types.write t) f ≡ (failed, f)
  unfolding Types.write type_ph_sz type_itm_sz type_rec_sz
  write_sect-failed i f h small at full =
      on_types-ok i (Types.write t) f h failed (over h f.filp) at
        (rw (lt→ltb h.free_space (type_ph_sz t) (omega (arith, small, full))) refl)
      ∙ λ j. (failed, record f { f_types = set_same f.f_types i h at j })

  -- What `first_fit` does with the outcome of a call.
  abbrev tried : ℕ → ℕ → Outcome ℕ × File → Outcome (Option (ℕ × ℕ)) × File
  tried left i r = elim r.0 [
    | ok a ↦ (ok (some (i, a)), r.1)
    | failed ↦ first_fit (λ k. on_types k (Types.write t)) left (i + 1) r.1
    | fault ↦ (fault, r.1)
  ]

  -- The first section that takes the type, from the i-th on.
  fit :
      (left i : ℕ) (f : File) (tss : List (List TypeDef))
      → IsWellFormed f
      → HasTypes f tss
      → size_of t < u64_mod
      → i + left ≡ length f.f_types
      → ((r : ℕ × ℕ) × (g : File) × (first_fit (λ k. on_types k (Types.write t)) left i f
            ≡ (ok (some r), g))
          × Added t f tss g)
        ⊎ (first_fit (λ k. on_types k (Types.write t)) left i f ≡ (ok none, f))
  unfolding first_fit
  fit zero i f tss wf has small e = inr refl
  fit (suc left) i f tss wf has small e =
      let (h, at) = get_elem?_of_lt f.f_types i (omega (arith, e)) in
      let (ts, at_ts) = get_elem?_of_lt tss i (omega (arith, e, has.count)) in
      elim (Bool-cases (ltb h.free_space (size_of t))) [
        | inl full ↦
            let skip : first_fit (λ k. on_types k (Types.write t)) (suc left) i f
                ≡ first_fit (λ k. on_types k (Types.write t)) left (i + 1) f =
              ap (tried left i)
                (write_sect-failed i f h small at (ltb→lt h.free_space (size_of t) full)) in
            elim (fit left (i + 1) f tss wf has small (omega (arith, e))) [
              | inl (r, g, x, a) ↦ inl (r, g, skip ∙ x, a)
              | inr x ↦ inr (skip ∙ x)
            ]
        | inr free ↦
            let (g, x, wf', keeps, has', lsp) =
              write_sect i f h ts tss wf has at at_ts
                (ltb_false→le h.free_space (size_of t) free) in
            inl (
              (i, h.lst_itm_ptr),
              g,
              ap (tried left i) x,
              record {
                wf = wf';
                keeps = keeps;
                lists = set tss i (ts ++ (t ∷ []));
                has = has';
                adds = Adds-set t tss i ts at_ts;
                lsp = omega (arith, lsp);
              },
            )
      ]

  -- The file with its header written again.
  Added-headed :
      (f : File) (tss : List (List TypeDef)) (g : File) → Added t f tss g → Added t f tss (headed g)
  Added-headed f tss g a = record {
    wf = headed-IsWellFormed g a.wf;
    keeps = KeepsExts-trans f g (headed g) a.keeps (headed-KeepsExts g a.lists a.wf a.has);
    lists = a.lists;
    has = headed-HasTypes g a.lists a.wf a.has;
    adds = a.adds;
    lsp = a.lsp;
  }

  -- Where the names are texts, the type fits an empty section, and `fseek` still reaches the end of one
  -- more section, `file_add_type` succeeds on a well-formed file whose sections of types stand for lists
  -- of types: the file stays well-formed, all documents stay where they are, and the sections of types
  -- stand for the lists with the type put at the end of one of them, or of a new one.
  pub add_type-Added :
      (f : File) (tss : List (List TypeDef))
      → IsWellFormed f
      → HasTypes f tss
      → size_of t ≤ section_size - head_size
      → f.lst_sect_ptr + section_size < max_pos
      → (foff : ℕ) × (g : File) × (add_type t f ≡ (ok foff, g)) × Added t f tss g
  unfolding add_type
  add_type-Added f tss wf has small room =
      elim (fit (length f.f_types) 0 f tss wf has (omega (arith, small)) (omega arith)) [
        | inl ((i, soff), g, x, a) ↦ (
          get_fileoff (head_at g.f_types i) soff,
          headed g,
          step _ x ∙ step _ (head_sync-ok g a.wf),
          Added-headed f tss g a,
        )
        | inr x ↦
            let n : ℕ = length f.f_types in
            let m : File = more_types f tss wf has room in
            let m_has : HasTypes m (tss ++ ([] ∷ [])) = more_types-HasTypes f tss wf has room in
            let (g, y, wf', keeps, has', lsp) =
              write_sect n m (new_header f.lst_sect_ptr) [] (tss ++ ([] ∷ []))
                (more_types-IsWellFormed f tss wf has room) m_has
                (get_elem?-append_length f.f_types (new_header f.lst_sect_ptr))
                (ap (λ k. get_elem? (tss ++ ([] ∷ [])) k) has.count
                  ∙ get_elem?-append_length tss [])
                small in
            let a : Added t f tss g = record {
              wf = wf';
              keeps = KeepsExts-trans f m g (more_types-KeepsExts f tss wf has room) keeps;
              lists = set (tss ++ ([] ∷ [])) n (t ∷ []);
              has = has';
              adds =
                  subst (λ (k : ℕ). Adds t tss (set (tss ++ ([] ∷ [])) k (t ∷ []))) (sym has.count)
                    (Adds-new t tss);
              lsp = omega (arith, lsp);
            } in
            (
              get_fileoff (head_at g.f_types n) head_size,
              headed g,
              step _ x
                  ∙ step _ (step _ (add_sect_types-ok f wf.laid.seekable room) ∙ step _ y)
                  ∙ step _ (head_sync-ok g a.wf),
              Added-headed f tss g a,
            )
      ]
