-- ===== src/File/Place.antt =====
-- Where `file_write` puts an item: the first section that takes it, else a new one.
use nosql_gql_dbms.File.Grow.{lips-more}
use nosql_gql_dbms.File.WellFormed.{lips}
use nosql_gql_dbms.Base.{
  ltb_false→le, ltb→lt, get_elem?_of_lt, get_elem?-append_length, set_same, ℕ, zero, suc, ◌+◌, ◌-◌,
  ◌≤◌, ◌<◌, ◌≡◌, refl, ap, ◌∙◌, ◌⊎◌, inl, inr, List, Option, none, some, arith, length, u64_mod, ok,
  failed, fault, Outcome, step, ltb, Bool-cases, get_elem?,
}
use nosql_gql_dbms.Stdio.{max_pos}
use nosql_gql_dbms.Json.Entity.{Entity, entity_size}
use nosql_gql_dbms.Section.Header.{SectHead, section_size, head_size, new_header}
use nosql_gql_dbms.Section.Extents
use nosql_gql_dbms.Section.Extents.Write.{written, placed, write-failed}
use nosql_gql_dbms.Section.Extents.Frame.{over}
use nosql_gql_dbms.File.{File, on_ext, first_fit}
use nosql_gql_dbms.File.Docs.{write_fit, place}
use nosql_gql_dbms.File.Layout.{add_sect_ext-ok}
use nosql_gql_dbms.File.WellFormed.{IsWellFormed, Grows, Grows-refl, put_sect, on_ext-ok}
use nosql_gql_dbms.File.Grow.{write_sect-ok, more, more-IsWellFormed, more-Grows}

module _ (key val : List ℕ) (ent : Entity) where
  -- the size of the item with its record
  abbrev pub needed : ℕ
  needed = entity_size + length key + length val

  -- A section of the file that takes the record, and the write there.
  pub record Fitting (f : File) : Type 0 where
    pub sect : ℕ
    pub head : SectHead
    pub at : get_elem? f.f_extent sect ≡ some head
    pub fits : needed ≤ head.free_space

  abbrev pub result : (f : File) → Fitting f → ℕ × (ℕ × Entity)
  result f t = (t.sect, (t.head.lst_itm_ptr, placed key val ent (over t.head f.filp)))

  abbrev pub left_by : (f : File) → Fitting f → File
  left_by f t = put_sect t.sect (written key val ent (over t.head f.filp)) f

  -- what `first_fit` does with the outcome of a call
  abbrev tried : ℕ → ℕ → Outcome (ℕ × Entity) × File → Outcome (Option (ℕ × (ℕ × Entity))) × File
  tried left i r = elim r.0 [
    | ok a ↦ (ok (some (i, a)), r.1)
    | failed ↦ first_fit (λ k. on_ext k (Extents.write key val ent)) left (i + 1) r.1
    | fault ↦ (fault, r.1)
  ]

  write_sect-failed :
      (i : ℕ) (f : File) (h : SectHead)
      → needed < u64_mod
      → get_elem? f.f_extent i ≡ some h
      → h.free_space < needed
      → on_ext i (Extents.write key val ent) f ≡ (failed, f)
  write_sect-failed i f h small at full =
      on_ext-ok i (Extents.write key val ent) f h failed (over h f.filp) at
        (write-failed key val ent (over h f.filp) small full)
      ∙ λ j. (failed, record f { f_extent = set_same f.f_extent i h at j })

  fit :
      (left i : ℕ) (f : File)
      → IsWellFormed f
      → needed < u64_mod
      → i + left ≡ length f.f_extent
      → ((t : Fitting f) × (first_fit (λ k. on_ext k (Extents.write key val ent)) left i f
            ≡ (ok (some (result f t)), left_by f t)))
        ⊎ (first_fit (λ k. on_ext k (Extents.write key val ent)) left i f ≡ (ok none, f))
  unfolding first_fit
  fit zero i f wf small e = inr refl
  fit (suc left) i f wf small e =
      let (h, at) = get_elem?_of_lt f.f_extent i (omega (arith, e)) in
      elim (Bool-cases (ltb h.free_space needed)) [
        | inl full ↦
            let skip : first_fit (λ k. on_ext k (Extents.write key val ent)) (suc left) i f
                ≡ first_fit (λ k. on_ext k (Extents.write key val ent)) left (i + 1) f =
              ap (tried left i)
                (write_sect-failed i f h small at (ltb→lt h.free_space needed full)) in
            elim (fit left (i + 1) f wf small (omega (arith, e))) [
              | inl (t, r) ↦ inl (t, skip ∙ r)
              | inr r ↦ inr (skip ∙ r)
            ]
        | inr free ↦
            let t : Fitting f = record {
              sect = i;
              head = h;
              at = at;
              fits = ltb_false→le h.free_space needed free;
            } in
            inl (t, ap (tried left i) (write_sect-ok key val ent i f h wf at t.fits))
      ]

  -- What `file_write` does for one item: into `base`, which is the file itself or has one more section.
  pub record Placed (f : File) : Type 0 where
    pub base : File
    pub base_wf : IsWellFormed base
    pub base_grows : Grows f base
    pub base_lips : lips f.f_extent ≤ lips base.f_extent
    pub base_lsp : base.lst_sect_ptr ≤ f.lst_sect_ptr + section_size
    pub fitting : Fitting base
    pub returns : place key val ent f ≡ (ok (result base fitting), left_by base fitting)

  pub place-Placed :
      (f : File)
      → IsWellFormed f
      → needed ≤ section_size - head_size
      → f.lst_sect_ptr + section_size < max_pos
      → Placed f
  unfolding place write_fit
  place-Placed f wf small room =
      elim (fit (length f.f_extent) 0 f wf (omega (arith, small)) (omega arith)) [
        | inl (t, r) ↦ record {
          base = f;
          base_wf = wf;
          base_grows = Grows-refl f;
          base_lips = omega arith;
          base_lsp = omega arith;
          fitting = t;
          returns = step _ r;
        }
        | inr r ↦
            let g : File = more f wf room in
            let t : Fitting g = record {
              sect = length f.f_extent;
              head = new_header f.lst_sect_ptr;
              at = get_elem?-append_length f.f_extent (new_header f.lst_sect_ptr);
              fits = small;
            } in
            record {
              base = g;
              base_wf = more-IsWellFormed f wf room;
              base_grows = more-Grows f wf room;
              base_lips = lips-more f wf room;
              base_lsp = omega arith;
              fitting = t;
              returns =
                  step _ r
                  ∙ step _ (add_sect_ext-ok f wf.laid.seekable room)
                  ∙ step _ (
                      write_sect-ok key val ent (length f.f_extent) g (new_header f.lst_sect_ptr)
                        (more-IsWellFormed f wf room) t.at small);
            }
      ]
