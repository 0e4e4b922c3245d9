-- ===== src/File/TypeDefs/Grow.antt =====
-- A new section of types, and the header of the file, as `file_add_type` writes them.
use nosql_gql_dbms.Base.{
  ℕ, ◌+◌, ◌≤◌, ◌<◌, ◌≡◌, refl, sym, ap, ◌∙◌, subst, inl, inr, List, [], ◌∷◌, ◌++◌, some, arith,
  length, ok, Outcome, get_elem?, words_bytes, length-append,
}
use nosql_gql_dbms.Stdio.{max_pos}
use nosql_gql_dbms.Stdio.Laws.{IsSeekable}
use nosql_gql_dbms.File.Grow.{AllSpared-head}
use nosql_gql_dbms.File.TypeDefs.Held.{KeepsExts}
use nosql_gql_dbms.File.TypeDefs.Held.{IsTypes-Spares}
use nosql_gql_dbms.Base.{lt_of_get_elem?}
use nosql_gql_dbms.File.Layout.{
  shifted, Below-later, Below-append, AllApart-append, AllApart, Below-at, shift_lsp-ok,
}
use nosql_gql_dbms.Base.{get_elem?-append_last}
use nosql_gql_dbms.Section.Extents.Frame.{
  over, IsValid-over, Spares-Within, Separate, Spares-put_bytes, Spares,
}
use nosql_gql_dbms.Section.Header.{section_size, SectHead, new_header, Sect}
use nosql_gql_dbms.File.{shift_lsp, no_head, File, add_sect_types, section_of}
use nosql_gql_dbms.File.Relink.{headed}
use nosql_gql_dbms.File.WellFormed.{AllSpared, IsHead-Spares, IsWellFormed}
use nosql_gql_dbms.Base.{length-words_bytes}
use nosql_gql_dbms.Section.Within.{Within-synced}
use nosql_gql_dbms.File.TypeDefs.Held.{IsTypes, HasTypes}
use nosql_gql_dbms.Json.TypeDef.{TypeDef}
use nosql_gql_dbms.Section.Header.Laws.{synced, stored, ctor-moved}

-- the file with a new section of types
abbrev pub extended_types : File → File
extended_types f = record f {
  f_types = f.f_types ++ (new_header f.lst_sect_ptr ∷ []);
  filp = (synced (section_of (new_header f.lst_sect_ptr) f)).filp;
}

pub add_sect_types-ok :
    (f : File)
    → IsSeekable f.filp
    → f.lst_sect_ptr + section_size < max_pos
    → add_sect_types f ≡ (ok tt, shifted section_size (extended_types f))
unfolding add_sect_types synced stored
add_sect_types-ok f q p =
    ap
      (λ (r : Outcome (Unit {0}) × Sect).
        shift_lsp section_size
          (record f { f_types = f.f_types ++ (r.1.header ∷ []); filp = r.1.filp }))
      (ctor-moved f.lst_sect_ptr (section_of no_head f) p q)
    ∙ shift_lsp-ok section_size (extended_types f) q p

module _ (f : File) (tss : List (List TypeDef)) (wf : IsWellFormed f) (has : HasTypes f tss) where
  -- A change of the stream that spares all sections of types.
  HasTypes-Spares :
      (g : File)
      → g.f_types ≡ f.f_types
      → g.f_extent ≡ f.f_extent
      → (IsSeekable f.filp → IsSeekable g.filp)
      → ((h : SectHead) → 8 ≤ h.file_offset → Spares h f.filp g.filp)
      → HasTypes g tss
  HasTypes-Spares g same exts q p = record {
    count = ap length same ∙ has.count;
    each = λ i h ts at at_ts.
        let x : IsTypes f.filp h ts =
          has.each i h ts (ap (λ hs. get_elem? hs i) (sym same) ∙ at) at_ts in
        IsTypes-Spares h f.filp g.filp ts q (p h x.above) x;
    apart = subst (λ (hs : List SectHead). AllApart hs) (sym same) has.apart;
    cross = λ i k h e at ate.
        has.cross i k h e (ap (λ hs. get_elem? hs i) (sym same) ∙ at)
          (ap (λ hs. get_elem? hs k) (sym exts) ∙ ate);
  }

  pub headed-KeepsExts : KeepsExts f (headed f)
  headed-KeepsExts = record {
    exts = refl;
    spared =
        AllSpared-head f wf (words_bytes (f.lst_sect_ptr ∷ []))
          (omega (arith, length-words_bytes (f.lst_sect_ptr ∷ [])));
  }

  pub headed-HasTypes : HasTypes (headed f) tss
  headed-HasTypes =
      HasTypes-Spares (headed f) refl refl (λ q. q)
        (λ h above.
          Spares-put_bytes h f.filp 0 (words_bytes (f.lst_sect_ptr ∷ []))
            (omega (arith, above, length-words_bytes (f.lst_sect_ptr ∷ []))))

  module _ (p : f.lst_sect_ptr + section_size < max_pos) where
    abbrev pub more_types : File
    more_types = shifted section_size (extended_types f)

    abbrev new_section : Sect
    new_section = over (new_header f.lst_sect_ptr) f.filp

    abbrev next_bytes : List ℕ
    next_bytes = words_bytes ((f.lst_sect_ptr + section_size) ∷ [])

    length-next_bytes : length next_bytes ≡ 8
    length-next_bytes = omega (arith, length-words_bytes ((f.lst_sect_ptr + section_size) ∷ []))

    -- The sections that lie below the new one are spared.
    Spares-more :
        (h : SectHead)
        → 8 ≤ h.file_offset
        → h.file_offset + section_size ≤ f.lst_sect_ptr
        → Spares h f.filp more_types.filp
    Spares-more h above below_ c cs b x =
        Spares-put_bytes h (synced new_section).filp 0 next_bytes
          (omega (arith, length-next_bytes, above)) c cs b
          (Spares-Within h new_section (synced new_section) (Within-synced new_section) (inl below_)
            c cs b x)

    AllSpared-more : AllSpared f more_types.filp
    AllSpared-more i h at =
        Spares-more h (wf.heads i h at).above
          (Below-at f.lst_sect_ptr h f.f_extent i wf.laid.extents at)

    seeks : IsSeekable f.filp → IsSeekable more_types.filp
    seeks q = (Within-synced new_section).seeks q

    pub more_types-IsWellFormed : IsWellFormed more_types
    more_types-IsWellFormed = record {
      laid = record {
        extents = Below-later f.lst_sect_ptr f.f_extent wf.laid.extents;
        types = Below-append f.lst_sect_ptr f.f_types wf.laid.types;
        apart = wf.laid.apart;
        seekable = seeks wf.laid.seekable;
        reachable = p;
      };
      start = omega (arith, wf.start);
      room = omega (arith, wf.room);
      heads = λ i h at.
          IsHead-Spares h f.filp more_types.filp seeks (AllSpared-more i h at) (wf.heads i h at);
    }

    pub more_types-KeepsExts : KeepsExts f more_types
    more_types-KeepsExts = record { exts = refl; spared = AllSpared-more }

    new_IsTypes : IsTypes more_types.filp (new_header f.lst_sect_ptr) []
    new_IsTypes = record {
      contents = record {
        valid = IsValid-over (new_header f.lst_sect_ptr) f.filp more_types.filp seeks (record {
          balance = omega arith;
          low = omega arith;
          high = omega arith;
          placed = p;
          seekable = wf.laid.seekable;
        });
        types = refl;
      };
      above = wf.start;
    }

    pub more_types-HasTypes : HasTypes more_types (tss ++ ([] ∷ []))
    more_types-HasTypes = record {
      count = omega (
        arith,
        has.count,
        length-append f.f_types (new_header f.lst_sect_ptr ∷ []),
        length-append tss ([] ∷ []),
      );
      each = each;
      apart = AllApart-append f.lst_sect_ptr f.f_types wf.laid.types has.apart;
      cross = cross;
    }
      where
        each :
            (k : ℕ) (x : SectHead) (us : List TypeDef)
            → get_elem? (f.f_types ++ (new_header f.lst_sect_ptr ∷ [])) k ≡ some x
            → get_elem? (tss ++ ([] ∷ [])) k ≡ some us
            → IsTypes more_types.filp x us
        each k x us e q = elim (get_elem?-append_last f.f_types (new_header f.lst_sect_ptr) x k e) [
          | inl at ↦ elim (get_elem?-append_last tss [] us k q) [
            | inl at_ts ↦
                let y : IsTypes f.filp x us = has.each k x us at at_ts in
                IsTypes-Spares x f.filp more_types.filp us seeks
                  (Spares-more x y.above (Below-at f.lst_sect_ptr x f.f_types k wf.laid.types at)) y
            | inr (same, last_) ↦
                absurd (omega (arith, last_, has.count, lt_of_get_elem? f.f_types k x at))
          ]
          | inr (same, last_) ↦ elim (get_elem?-append_last tss [] us k q) [
            | inl at_ts ↦ absurd (omega (arith, last_, has.count, lt_of_get_elem? tss k us at_ts))
            | inr (same_ts, last_ts) ↦
                subst (λ (z : SectHead). IsTypes more_types.filp z us) same
                  (subst
                    (λ (zs : List TypeDef). IsTypes more_types.filp (new_header f.lst_sect_ptr) zs)
                    same_ts new_IsTypes)
          ]
        ]

        cross :
            (j k : ℕ) (x e : SectHead)
            → get_elem? (f.f_types ++ (new_header f.lst_sect_ptr ∷ [])) j ≡ some x
            → get_elem? f.f_extent k ≡ some e
            → Separate x e
        cross j k x e at ate =
            elim (get_elem?-append_last f.f_types (new_header f.lst_sect_ptr) x j at) [
              | inl old ↦ has.cross j k x e old ate
              | inr (same, last_) ↦ omega (
                arith,
                Below-at f.lst_sect_ptr e f.f_extent k wf.laid.extents ate,
                ap (λ (z : SectHead). z.file_offset) same,
              )
            ]
