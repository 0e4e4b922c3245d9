-- ===== src/File/Grow.antt =====
-- The two ways in which a file gains items: a write into a section, and a new section.
use nosql_gql_dbms.File.WellFormed.{lips-set, lips, lips-append}
use nosql_gql_dbms.File.Put.{put_sect-IsWellFormed, put_sect-Grows}
use nosql_gql_dbms.Base.{
  ==→ne, ==→eq, get_elem?-set_self, get_elem?-append_left, length-words_bytes,
  get_elem?-append_last, ℕ, ◌+◌, ◌≤◌, ◌<◌, ◌≡◌, sym, ap, ◌∙◌, subst, inl, inr, List, [], ◌∷◌,
  Option, none, some, arith, length, ok, ◌==◌, Bool-cases, get_elem?, words_bytes, length-append,
}
use nosql_gql_dbms.Stdio.{max_pos}
use nosql_gql_dbms.Stdio.Laws.{IsSeekable, put_bytes}
use nosql_gql_dbms.Json.Entity.{Entity, entity_size}
use nosql_gql_dbms.Json.{JsonHead}
use nosql_gql_dbms.Section.Header.{
  get_fileoff, Sect, SectHead, section_size, head_words, new_header,
}
use nosql_gql_dbms.Section.Header.Laws.{
  IsValid, length-head, synced, stored, moved, Holds-synced_head,
}
use nosql_gql_dbms.Section.Within.{Within, Within-synced}
use nosql_gql_dbms.Section.Extents
use nosql_gql_dbms.Section.Extents.Slots.{Stores, IsFor, written-Wrote, Wrote}
use nosql_gql_dbms.Section.Extents.Write.{written, placed, returns, with_item, val_at}
use nosql_gql_dbms.Section.Extents.Read.{FitsUnion, node_of}
use nosql_gql_dbms.Section.Extents.Frame.{
  over, Spares-Within, Spares-put_bytes, IsValid-over, Stores-Spares, Within-written,
}
use nosql_gql_dbms.File.{no_head, head_at, File, on_ext}
use nosql_gql_dbms.File.Layout.{Separate-AllApart, Below-at, shifted, extended, extended-IsLaidOut}
use nosql_gql_dbms.File.WellFormed.{
  IsHead, IsWellFormed, NodeAt, Used, Grows, AllSpared, IsHead-Spares, put_sect, on_ext-ok,
}

-- A change of the stream that spares the sections, where each keeps its index.
pub Grows-AllSpared :
    (f g : File)
    → IsWellFormed f
    → ((i : ℕ) (h : SectHead) → get_elem? f.f_extent i ≡ some h → get_elem? g.f_extent i ≡ some h)
    → AllSpared f g.filp
    → Grows f g
Grows-AllSpared f g wf same spared = record {
  kept = λ i soff foff e val j n. record {
    head = n.head;
    there = same i n.head n.there;
    place = n.place;
    stores =
        Stores-Spares n.head f.filp g.filp soff e j.key val (spared i n.head n.there)
          (wf.heads i n.head n.there).valid n.stores;
    fits = n.fits;
    same = n.same;
    grid = n.grid;
  };
  used = λ o u. record {
    sect = u.sect;
    head = u.head;
    soff = u.soff;
    there = same u.sect u.head u.there;
    place = u.place;
    low = u.low;
    high = u.high;
  };
}

module _ (f : File) (wf : IsWellFormed f) where
  -- The header of the file lies before all sections.
  pub AllSpared-head : (ds : List ℕ) → length ds ≡ 8 → AllSpared f (put_bytes 0 ds f.filp)
  AllSpared-head ds e i h at =
      Spares-put_bytes h f.filp 0 ds (omega (arith, e, (wf.heads i h at).above))

  module _ (p : f.lst_sect_ptr + section_size < max_pos) where
    abbrev pub more : File
    more = shifted section_size (extended f)

    abbrev new_section : Sect
    new_section = over (new_header f.lst_sect_ptr) f.filp

    -- the place of the next section, as it is written
    abbrev next_bytes : List ℕ
    next_bytes = words_bytes ((f.lst_sect_ptr + section_size) ∷ [])

    length-next_bytes : length next_bytes ≡ 8
    length-next_bytes = omega (arith, length-words_bytes ((f.lst_sect_ptr + section_size) ∷ []))

    AllSpared-more : AllSpared f more.filp
    AllSpared-more i h at c cs b x =
        Spares-put_bytes h (synced new_section).filp 0 next_bytes
          (omega (arith, length-next_bytes, (wf.heads i h at).above)) c cs b
          (Spares-Within h new_section (synced new_section) (Within-synced new_section)
            (inl (Below-at f.lst_sect_ptr h f.f_extent i wf.laid.extents at)) c cs b x)

    seeks : IsSeekable f.filp → IsSeekable more.filp
    seeks q = (Within-synced new_section).seeks q

    new_head : IsHead more.filp (new_header f.lst_sect_ptr)
    new_head = record {
      valid = IsValid-over (new_header f.lst_sect_ptr) f.filp more.filp seeks (record {
        balance = omega arith;
        low = omega arith;
        high = omega arith;
        placed = p;
        seekable = wf.laid.seekable;
      });
      in_file =
          Spares-put_bytes (new_header f.lst_sect_ptr) (synced new_section).filp 0 next_bytes
            (omega (arith, length-next_bytes, wf.start)) 0
            (words_bytes (head_words (new_header f.lst_sect_ptr)))
            (omega (arith, length-head (new_header f.lst_sect_ptr)))
            (unfold synced stored in Holds-synced_head new_section);
      above = wf.start;
      grid = omega arith;
    }

    pub more-IsWellFormed : IsWellFormed more
    more-IsWellFormed = record {
      laid = extended-IsLaidOut f wf.laid p;
      start = omega (arith, wf.start);
      room = omega (arith, wf.room, length-append f.f_extent (new_header f.lst_sect_ptr ∷ []));
      heads = λ i h e. elim (get_elem?-append_last f.f_extent (new_header f.lst_sect_ptr) h i e) [
        | inl at ↦ IsHead-Spares h f.filp more.filp seeks (AllSpared-more i h at) (wf.heads i h at)
        | inr (same, last) ↦ subst (λ (z : SectHead). IsHead more.filp z) same new_head
      ];
    }

    pub lips-more : lips f.f_extent ≤ lips more.f_extent
    lips-more = omega (arith, lips-append f.f_extent (new_header f.lst_sect_ptr ∷ []))

    pub more-Grows : Grows f more
    more-Grows =
        Grows-AllSpared f more wf
          (λ i h at. get_elem?-append_left f.f_extent (new_header f.lst_sect_ptr ∷ []) i h at)
          AllSpared-more

-- A write into the i-th section, where it fits.
module _ (key val : List ℕ) (ent : Entity) (i : ℕ) (f : File) (h : SectHead) (wf : IsWellFormed f)
    (at : get_elem? f.f_extent i ≡ some h)
    (fits : entity_size + length key + length val ≤ h.free_space) where
  abbrev sect : Sect
  sect = over h f.filp

  abbrev pub wrote : File
  wrote = put_sect i (written key val ent sect) f

  valid : IsValid sect
  valid = (wf.heads i h at).valid

  pub write_sect-ok :
      on_ext i (Extents.write key val ent) f ≡ (ok (h.lst_itm_ptr, placed key val ent sect), wrote)
  write_sect-ok =
      on_ext-ok i (Extents.write key val ent) f h (ok (h.lst_itm_ptr, placed key val ent sect))
        (written key val ent sect) at (returns key val ent sect valid fits)

  within : Within sect (written key val ent sect)
  within = Within-written key val ent sect valid fits

  pub get_fileoff-wrote :
      get_fileoff (head_at wrote.f_extent i) h.lst_itm_ptr ≡ h.file_offset + h.lst_itm_ptr
  get_fileoff-wrote =
      ap (λ (z : SectHead). get_fileoff z h.lst_itm_ptr)
        (ap (λ (o : Option SectHead). elim o [ none ↦ no_head | some z ↦ z ])
          (get_elem?-set_self f.f_extent i h (written key val ent sect).header at))
      ∙ omega (arith, within.offset, valid.placed, valid.balance, valid.high)

  module _ (is_for : IsFor ent key val) where
    post : Wrote key val ent sect (written key val ent sect)
    post = written-Wrote key val ent sect valid fits is_for

    lip-wrote : (written key val ent sect).header.lst_itm_ptr ≡ h.lst_itm_ptr + entity_size
    lip-wrote = ap (λ (z : SectHead). z.lst_itm_ptr) post.header

    pub lips-wrote : lips wrote.f_extent ≡ lips f.f_extent + entity_size
    lips-wrote =
        omega (arith, lip-wrote, lips-set f.f_extent i h (written key val ent sect).header at)

    pub wrote-IsWellFormed : IsWellFormed wrote
    wrote-IsWellFormed =
        put_sect-IsWellFormed i f h (written key val ent sect) wf at within (record {
          valid = post.valid;
          in_file = Holds-synced_head (
              moved (h.lst_itm_ptr + entity_size) (val_at key val ent sect)
                (with_item key val ent sect));
          above = omega (arith, within.offset, (wf.heads i h at).above);
          grid = omega (arith, lip-wrote, (wf.heads i h at).grid);
        })

    pub wrote-Grows : Grows f wrote
    wrote-Grows =
        put_sect-Grows i f h (written key val ent sect) wf at within post.kept
          (omega (arith, lip-wrote))

    pub NodeAt-wrote :
        (j : JsonHead)
        → j.key ≡ key
        → FitsUnion ent
        → node_of (placed key val ent sect) key val ≡ record j { foff = 0 }
        → NodeAt wrote i h.lst_itm_ptr
            (h.file_offset + h.lst_itm_ptr)
            (placed key val ent sect)
            val
            j
    NodeAt-wrote j e u same = record {
      head = (written key val ent sect).header;
      there = get_elem?-set_self f.f_extent i h (written key val ent sect).header at;
      place = omega (arith, within.offset);
      stores =
          subst
            (λ (k : List ℕ).
              Stores (written key val ent sect) h.lst_itm_ptr (placed key val ent sect) k val)
            (sym e) post.new;
      fits = u;
      same = ap (λ (k : List ℕ). node_of (placed key val ent sect) k val) e ∙ same;
      grid = (wf.heads i h at).grid;
    }

    pub Unused-wrote : ¬ (Used f (h.file_offset + h.lst_itm_ptr))
    Unused-wrote u = elim (Bool-cases (i == u.sect)) [
      | inl y ↦
          let p : i ≡ u.sect = ==→eq i u.sect y in
          let q : u.head ≡ h = cc (at, p, u.there) in
          omega (
            arith,
            u.place,
            u.high,
            ap (λ (z : SectHead). z.file_offset) q,
            ap (λ (z : SectHead). z.lst_itm_ptr) q,
          )
      | inr d ↦ omega (
        arith,
        u.place,
        u.high,
        valid.balance,
        valid.high,
        fits,
        (wf.heads u.sect u.head u.there).valid.balance,
        (wf.heads u.sect u.head u.there).valid.high,
        Separate-AllApart f.f_extent i u.sect h u.head wf.laid.apart at u.there (==→ne i u.sect d),
      )
    ]
