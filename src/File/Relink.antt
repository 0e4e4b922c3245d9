-- ===== src/File/Relink.antt =====
-- The rewriting of an item with its links, and the syncing of the file's header.
use nosql_gql_dbms.File.{ctor, head_ctor}
use nosql_gql_dbms.Stdio.Laws.{IsSeekable}
use nosql_gql_dbms.File.{file_head_size}
use nosql_gql_dbms.File.Put.{put_sect-IsWellFormed, NodeAt-put_sect, Used-put_sect}
use nosql_gql_dbms.Base.{
  length-words_bytes, get_elem?-set_self, ℕ, ◌+◌, ◌≤◌, ◌<◌, ◌≡◌, ◌≢◌, refl, ap, inl, List, [], ◌∷◌,
  arith, length, u64_mod, ok, Outcome, step, attempt, words_bytes,
}
use nosql_gql_dbms.Stdio.{Stream}
use nosql_gql_dbms.Stdio.Laws.{write_at-ok, Apart, put_bytes}
use nosql_gql_dbms.Json.Entity.{Entity, entity_size, entity_bytes, length-entity_bytes}
use nosql_gql_dbms.Json.{JsonHead}
use nosql_gql_dbms.Section.Header.{Sect, SectHead, section_size, head_words}
use nosql_gql_dbms.Section.Header.Laws.{
  IsValid, length-head, stored, stored-IsValid, Holds-stored-Apart, write-ok,
}
use nosql_gql_dbms.Section.Within.{Within, Within-stored}
use nosql_gql_dbms.Section.Extents.{wrt_itm}
use nosql_gql_dbms.Section.Extents.Frame.{over, reitem, Stores-reitem_self, Stores-reitem-Apart}
use nosql_gql_dbms.File.{File, head_sync}
use nosql_gql_dbms.File.Docs.{rewrite_item, with_links}
use nosql_gql_dbms.File.WellFormed.{
  IsWellFormed, NodeAt, Used, Grows, IsHead-Spares, put_sect, on_ext-ok,
}
use nosql_gql_dbms.File.Grow.{Grows-AllSpared, AllSpared-head}

module _ (f : File) (i soff foff : ℕ) (e : Entity) (val : List ℕ) (j : JsonHead)
    (wf : IsWellFormed f) (n : NodeAt f i soff foff e val j) (bro son : ℕ) (b : bro < u64_mod)
    (s : son < u64_mod) where
  abbrev pub linked : Entity
  linked = with_links e bro son

  abbrev sect : Sect
  sect = over n.head f.filp

  -- the file with the links of the item set
  abbrev pub relinked : File
  relinked = put_sect i (reitem soff linked sect) f

  valid : IsValid sect
  valid = (wf.heads i n.head n.there).valid

  inside : soff + entity_size ≤ section_size
  inside = omega (arith, n.stores.item_high, valid.balance, valid.high)

  rewrites : wrt_itm soff linked sect ≡ (ok tt, reitem soff linked sect)
  unfolding wrt_itm
  rewrites =
      write-ok soff (entity_bytes linked) sect valid
        (omega (arith, inside, length-entity_bytes linked))

  pub rewrite_item-ok : rewrite_item i soff linked f ≡ (ok tt, relinked)
  unfolding rewrite_item stored
  rewrite_item-ok = step _ (
      ap attempt (
        on_ext-ok i (wrt_itm soff linked) f n.head (ok tt) (reitem soff linked sect) n.there
          rewrites))

  within : Within sect (reitem soff linked sect)
  within =
      Within-stored soff (entity_bytes linked) sect
        (omega (arith, inside, length-entity_bytes linked))

  pub relinked-IsWellFormed : IsWellFormed relinked
  unfolding stored
  relinked-IsWellFormed =
      put_sect-IsWellFormed i f n.head (reitem soff linked sect) wf n.there within (record {
        valid = stored-IsValid soff (entity_bytes linked) sect valid;
        in_file =
            Holds-stored-Apart soff (entity_bytes linked) sect 0 (words_bytes (head_words n.head))
              (inl (omega (arith, length-head n.head, n.stores.item_low)))
              (wf.heads i n.head n.there).in_file;
        above = (wf.heads i n.head n.there).above;
        grid = (wf.heads i n.head n.there).grid;
      })

  pub NodeAt-relinked : NodeAt relinked i soff foff linked val j
  unfolding stored
  NodeAt-relinked = record {
    head = n.head;
    there = get_elem?-set_self f.f_extent i n.head n.head n.there;
    place = n.place;
    stores =
        Stores-reitem_self sect soff e linked j.key val valid n.stores
          (omega (arith, n.stores.words, b, s)) (refl, refl, refl, refl);
    fits = n.fits;
    same = n.same;
    grid = n.grid;
  }

  pub NodeAt-relinked_other :
      (k soff' foff' : ℕ) (e' : Entity) (val' : List ℕ) (j' : JsonHead)
      → foff' ≢ foff
      → NodeAt f k soff' foff' e' val' j'
      → NodeAt relinked k soff' foff' e' val' j'
  NodeAt-relinked_other k soff' foff' e' val' j' d m =
      NodeAt-put_sect i f n.head (reitem soff linked sect) wf n.there within k soff' foff' e' val'
        j'
        (λ p.
          Stores-reitem-Apart sect soff' soff e' linked j'.key val' valid n.stores.item_high
            (apart p))
        m
    where
      apart : k ≡ i → Apart soff' entity_size soff entity_size
      apart p =
          let q : m.head ≡ n.head = cc (p, m.there, n.there) in
          omega (arith, d, m.place, n.place, m.grid, n.grid, ap (λ (z : SectHead). z.file_offset) q)

  pub Used-relinked : (o : ℕ) → Used f o → Used relinked o
  unfolding stored
  Used-relinked = Used-put_sect i f n.head (reitem soff linked sect) wf n.there within (omega arith)

-- the file with its header written
abbrev pub headed : File → File
headed f = record f { filp = put_bytes 0 (words_bytes (f.lst_sect_ptr ∷ [])) f.filp }

module _ (f : File) (wf : IsWellFormed f) where
  length-head_bytes : length (words_bytes (f.lst_sect_ptr ∷ [])) ≡ 8
  length-head_bytes = omega (arith, length-words_bytes (f.lst_sect_ptr ∷ []))

  pub head_sync-ok : head_sync f ≡ (ok tt, headed f)
  unfolding head_sync
  head_sync-ok =
      ap (λ (r : Outcome (Unit {0}) × Stream). (r.0, record f { filp = r.1 }))
        (write_at-ok 0 (words_bytes (f.lst_sect_ptr ∷ [])) f.filp wf.laid.seekable (omega arith)
          (omega (arith, length-head_bytes)))

  pub headed-IsWellFormed : IsWellFormed (headed f)
  headed-IsWellFormed = record {
    laid = record {
      extents = wf.laid.extents;
      types = wf.laid.types;
      apart = wf.laid.apart;
      seekable = wf.laid.seekable;
      reachable = wf.laid.reachable;
    };
    start = wf.start;
    room = wf.room;
    heads = λ i h at.
        IsHead-Spares h f.filp (headed f).filp (λ q. q)
          (AllSpared-head f wf (words_bytes (f.lst_sect_ptr ∷ [])) length-head_bytes i h at)
          (wf.heads i h at);
  }

  pub headed-Grows : Grows f (headed f)
  headed-Grows =
      Grows-AllSpared f (headed f) wf (λ i h at. at)
        (AllSpared-head f wf (words_bytes (f.lst_sect_ptr ∷ [])) length-head_bytes)

-- What `file_ctor` makes of a stream, before it writes the header.
abbrev pub cleared : Stream → File
cleared s = record { lst_sect_ptr = file_head_size; f_extent = []; f_types = []; filp = s }

pub cleared-IsWellFormed : (s : Stream) → IsSeekable s → IsWellFormed (cleared s)
cleared-IsWellFormed s p = record {
  laid = omega arith;
  start = omega arith;
  room = omega arith;
  heads = λ i h e. cc;
}

-- `file_ctor` of a file whose stream `fseek` reaches leaves a well-formed file without sections, with
-- its header written.
ctor-IsWellFormed :
    (f : File)
    → IsSeekable f.filp
    → (ctor f ≡ (ok tt, headed (cleared f.filp))) × IsWellFormed (headed (cleared f.filp))
unfolding ctor head_ctor
ctor-IsWellFormed f p =
    let wf : IsWellFormed (cleared f.filp) = cleared-IsWellFormed f.filp p in
    (head_sync-ok (cleared f.filp) wf, headed-IsWellFormed (cleared f.filp) wf)
