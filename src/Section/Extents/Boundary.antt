-- ===== src/Section/Extents/Boundary.antt =====
-- `sect_ext_update` of the record at the border of the records.
use nosql_gql_dbms.Base.{
  ℕ, ◌+◌, ◌-◌, ◌≤◌, ◌≡◌, ◌∙◌, refl, ap, sym, List, arith, length, ok, max, M, pure, get, ◌>>=◌,
  ◌>>◌, ltb, step, le→ltb_false, eq→==, u64, u64_mod, inl, inr, false, ◌⊎◌,
}
use nosql_gql_dbms.Stdio.Laws.{Apart}
use nosql_gql_dbms.Json.Entity.{Entity, entity_size, entity_bytes, length-entity_bytes}
use nosql_gql_dbms.Section.Header.{Sect, SectHead, head_size, sync}
use nosql_gql_dbms.Section.Header.Laws.{
  IsValid, IsSynced, Holds, Holds-moved, borders, moved, moved-IsValid, header-moved, sync-moved,
  synced-IsSynced,
}
use nosql_gql_dbms.Section.Header.Compress.{with_borders, with_borders-IsValid, Holds-with_borders}
use nosql_gql_dbms.Section.Extents.{write, update, update_boundary, set_borders, promote}
use nosql_gql_dbms.Section.Extents.Slots.{Stores, IsFor}
use nosql_gql_dbms.Section.Extents.Write.{
  placed, written, written-IsValid, returns, room, frame-Apart, Holds-item, Holds-key, Holds-val,
  header-written,
}
use nosql_gql_dbms.Section.Extents.Read.{rd_itm-ok}
use nosql_gql_dbms.Section.Extents.Update.{rec_end}

-- What an update at the border promises of the section `t` that it leaves.
pub record Replaced (soff : ℕ) (old new e : Entity) (key val : List ℕ) (s t : Sect) : Type 0 where
  pub valid : IsValid t
  pub in_file : IsSynced t
  pub header :
      t.header ≡ borders s.header.lst_itm_ptr (rec_end old - length key - length val) s.header
  pub new_stored : Stores t soff e key val
  pub slot : e.init_rec_sz ≡ max old.init_rec_sz new.init_rec_sz
  pub kept :
      (soff' : ℕ) (e' : Entity) (k w : List ℕ)
      → Apart soff' entity_size soff entity_size
      → rec_end old ≤ e'.val_ptr
      → Stores s soff' e' k w
      → Stores t soff' e' k w

module _ (soff : ℕ) (old new : Entity) (okey oval key val : List ℕ) (s : Sect) (v : IsValid s)
    (st : Stores s soff old okey oval) (full : rec_end old ≡ s.header.fst_rec_ptr + old.init_rec_sz)
    (f : IsFor new key val) (fits : length key + length val ≤ new.init_rec_sz)
    (enough : new.init_rec_sz ≤ s.header.free_space + old.init_rec_sz) where
  abbrev grown : Entity
  grown = record new { init_rec_sz = max old.init_rec_sz new.init_rec_sz }

  promote-grown : promote old new ≡ grown
  promote-grown = ground arith

  grown-IsFor : IsFor grown key val
  grown-IsFor = ground (arith, f, st.words)

  -- the section with the borders that the update sets for its write
  abbrev temp : Sect
  temp = with_borders soff (rec_end old) s

  temp-IsValid : IsValid temp
  temp-IsValid =
      with_borders-IsValid soff (rec_end old) s v st.item_low
        (omega (arith, st.item_high, v.balance, full)) st.rec_high

  temp-fits : entity_size + length key + length val ≤ temp.header.free_space
  temp-fits = omega (arith, st.item_high, v.balance, full, fits, enough)

  abbrev wrote : Sect
  wrote = written key val grown temp

  wrote-IsValid : IsValid wrote
  wrote-IsValid = written-IsValid key val grown temp temp-IsValid temp-fits

  -- the border of the records behind the write
  abbrev border : ℕ
  border = rec_end old - length key - length val

  frp-wrote : wrote.header.fst_rec_ptr ≡ border
  frp-wrote =
      ap (λ (h : SectHead). h.fst_rec_ptr)
        (header-written key val grown temp temp-IsValid temp-fits)

  border_low : s.header.lst_itm_ptr ≤ border
  border_low = omega (arith, v.balance, full, fits, enough)

  -- the section that is left
  abbrev left : Sect
  left = moved s.header.lst_itm_ptr border wrote

  -- what the update does behind its write
  abbrev finish : ℕ × Entity → M Sect Entity
  finish x = do t ← get; set_borders s.header.lst_itm_ptr t.header.fst_rec_ptr; sync; pure x.1

  sets : set_borders soff (u64 (s.header.fst_rec_ptr + old.init_rec_sz)) s ≡ (ok tt, temp)
  unfolding set_borders
  sets = ap (λ (h : SectHead). (ok tt, record { header = h; filp = s.filp })) heads
    where
      heads :
          record s.header {
            lst_itm_ptr = soff;
            fst_rec_ptr = u64 (s.header.fst_rec_ptr + old.init_rec_sz);
            free_space = u64 (u64 (s.header.fst_rec_ptr + old.init_rec_sz) + u64_mod - soff);
          }
          ≡ borders soff (rec_end old) s.header
      heads = ground (arith, st.rec_high, st.item_high, v.balance, full)

  finishes : (x : ℕ × Entity) → finish x wrote ≡ (ok x.1, left)
  unfolding set_borders
  finishes x = step _ (
      sync-moved s.header.lst_itm_ptr border wrote wrote-IsValid λ i. record wrote.header {
        lst_itm_ptr = s.header.lst_itm_ptr;
        fst_rec_ptr = frp-wrote i;
        free_space = free i;
      })
    where
      free :
          u64 (wrote.header.fst_rec_ptr + u64_mod - s.header.lst_itm_ptr)
          ≡ border - s.header.lst_itm_ptr
      free = omega (arith, frp-wrote, border_low, st.rec_high)

  update_boundary-ok :
      update_boundary soff key val old grown s ≡ (ok (placed key val grown temp), left)
  unfolding update_boundary
  update_boundary-ok = rw guard (
      step (λ _. write key val grown >>= finish) sets
      ∙ step finish (returns key val grown temp temp-IsValid temp-fits)
      ∙ finishes (soff, placed key val grown temp))
    where
      guard : ltb (u64 (s.header.free_space + old.init_rec_sz)) grown.init_rec_sz ≡ false
      guard =
          le→ltb_false (u64 (s.header.free_space + old.init_rec_sz)) grown.init_rec_sz
            (ground (arith, enough, full, st.rec_high, v.balance))

  updates :
      old.val_ptr ≡ s.header.fst_rec_ptr
      → update soff key val new s ≡ (ok (placed key val grown temp), left)
  unfolding update
  updates at =
      step _
        (rd_itm-ok soff old s v (omega (arith, st.item_high, v.balance, v.high)) st.words st.item)
      ∙ rw
          (
            eq→== (u64 (old.key_ptr + u64_mod - old.val_size)) s.header.fst_rec_ptr
                (omega (arith, at, st.joined, st.rec_high)),
            promote-grown,
          )
          update_boundary-ok

  header-left : left.header ≡ borders s.header.lst_itm_ptr border s.header
  header-left =
      header-moved s.header.lst_itm_ptr border wrote
      ∙ ap (λ (h : SectHead). borders s.header.lst_itm_ptr border h)
          (header-written key val grown temp temp-IsValid temp-fits)

  lip-left : left.header.lst_itm_ptr ≡ s.header.lst_itm_ptr
  lip-left = ap (λ (h : SectHead). h.lst_itm_ptr) header-left

  frp-left : left.header.fst_rec_ptr ≡ border
  frp-left = ap (λ (h : SectHead). h.fst_rec_ptr) header-left

  in_left : (c : ℕ) (cs : List ℕ) → head_size ≤ c → Holds wrote c cs → Holds left c cs
  in_left c cs p h = Holds-moved s.header.lst_itm_ptr border wrote c cs p h

  left-new : Stores left soff (placed key val grown temp) key val
  left-new = record {
    item =
        in_left soff (entity_bytes (placed key val grown temp)) st.item_low
          (Holds-item key val grown temp temp-IsValid temp-fits);
    key_held =
        in_left (placed key val grown temp).key_ptr key (omega (arith, border_low, v.low))
          (Holds-key key val grown temp temp-IsValid temp-fits);
    val_held =
        in_left (placed key val grown temp).val_ptr val (omega (arith, border_low, v.low))
          (Holds-val key val grown temp temp-IsValid temp-fits);
    key_len = sym f.1;
    val_len = sym f.2;
    joined = omega (arith, room key val grown temp temp-IsValid temp-fits, f);
    words = omega (arith, grown-IsFor, st.rec_high);
    item_low = st.item_low;
    item_high = omega (arith, lip-left, st.item_high);
    rec_low = omega (arith, frp-left);
    rec_high = omega (arith, f, border_low, st.rec_high);
  }

  unchanged :
      (c : ℕ) (cs : List ℕ)
      → head_size ≤ c
      → Apart c (length cs) soff entity_size
      → (c + length cs ≤ border) ⊎ (rec_end old ≤ c)
      → Holds s c cs
      → Holds left c cs
  unchanged c cs p a b h = in_left c cs p (
      frame-Apart key val grown temp temp-IsValid temp-fits c cs p a (omega (arith, b, border_low))
        (Holds-with_borders soff (rec_end old) s c cs h))

  left-kept :
      (soff' : ℕ) (e' : Entity) (k w : List ℕ)
      → Apart soff' entity_size soff entity_size
      → rec_end old ≤ e'.val_ptr
      → Stores s soff' e' k w
      → Stores left soff' e' k w
  left-kept soff' e' k w a b h = record {
    item =
        unchanged soff' (entity_bytes e') h.item_low (omega (arith, a, length-entity_bytes e'))
          (inl (omega (arith, length-entity_bytes e', h.item_high, border_low))) h.item;
    key_held =
        unchanged e'.key_ptr k (omega (arith, v.low, v.balance, h.rec_low, h.joined))
          (inr (omega (arith, h.rec_low, h.joined, v.balance, st.item_high)))
          (inr (omega (arith, b, h.joined))) h.key_held;
    val_held =
        unchanged e'.val_ptr w (omega (arith, v.low, v.balance, h.rec_low))
          (inr (omega (arith, h.rec_low, v.balance, st.item_high))) (inr b) h.val_held;
    key_len = h.key_len;
    val_len = h.val_len;
    joined = h.joined;
    words = h.words;
    item_low = h.item_low;
    item_high = omega (arith, lip-left, h.item_high);
    rec_low = omega (arith, frp-left, b);
    rec_high = h.rec_high;
  }

  -- The stored entity at the border of the records, whose record fills its slot, is updated when the
  -- new record fits the free space together with the slot: the update succeeds, the entity is stored
  -- at its cell with the new key and value, in a slot of the larger size, the border of the records
  -- moves to the new record, every stored entity with another cell and a record behind the old one
  -- stays as it was, and the section is valid with its header in the file.
  pub update-Replaced :
      old.val_ptr ≡ s.header.fst_rec_ptr
      → (e : Entity) × (t : Sect) × (update soff key val new s ≡ (ok e, t))
        × Replaced soff old new e key val s t
  update-Replaced at = (
    placed key val grown temp,
    left,
    updates at,
    record {
      valid =
          moved-IsValid s.header.lst_itm_ptr border wrote wrote-IsValid v.low border_low
            (omega (arith, st.rec_high));
      in_file =
          (unfold moved in
            synced-IsSynced
              (record wrote { header = borders s.header.lst_itm_ptr border wrote.header }));
      header = header-left;
      new_stored = left-new;
      slot = refl;
      kept = left-kept;
    },
  )
