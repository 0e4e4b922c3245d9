-- ===== src/Section/Extents/Update.antt =====
-- `sect_ext_update` of an inner record that the slot of the old one can hold.
use nosql_gql_dbms.Base.{
  subst, words_bytes, M, pure, ◌>>◌, ◌>>=◌, ℕ, ◌+◌, ◌-◌, ◌≤◌, ◌≡◌, ◌≢◌, ◌∙◌, refl, ap, sym, List,
  arith, length, ok, step, le→ltb_false, ne→==, u64, u64_mod, inl, inr, false, ◌==◌,
}
use nosql_gql_dbms.Stdio.Laws.{Apart}
use nosql_gql_dbms.Json.Entity.{Entity, entity_size, entity_bytes, length-entity_bytes}
use nosql_gql_dbms.Section.Header.{head_words, Sect, SectHead, head_size}
use nosql_gql_dbms.Section.Header.Laws.{
  moved, Holds-synced_head, Holds-set_header, IsValid, Holds, borders,
}
use nosql_gql_dbms.Section.Header.Compress.{with_borders, with_borders-IsValid, Holds-with_borders}
use nosql_gql_dbms.Section.Extents.{write, update, update_gap, set_borders, promote}
use nosql_gql_dbms.Section.Extents.Slots.{Stores, IsFor}
use nosql_gql_dbms.Section.Extents.Write.{
  with_item, written-IsValid, placed, written, returns, room, frame-Apart, Holds-item, Holds-key,
  Holds-val, header-written,
}
use nosql_gql_dbms.Section.Extents.Read.{rd_itm-ok}

-- the first byte behind the record
abbrev pub rec_end : Entity → ℕ
rec_end e = e.key_ptr + e.key_size

-- An entity whose slot, of the size of its first record, lies in the records.
abbrev pub HasSlot : Sect → Entity → Type 0
HasSlot s e = s.header.fst_rec_ptr + e.init_rec_sz ≤ rec_end e

-- What an update in the slot promises of the section `t` that it leaves.
pub record Updated (soff : ℕ) (old e : Entity) (key val : List ℕ) (s t : Sect) : Type 0 where
  pub header : t.header ≡ s.header
  pub valid : IsValid t
  pub new : Stores t soff e key val
  pub slot : e.init_rec_sz ≡ old.init_rec_sz
  pub same_end : rec_end e ≡ rec_end old
  pub kept :
      (soff' : ℕ) (e' : Entity) (k w : List ℕ)
      → Apart soff' entity_size soff entity_size
      → Apart e'.val_ptr (e'.val_size + e'.key_size) (rec_end old - old.init_rec_sz) old.init_rec_sz
      → Stores s soff' e' k w
      → Stores t soff' e' k w

module _ (soff : ℕ) (old new : Entity) (okey oval key val : List ℕ) (s : Sect) (v : IsValid s)
    (st : Stores s soff old okey oval) (slot : HasSlot s old) (f : IsFor new key val)
    (less : new.init_rec_sz ≤ old.init_rec_sz)
    (fits : length key + length val ≤ old.init_rec_sz) where
  abbrev grown : Entity
  grown = record new { init_rec_sz = old.init_rec_sz }

  promote-grown : promote old new ≡ grown
  promote-grown = ground (arith, less)

  -- the section with the borders that the update sets for its write
  abbrev temp : Sect
  temp = with_borders soff (rec_end old) s

  temp-IsValid : IsValid temp
  temp-IsValid =
      with_borders-IsValid soff (rec_end old) s v st.item_low
        (omega (arith, st.item_high, v.balance, slot)) st.rec_high

  grown-IsFor : IsFor grown key val
  grown-IsFor = ground (arith, f, st.words)

  temp-fits : entity_size + length key + length val ≤ temp.header.free_space
  temp-fits = omega (arith, st.item_high, v.balance, slot, fits)

  -- the section that is left
  abbrev left : Sect
  left = record (written key val grown temp) { header = s.header }

  in_left : (c : ℕ) (cs : List ℕ) → Holds (written key val grown temp) c cs → Holds left c cs
  in_left c cs = Holds-set_header s.header (written key val grown temp) c cs (
      sym (
        ap (λ (h : SectHead). h.file_offset)
          (header-written key val grown temp temp-IsValid temp-fits)))

  -- Outside the item and the slot the bytes are kept.
  unchanged :
      (c : ℕ) (cs : List ℕ)
      → head_size ≤ c
      → Apart c (length cs) soff entity_size
      → Apart c (length cs) (rec_end old - old.init_rec_sz) old.init_rec_sz
      → Holds s c cs
      → Holds left c cs
  unchanged c cs p a b h = in_left c cs (
      frame-Apart key val grown temp temp-IsValid temp-fits c cs p a (omega (arith, b, slot, fits))
        (Holds-with_borders soff (rec_end old) s c cs h))

  -- what the update does behind its write
  abbrev finish : ℕ × Entity → M Sect Entity
  finish x = do set_borders s.header.lst_itm_ptr s.header.fst_rec_ptr; pure x.1

  update_gap-ok : update_gap soff key val old grown s ≡ (ok (placed key val grown temp), left)
  unfolding update_gap
  update_gap-ok =
      step (λ _. write key val grown >>= finish) sets
      ∙ step finish (returns key val grown temp temp-IsValid temp-fits)
      ∙ ap
          (λ (h : SectHead).
            (ok (placed key val grown temp), record (written key val grown temp) { header = h }))
          back
    where
      sets : set_borders soff (u64 (old.key_ptr + old.key_size)) s ≡ (ok tt, temp)
      sets = ap (λ (h : SectHead). (ok tt, record { header = h; filp = s.filp })) heads
        where
          heads :
              record s.header {
                lst_itm_ptr = soff;
                fst_rec_ptr = u64 (rec_end old);
                free_space = u64 (u64 (rec_end old) + u64_mod - soff);
              }
              ≡ borders soff (rec_end old) s.header
          heads = ground (arith, st.rec_high, st.item_high, v.balance, slot)

      back :
          record (written key val grown temp).header {
            lst_itm_ptr = s.header.lst_itm_ptr;
            fst_rec_ptr = s.header.fst_rec_ptr;
            free_space = u64 (s.header.fst_rec_ptr + u64_mod - s.header.lst_itm_ptr);
          }
          ≡ s.header
      back =
          ap
            (λ (h : SectHead). record h {
              lst_itm_ptr = s.header.lst_itm_ptr;
              fst_rec_ptr = s.header.fst_rec_ptr;
              free_space = u64 (s.header.fst_rec_ptr + u64_mod - s.header.lst_itm_ptr);
            })
            (header-written key val grown temp temp-IsValid temp-fits)
          ∙ (λ i. record s.header { free_space = free i })
        where
          free : u64 (s.header.fst_rec_ptr + u64_mod - s.header.lst_itm_ptr) ≡ s.header.free_space
          free = omega (arith, v.balance, v.high)

  is_inner :
      old.val_ptr ≢ s.header.fst_rec_ptr
      → (u64 (old.key_ptr + u64_mod - old.val_size) == s.header.fst_rec_ptr) ≡ false
  is_inner n =
      ne→== (u64 (old.key_ptr + u64_mod - old.val_size)) s.header.fst_rec_ptr
        (omega (arith, n, st.joined, st.rec_high))

  updates :
      old.val_ptr ≢ s.header.fst_rec_ptr
      → update soff key val new s ≡ (ok (placed key val grown temp), left)
  unfolding update
  updates n =
      step _
        (rd_itm-ok soff old s v (omega (arith, st.item_high, v.balance, v.high)) st.words st.item)
      ∙ rw (is_inner n, promote-grown, le→ltb_false old.init_rec_sz grown.init_rec_sz (omega arith))
          update_gap-ok

  left-new : Stores left soff (placed key val grown temp) key val
  left-new = record {
    item =
        in_left soff (entity_bytes (placed key val grown temp))
          (Holds-item key val grown temp temp-IsValid temp-fits);
    key_held =
        in_left (placed key val grown temp).key_ptr key
          (Holds-key key val grown temp temp-IsValid temp-fits);
    val_held =
        in_left (placed key val grown temp).val_ptr val
          (Holds-val key val grown temp temp-IsValid temp-fits);
    key_len = sym f.1;
    val_len = sym f.2;
    joined = omega (arith, room key val grown temp temp-IsValid temp-fits, f);
    words = omega (arith, f, st.words, st.rec_high);
    item_low = st.item_low;
    item_high = st.item_high;
    rec_low = omega (arith, slot, fits);
    rec_high = omega (arith, f, slot, fits, st.rec_high);
  }

  left-kept :
      (soff' : ℕ) (e' : Entity) (k w : List ℕ)
      → Apart soff' entity_size soff entity_size
      → Apart e'.val_ptr (e'.val_size + e'.key_size) (rec_end old - old.init_rec_sz) old.init_rec_sz
      → Stores s soff' e' k w
      → Stores left soff' e' k w
  left-kept soff' e' k w a b h = record {
    item =
        unchanged soff' (entity_bytes e') h.item_low (omega (arith, a, length-entity_bytes e'))
          (inl (omega (arith, length-entity_bytes e', h.item_high, v.balance, slot))) h.item;
    key_held =
        unchanged e'.key_ptr k (omega (arith, v.low, v.balance, h.rec_low, h.joined))
          (inr (omega (arith, h.rec_low, h.joined, v.balance, st.item_high)))
          (omega (arith, b, h.joined, h.key_len)) h.key_held;
    val_held =
        unchanged e'.val_ptr w (omega (arith, v.low, v.balance, h.rec_low, h.joined))
          (inr (omega (arith, h.rec_low, h.joined, v.balance, st.item_high)))
          (omega (arith, b, h.joined, h.val_len)) h.val_held;
    key_len = h.key_len;
    val_len = h.val_len;
    joined = h.joined;
    words = h.words;
    item_low = h.item_low;
    item_high = h.item_high;
    rec_low = h.rec_low;
    rec_high = h.rec_high;
  }

  -- A stored inner entity is updated in the slot of its first record when the new key and value fit the
  -- slot and the new entity asks for no larger one: the update succeeds, the header in memory and the
  -- validity stay, the entity
  -- is stored at its cell with the new key and value, with the same slot and the same end of its
  -- record, and every stored entity with another cell and a record outside the slot stays as it was.
  pub update-Updated :
      old.val_ptr ≢ s.header.fst_rec_ptr
      → (e : Entity) × (t : Sect) × (update soff key val new s ≡ (ok e, t))
        × Updated soff old e key val s t
  unfolding update
  update-Updated inner = (
    placed key val grown temp,
    left,
    updates inner,
    record {
      header = refl;
      valid = record {
        balance = v.balance;
        low = v.low;
        high = v.high;
        placed = v.placed;
        seekable = (written-IsValid key val grown temp temp-IsValid temp-fits).seekable;
      };
      new = left-new;
      slot = refl;
      same_end = omega (arith, f, slot, fits);
      kept = left-kept;
    },
  )

  -- When a stored inner entity is updated in the slot of its first record, as the new key and value fit
  -- the slot and the new entity asks for no larger one, the header in the file afterwards is the one of
  -- the write inside the update: its items end behind the updated cell, and its records begin at the
  -- new record.
  pub update-stale :
      old.val_ptr ≢ s.header.fst_rec_ptr
      → (e : Entity) × (t : Sect) × (update soff key val new s ≡ (ok e, t))
        × Holds t 0 (
            words_bytes (
              head_words
                (borders (soff + entity_size) (rec_end old - length key - length val) s.header)))
  update-stale inner = (
    placed key val grown temp,
    left,
    updates inner,
    in_left 0 (words_bytes (head_words later)) (
        subst (λ (h : SectHead). Holds (written key val grown temp) 0 (words_bytes (head_words h)))
          (header-written key val grown temp temp-IsValid temp-fits)
          (Holds-synced_head (
            moved (soff + entity_size) (rec_end old - length key - length val)
              (with_item key val grown temp)))),
  )
    where
      later : SectHead
      later = borders (soff + entity_size) (rec_end old - length key - length val) s.header
