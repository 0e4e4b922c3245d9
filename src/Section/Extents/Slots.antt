-- ===== src/Section/Extents/Slots.antt =====
-- What a section of entities stands for: an entity with the bytes of its key and of its value.
use nosql_gql_dbms.Base.{sym, inl, inr, ℕ, ◌+◌, ◌≤◌, ◌≡◌, List, arith, length, ok}
use nosql_gql_dbms.Json.Entity.{entity_bytes, length-entity_bytes, Entity, entity_size, IsEntity}
use nosql_gql_dbms.Section.Header.{Sect, section_size, head_size}
use nosql_gql_dbms.Section.Header.Laws.{IsSynced, synced-IsSynced, moved, borders, IsValid, Holds}
use nosql_gql_dbms.Section.Extents.{write}
use nosql_gql_dbms.Section.Extents.Write.{
  with_item, written-IsValid, header-written, room, frame, Holds-item, Holds-val, Holds-key, val_at,
  placed, written, returns,
}

-- At `soff` stands the item `e`, whose record holds `val` and then `key`.
pub record Stores (s : Sect) (soff : ℕ) (e : Entity) (key val : List ℕ) : Type 0 where
  pub item : Holds s soff (entity_bytes e)
  pub key_held : Holds s e.key_ptr key
  pub val_held : Holds s e.val_ptr val
  pub key_len : length key ≡ e.key_size
  pub val_len : length val ≡ e.val_size
  pub joined : e.key_ptr ≡ e.val_ptr + e.val_size
  pub words : IsEntity e
  pub item_low : head_size ≤ soff
  pub item_high : soff + entity_size ≤ s.header.lst_itm_ptr
  pub rec_low : s.header.fst_rec_ptr ≤ e.val_ptr
  pub rec_high : e.key_ptr + e.key_size ≤ section_size

-- An entity that `entity_ctor` made for a key and a value of these lengths.
abbrev pub IsFor : Entity → List ℕ → List ℕ → Type 0
IsFor ent key val = IsEntity ent × (ent.key_size ≡ length key) × (ent.val_size ≡ length val)

-- What `sect_ext_write` promises of the section `t` that it leaves.
pub record Wrote (key val : List ℕ) (ent : Entity) (s t : Sect) : Type 0 where
  pub valid : IsValid t
  pub in_file : IsSynced t
  pub header :
      t.header ≡ borders (s.header.lst_itm_ptr + entity_size) (val_at key val ent s) s.header
  pub new : Stores t s.header.lst_itm_ptr (placed key val ent s) key val
  pub kept : (soff : ℕ) (e : Entity) (k w : List ℕ) → Stores s soff e k w → Stores t soff e k w

module _ (key val : List ℕ) (ent : Entity) (s : Sect) (v : IsValid s)
    (fits : entity_size + length key + length val ≤ s.header.free_space) where
  written-new :
      IsFor ent key val
      → Stores (written key val ent s) s.header.lst_itm_ptr (placed key val ent s) key val
  written-new f = record {
    item = Holds-item key val ent s v fits;
    key_held = Holds-key key val ent s v fits;
    val_held = Holds-val key val ent s v fits;
    key_len = sym f.1;
    val_len = sym f.2;
    joined = omega (arith, room key val ent s v fits, f.2);
    words = omega (arith, f.0, v.high, room key val ent s v fits);
    item_low = v.low;
    item_high = rw (header-written key val ent s v fits) (omega arith);
    rec_low = rw (header-written key val ent s v fits) (omega arith);
    rec_high = omega (arith, f.1, v.high, room key val ent s v fits);
  }

  written-kept :
      (soff : ℕ) (e : Entity) (k w : List ℕ)
      → Stores s soff e k w
      → Stores (written key val ent s) soff e k w
  written-kept soff e k w h = record {
    item =
        frame key val ent s v fits soff (entity_bytes e) h.item_low
          (inl (omega (arith, length-entity_bytes e, h.item_high))) h.item;
    key_held =
        frame key val ent s v fits e.key_ptr k
          (omega (arith, v.low, v.balance, h.rec_low, h.joined))
          (inr (omega (arith, h.rec_low, h.joined))) h.key_held;
    val_held =
        frame key val ent s v fits e.val_ptr w (omega (arith, v.low, v.balance, h.rec_low))
          (inr h.rec_low) h.val_held;
    key_len = h.key_len;
    val_len = h.val_len;
    joined = h.joined;
    words = h.words;
    item_low = h.item_low;
    item_high = rw (header-written key val ent s v fits) (omega (arith, h.item_high));
    rec_low = rw (header-written key val ent s v fits) (omega (arith, h.rec_low));
    rec_high = h.rec_high;
  }

  pub written-Wrote : IsFor ent key val → Wrote key val ent s (written key val ent s)
  written-Wrote f = record {
    in_file = synced-IsSynced (
        moved (s.header.lst_itm_ptr + entity_size) (val_at key val ent s)
          (with_item key val ent s));
    valid = written-IsValid key val ent s v fits;
    header = header-written key val ent s v fits;
    new = written-new f;
    kept = written-kept;
  }

-- On a valid section with room for the item and the record, `sect_ext_write` succeeds at the first
-- free cell. The new entity is stored there with its key and value, the borders move by exactly its
-- sizes, every stored entity stays as it was, the section is
-- valid again, and its header is in the file.
pub write-Wrote :
    (key val : List ℕ) (ent : Entity) (s : Sect)
    → IsValid s
    → IsFor ent key val
    → entity_size + length key + length val ≤ s.header.free_space
    → (t : Sect) × (write key val ent s ≡ (ok (s.header.lst_itm_ptr, placed key val ent s), t))
      × Wrote key val ent s t
write-Wrote key val ent s v f fits =
    (written key val ent s, returns key val ent s v fits, written-Wrote key val ent s v fits f)
