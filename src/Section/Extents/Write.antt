-- ===== src/Section/Extents/Write.antt =====
-- `sect_ext_write` on a valid section: what it leaves in the file, and when it refuses.
use nosql_gql_dbms.Base.{inl, inr, ltb→lt, ltb_false→le, Bool-cases, ltb, sym, ◌↔◌, Outcome}
use nosql_gql_dbms.Base.{
  subst, ◌⊎◌, u64_mod, failed, ◌<◌, lt→ltb, step, ap, ℕ, ◌+◌, ◌-◌, ◌≤◌, ◌≡◌, ◌∙◌, List, arith,
  length, ok, u64, le→ltb_false, false,
}
use nosql_gql_dbms.Json.Entity.{Entity, entity_size, entity_bytes, length-entity_bytes}
use nosql_gql_dbms.Section.Header
use nosql_gql_dbms.Section.Header.{shift_lip, Sect, SectHead, head_size}
use nosql_gql_dbms.Section.Header.Laws.{
  Holds-stored-Apart, sync-valid, Holds-synced, Holds-moved, IsValid, Holds, stored, synced, moved,
  borders, header-stored, header-synced, header-moved, stored-IsValid, synced-IsValid,
  moved-IsValid, write-ok, shift_lip-up, Holds-stored_self,
}
use nosql_gql_dbms.Stdio.Laws.{Apart}
use nosql_gql_dbms.Section.Extents.{wrt_itm, write}
use nosql_gql_dbms.Section.Record.{push_rec}
use nosql_gql_dbms.Section.Record.Laws.{
  pushed, pushed-IsValid, header-pushed, push_rec-ok, Holds-pushed_self, Holds-pushed,
}

-- `sect_ext_write` in its parts, where the record and the item fit the free space.
module _ (key val : List ℕ) (ent : Entity) (s : Sect) where
  abbrev pub key_at : ℕ
  key_at = s.header.fst_rec_ptr - length key

  abbrev pub val_at : ℕ
  val_at = s.header.fst_rec_ptr - length key - length val

  abbrev pub placed : Entity
  placed = record ent { key_ptr = key_at; val_ptr = val_at }

  abbrev pub with_key : Sect
  with_key = pushed key s

  abbrev pub with_val : Sect
  with_val = pushed val with_key

  abbrev pub with_item : Sect
  with_item = stored s.header.lst_itm_ptr (entity_bytes placed) with_val

  abbrev pub written : Sect
  written = synced (moved (s.header.lst_itm_ptr + entity_size) val_at with_item)

  module _ (v : IsValid s)
      (fits : entity_size + length key + length val ≤ s.header.free_space) where
    header-with_key : with_key.header ≡ borders s.header.lst_itm_ptr key_at s.header
    header-with_key = header-pushed key s

    pub with_key-IsValid : IsValid with_key
    with_key-IsValid = pushed-IsValid key s v (omega arith)

    pub free-with_key : length val + entity_size ≤ with_key.header.free_space
    free-with_key = rw header-with_key (omega (arith, v.balance))

    pub header-with_val : with_val.header ≡ borders s.header.lst_itm_ptr val_at s.header
    header-with_val = header-pushed val with_key ∙ rw (header-pushed key s)

    with_val-IsValid : IsValid with_val
    with_val-IsValid = pushed-IsValid val with_key with_key-IsValid (omega (arith, free-with_key))

    header-with_item : with_item.header ≡ borders s.header.lst_itm_ptr val_at s.header
    header-with_item =
        header-stored s.header.lst_itm_ptr (entity_bytes placed) with_val ∙ header-with_val

    with_item-IsValid : IsValid with_item
    with_item-IsValid =
        stored-IsValid s.header.lst_itm_ptr (entity_bytes placed) with_val with_val-IsValid

    pub header-written :
        written.header ≡ borders (s.header.lst_itm_ptr + entity_size) val_at s.header
    header-written =
        header-synced (moved (s.header.lst_itm_ptr + entity_size) val_at with_item)
        ∙ header-moved (s.header.lst_itm_ptr + entity_size) val_at with_item
        ∙ rw header-with_item

    pub room : s.header.lst_itm_ptr + entity_size ≤ val_at
    room = omega (arith, v.balance)

    last-IsValid : IsValid (moved (s.header.lst_itm_ptr + entity_size) val_at with_item)
    last-IsValid =
        moved-IsValid (s.header.lst_itm_ptr + entity_size) val_at with_item with_item-IsValid
          (omega (arith, v.low)) room (omega (arith, v.high))

    pub written-IsValid : IsValid written
    written-IsValid =
        synced-IsValid (moved (s.header.lst_itm_ptr + entity_size) val_at with_item) last-IsValid

    push_key : push_rec key s ≡ (ok key_at, with_key)
    push_key = push_rec-ok key s v (omega arith)

    push_val : push_rec val with_key ≡ (ok val_at, with_val)
    push_val =
        push_rec-ok val with_key with_key-IsValid (omega (arith, free-with_key))
        ∙ ap (λ k. (ok k, with_val)) (rw header-with_key)

    put_item : wrt_itm with_val.header.lst_itm_ptr placed with_val ≡ (ok tt, with_item)
    unfolding wrt_itm
    put_item =
        ap (λ k. Header.write k (entity_bytes placed) with_val) (rw header-with_val)
        ∙ write-ok s.header.lst_itm_ptr (entity_bytes placed) with_val with_val-IsValid
            (omega (arith, room, length-entity_bytes placed, v.high))

    shift_item :
        shift_lip entity_size with_item
        ≡ (ok tt, moved (s.header.lst_itm_ptr + entity_size) val_at with_item)
    shift_item =
        shift_lip-up entity_size with_item with_item-IsValid
          (rw header-with_item (omega (arith, room)))
        ∙ ap
            (λ (h : SectHead). (ok tt, moved (h.lst_itm_ptr + entity_size) h.fst_rec_ptr with_item))
            header-with_item

    guard : ltb s.header.free_space (u64 (entity_size + length key + length val)) ≡ false
    guard =
        le→ltb_false s.header.free_space (u64 (entity_size + length key + length val))
          (omega (arith, v.balance, v.high))

    pub returns : write key val ent s ≡ (ok (s.header.lst_itm_ptr, placed), written)
    unfolding write
    returns = rw guard (
        step _ push_key
        ∙ step _ push_val
        ∙ step _ put_item
        ∙ step _ shift_item
        ∙ step _
            (sync-valid (moved (s.header.lst_itm_ptr + entity_size) val_at with_item) last-IsValid))

    -- What the later steps leave of a range that only the earlier ones could touch.
    after_item : (c : ℕ) (cs : List ℕ) → head_size ≤ c → Holds with_item c cs → Holds written c cs
    after_item c cs p h =
        Holds-synced (moved (s.header.lst_itm_ptr + entity_size) val_at with_item) c cs p
          (Holds-moved (s.header.lst_itm_ptr + entity_size) val_at with_item c cs p h)

    after_val :
        (c : ℕ) (cs : List ℕ)
        → head_size ≤ c
        → Apart c (length cs) s.header.lst_itm_ptr entity_size
        → Holds with_val c cs
        → Holds written c cs
    after_val c cs p a h = after_item c cs p (
        Holds-stored-Apart s.header.lst_itm_ptr (entity_bytes placed) with_val c cs
          (rw (length-entity_bytes placed) a) h)

    after_key :
        (c : ℕ) (cs : List ℕ)
        → head_size ≤ c
        → Apart c (length cs) s.header.lst_itm_ptr entity_size
        → (c + length cs ≤ val_at) ⊎ (key_at ≤ c)
        → Holds with_key c cs
        → Holds written c cs
    after_key c cs p a b h = after_val c cs p a (
        Holds-pushed val with_key c cs (rw header-with_key (omega (arith, room))) p
          (rw header-with_key b) h)

    -- The bytes between the items and the old border are new; all others are kept.
    pub frame :
        (c : ℕ) (cs : List ℕ)
        → head_size ≤ c
        → (c + length cs ≤ s.header.lst_itm_ptr) ⊎ (s.header.fst_rec_ptr ≤ c)
        → Holds s c cs
        → Holds written c cs
    frame c cs p a h =
        after_key c cs p (omega (arith, room, a)) (omega (arith, room, a))
          (Holds-pushed key s c cs (omega (arith, room)) p (omega (arith, room, a)) h)

    -- Only the new item and the new record are written.
    pub frame-Apart :
        (c : ℕ) (cs : List ℕ)
        → head_size ≤ c
        → Apart c (length cs) s.header.lst_itm_ptr entity_size
        → Apart c (length cs) val_at (length val + length key)
        → Holds s c cs
        → Holds written c cs
    frame-Apart c cs p a b h =
        after_key c cs p a (omega (arith, room, b))
          (Holds-pushed key s c cs (omega (arith, room)) p (omega (arith, room, b)) h)

    pub Holds-item : Holds written s.header.lst_itm_ptr (entity_bytes placed)
    Holds-item =
        after_item s.header.lst_itm_ptr (entity_bytes placed) v.low
          (Holds-stored_self s.header.lst_itm_ptr (entity_bytes placed) with_val)

    pub Holds-val : Holds written val_at val
    Holds-val = after_val val_at val (omega (arith, room, v.low)) (omega (arith, room)) (
        subst (λ (k : ℕ). Holds with_val k val) (rw header-with_key)
          (Holds-pushed_self val with_key))

    pub Holds-key : Holds written key_at key
    Holds-key =
        after_key key_at key (omega (arith, room, v.low)) (omega (arith, room)) (omega arith)
          (Holds-pushed_self key s)

-- For sizes that add up to less than 2^64, a section with too little free space refuses, and is left
-- as it is.
pub write-failed :
    (key val : List ℕ) (ent : Entity) (s : Sect)
    → entity_size + length key + length val < u64_mod
    → s.header.free_space < entity_size + length key + length val
    → write key val ent s ≡ (failed, s)
unfolding write
write-failed key val ent s h l =
    rw (lt→ltb s.header.free_space (u64 (entity_size + length key + length val)) (omega arith))

-- In a valid section, for sizes that add up to less than 2^64, `sect_ext_write` succeeds exactly where the
-- item, the key and the value take no more than the free space, all of it included; else it refuses, and
-- leaves the section and the file as they are.
pub write-fits_iff :
    (key val : List ℕ) (ent : Entity) (s : Sect)
    → IsValid s
    → entity_size + length key + length val < u64_mod
    → (((r : ℕ × Entity) × (u : Sect) × (write key val ent s ≡ (ok r, u)))
        ↔ (entity_size + length key + length val ≤ s.header.free_space))
      × (¬ (entity_size + length key + length val ≤ s.header.free_space)
          → write key val ent s ≡ (failed, s))
write-fits_iff key val ent s v small = (
  (
    λ (r, u, e).
        elim (Bool-cases (ltb s.header.free_space (entity_size + length key + length val))) [
          | inl y ↦ absurd (
              failed_ne r u s
                (sym (write-failed key val ent s small (ltb→lt s.header.free_space _ y)) ∙ e))
          | inr n ↦ ltb_false→le s.header.free_space _ n
        ],
    λ fits. (
      (s.header.lst_itm_ptr, placed key val ent s),
      written key val ent s,
      returns key val ent s v fits,
    ),
  ),
  λ n. write-failed key val ent s small (omega (arith, n)),
)
  where
    failed_ne :
        (r : ℕ × Entity) (u s : Sect)
        → ¬ (◌≡◌ {A = Outcome (ℕ × Entity) × Sect} (failed, s) (ok r, u))
    failed_ne r u s e = cc
