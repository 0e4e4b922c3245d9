-- ===== src/Section/Extents/Frame.antt =====
-- `sect_ext_write` and the rewriting of an item write in their section only, and what that leaves.
use nosql_gql_dbms.Base.{ℕ, ◌+◌, ◌≤◌, ◌≡◌, sym, ◌∙◌, subst, inr, List, arith, length}
use nosql_gql_dbms.Stdio.{Stream}
use nosql_gql_dbms.Stdio.Laws.{bytes-patch-Apart, Apart, IsSeekable, put_bytes}
use nosql_gql_dbms.Json.Entity.{Entity, entity_size, entity_bytes, length-entity_bytes, IsEntity}
use nosql_gql_dbms.Section.Header.{Sect, SectHead, section_size}
use nosql_gql_dbms.Section.Header.Laws.{
  IsValid, Holds, stored, moved, Holds-stored-Apart, Holds-stored_self,
}
use nosql_gql_dbms.Section.Within.{
  Within, Within-trans, Within-pushed, Within-stored, Within-moved, Within-synced, HoldsAt-Holds,
  Holds-HoldsAt,
}
use nosql_gql_dbms.Section.Extents.Write.{
  written, with_key, with_val, with_item, val_at, placed, room, with_key-IsValid, free-with_key,
}
use nosql_gql_dbms.Section.Extents.Slots.{Stores}

pub Within-written :
    (key val : List ℕ) (ent : Entity) (s : Sect)
    → IsValid s
    → entity_size + length key + length val ≤ s.header.free_space
    → Within s (written key val ent s)
Within-written key val ent s v fits =
    let k : Sect = with_key key val ent s in
    let w : Sect = with_val key val ent s in
    let i : Sect = with_item key val ent s in
    let m : Sect = moved (s.header.lst_itm_ptr + entity_size) (val_at key val ent s) i in
    Within-trans s k (written key val ent s) (Within-pushed key s v (omega arith)) (
      Within-trans k w (written key val ent s)
        (Within-pushed val k (with_key-IsValid key val ent s v fits)
          (omega (arith, free-with_key key val ent s v fits)))
        (Within-trans w i (written key val ent s)
          (Within-stored s.header.lst_itm_ptr (entity_bytes (placed key val ent s)) w (
            omega (
              arith,
              length-entity_bytes (placed key val ent s),
              room key val ent s v fits,
              v.high,
            )))
          (Within-trans i m (written key val ent s)
            (Within-moved (s.header.lst_itm_ptr + entity_size) (val_at key val ent s) i)
            (Within-synced m))))

-- Two sections that share no byte.
abbrev pub Separate : SectHead → SectHead → Type 0
Separate h k = Apart h.file_offset section_size k.file_offset section_size

-- A header over a stream.
abbrev pub over : SectHead → Stream → Sect
over h f = record { header = h; filp = f }

-- What the section of `h` holds over `f` it holds over `g`.
abbrev pub Spares : SectHead → Stream → Stream → Type 0
Spares h f g =
    (c : ℕ) (cs : List ℕ)
    → c + length cs ≤ section_size
    → Holds (over h f) c cs
    → Holds (over h g) c cs

pub Spares-Within :
    (h : SectHead) (s t : Sect) → Within s t → Separate h s.header → Spares h s.filp t.filp
Spares-Within h s t w p c cs b x =
    Holds-HoldsAt (over h t.filp) c cs
      (w.kept (h.file_offset + c) cs (omega (arith, p, b)) (HoldsAt-Holds (over h s.filp) c cs x))

-- A write below the section.
pub Spares-put_bytes :
    (h : SectHead) (f : Stream) (a : ℕ) (ds : List ℕ)
    → a + length ds ≤ h.file_offset
    → Spares h f (put_bytes a ds f)
Spares-put_bytes h f a ds p c cs b x = record {
  same =
      bytes-patch-Apart f.byte a ds (h.file_offset + c) (length cs) (inr (omega (arith, p)))
      ∙ x.same;
  inside = ground (arith, x.inside);
}

pub IsValid-over :
    (h : SectHead) (f g : Stream)
    → (IsSeekable f → IsSeekable g)
    → IsValid (over h f)
    → IsValid (over h g)
IsValid-over h f g q v = record {
  balance = v.balance;
  low = v.low;
  high = v.high;
  placed = v.placed;
  seekable = q v.seekable;
}

pub Stores-Spares :
    (h : SectHead) (f g : Stream) (soff : ℕ) (e : Entity) (k v : List ℕ)
    → Spares h f g
    → IsValid (over h f)
    → Stores (over h f) soff e k v
    → Stores (over h g) soff e k v
Stores-Spares h f g soff e k v w i x = record {
  item =
      w soff (entity_bytes e) (omega (arith, length-entity_bytes e, x.item_high, i.balance, i.high))
        x.item;
  key_held = w e.key_ptr k (omega (arith, x.key_len, x.rec_high)) x.key_held;
  val_held = w e.val_ptr v (omega (arith, x.val_len, x.joined, x.rec_high)) x.val_held;
  key_len = x.key_len;
  val_len = x.val_len;
  joined = x.joined;
  words = x.words;
  item_low = x.item_low;
  item_high = x.item_high;
  rec_low = x.rec_low;
  rec_high = x.rec_high;
}

-- The section with the item at `soff` written again.
abbrev pub reitem : ℕ → Entity → Sect → Sect
reitem soff e s = stored soff (entity_bytes e) s

-- The entity that stands there keeps its record when only its family and its type are set anew.
pub Stores-reitem_self :
    (s : Sect) (soff : ℕ) (e e' : Entity) (k v : List ℕ)
    → IsValid s
    → Stores s soff e k v
    → IsEntity e'
    → (e'.key_ptr ≡ e.key_ptr)
      × (e'.key_size ≡ e.key_size)
      × (e'.val_ptr ≡ e.val_ptr)
      × (e'.val_size ≡ e.val_size)
    → Stores (reitem soff e' s) soff e' k v
unfolding stored
Stores-reitem_self s soff e e' k v i x w q = record {
  item = Holds-stored_self soff (entity_bytes e') s;
  key_held =
      subst (λ (p : ℕ). Holds (reitem soff e' s) p k) (sym q.0)
        (Holds-stored-Apart soff (entity_bytes e') s e.key_ptr k
          (inr (omega (arith, length-entity_bytes e', x.item_high, i.balance, x.rec_low, x.joined)))
          x.key_held);
  val_held =
      subst (λ (p : ℕ). Holds (reitem soff e' s) p v) (sym q.2)
        (Holds-stored-Apart soff (entity_bytes e') s e.val_ptr v
          (inr (omega (arith, length-entity_bytes e', x.item_high, i.balance, x.rec_low)))
          x.val_held);
  key_len = omega (arith, q, x.key_len);
  val_len = omega (arith, q, x.val_len);
  joined = omega (arith, q, x.joined);
  words = w;
  item_low = x.item_low;
  item_high = x.item_high;
  rec_low = omega (arith, q, x.rec_low);
  rec_high = omega (arith, q, x.rec_high);
}

-- The entities in other cells stay.
pub Stores-reitem-Apart :
    (s : Sect) (soff soff' : ℕ) (e e' : Entity) (k v : List ℕ)
    → IsValid s
    → soff' + entity_size ≤ s.header.lst_itm_ptr
    → Apart soff entity_size soff' entity_size
    → Stores s soff e k v
    → Stores (reitem soff' e' s) soff e k v
unfolding stored
Stores-reitem-Apart s soff soff' e e' k v i c p x = record {
  item =
      Holds-stored-Apart soff' (entity_bytes e') s soff (entity_bytes e)
        (omega (arith, length-entity_bytes e, length-entity_bytes e', p)) x.item;
  key_held =
      Holds-stored-Apart soff' (entity_bytes e') s e.key_ptr k
        (inr (omega (arith, length-entity_bytes e', c, i.balance, x.rec_low, x.joined))) x.key_held;
  val_held =
      Holds-stored-Apart soff' (entity_bytes e') s e.val_ptr v
        (inr (omega (arith, length-entity_bytes e', c, i.balance, x.rec_low))) x.val_held;
  key_len = x.key_len;
  val_len = x.val_len;
  joined = x.joined;
  words = x.words;
  item_low = x.item_low;
  item_high = x.item_high;
  rec_low = x.rec_low;
  rec_high = x.rec_high;
}
