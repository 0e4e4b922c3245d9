-- ===== src/Section/Extents/Delete.antt =====
-- `sect_ext_delete` of an inner item whose record is an inner one: the borders stay.
use nosql_gql_dbms.Collection.Chain.{last}
use nosql_gql_dbms.Base.{none, words_bytes_head}
use nosql_gql_dbms.Base.{◌%◌}
use nosql_gql_dbms.Section.Header.{
  write, read, cmprs_frp, cmprs_lip, cmprs_lip_loop, is_zero, head_size, section_size, Sect,
  SectHead,
}
use nosql_gql_dbms.Section.Extents.{delete, pull_back, wrt_itm}
use nosql_gql_dbms.Json.Entity.{Entity}
use nosql_gql_dbms.Base.{length-replicate, attempt}
use nosql_gql_dbms.Section.Header.Laws.{
  header-stored, stored-IsValid, stored, Holds-stored-Apart, synced-IsSynced, Holds-stored_self,
  sync-valid, write-ok, IsSynced, synced-IsValid, synced, Holds-synced, header-synced,
  read-ok_of_length, Holds, IsValid,
}
use nosql_gql_dbms.Json.Entity.{
  entity_size, entity_bytes, length-entity_bytes, entity_clear, entity_rec_sz,
}
use nosql_gql_dbms.Base.{step}
use nosql_gql_dbms.Stdio.Laws.{Apart}
use nosql_gql_dbms.Section.Extents.Read.{rd_itm-ok}
use nosql_gql_dbms.Section.Extents.Frame.{Stores-reitem-Apart, reitem}
use nosql_gql_dbms.Base.{replicate, length}
use nosql_gql_dbms.Base.{u64, u64_mod}
use nosql_gql_dbms.Section.Extents.Slots.{Stores}
use nosql_gql_dbms.Base.{ne→==}
use nosql_gql_dbms.Section.Header.Compress.{frp_stop}
use nosql_gql_dbms.Base.{
  [], ◌∷◌, ◌≡◌, ◌≢◌, ◌∙◌, ◌≤◌, ◌<◌, ◌+◌, ◌-◌, List, some, ℕ, suc, refl, ap, inl, inr, false, arith,
  ok,
}

-- A comparison with zeros that fails at once: the border of the items stays.
cmprs_lip_stays :
    (s : Sect) (bs : List ℕ)
    → IsValid s
    → length bs ≡ entity_size
    → head_size + entity_size ≤ s.header.lst_itm_ptr
    → Holds s (s.header.lst_itm_ptr - entity_size) bs
    → is_zero bs ≡ false
    → cmprs_lip entity_size s ≡ (ok tt, synced s)
unfolding cmprs_lip cmprs_lip_loop
cmprs_lip_stays s bs v e low h nz =
    let place : u64 (s.header.lst_itm_ptr + u64_mod - entity_size)
        ≡ s.header.lst_itm_ptr - entity_size =
      omega (arith, low, v.balance, v.high) in
    let stays : cmprs_lip_loop (suc s.header.lst_itm_ptr) entity_size (some bs) s ≡ (ok tt, s) =
      rw (ne→== s.header.lst_itm_ptr head_size (omega (arith, low)), nz) refl in
    step _ (
      ap attempt (
        ap (λ (k : ℕ). read k entity_size s) place
        ∙ read-ok_of_length (s.header.lst_itm_ptr - entity_size) entity_size bs s v
            (omega (arith, v.balance, v.high)) e h))
    ∙ step _ stays
    ∙ sync-valid s v

cmprs_frp_stays :
    (s : Sect) (b : ℕ)
    → IsValid s
    → b ≢ 0
    → Holds s s.header.fst_rec_ptr (b ∷ [])
    → cmprs_frp s ≡ (ok tt, synced s)
unfolding cmprs_frp
cmprs_frp_stays s b v n h = step _ (frp_stop section_size none s b v n h) ∙ sync-valid s v

-- An item whose first byte is not 0 is not cleared.
pub is_zero-entity_bytes : (e : Entity) → e.key_ptr % 256 ≢ 0 → is_zero (entity_bytes e) ≡ false
unfolding entity_bytes
is_zero-entity_bytes e n =
    let (bs, first) = words_bytes_head e.key_ptr (
      e.key_size ∷ e.val_ptr ∷ e.val_size ∷ e.type ∷ e.init_rec_sz ∷ e.fam_addr.dad_ptr
      ∷ e.fam_addr.bro_ptr ∷ e.fam_addr.son_ptr ∷ e.type_ptr ∷ []) in
    ap is_zero first ∙ rw (ne→== (e.key_ptr % 256) 0 n) refl

-- What stands in a section stays where the bytes of its item, its key and its value stay.
Stores-Holds :
    (s t : Sect) (soff : ℕ) (e : Entity) (k w : List ℕ)
    → t.header ≡ s.header
    → (Holds s soff (entity_bytes e) → Holds t soff (entity_bytes e))
    → (Holds s e.key_ptr k → Holds t e.key_ptr k)
    → (Holds s e.val_ptr w → Holds t e.val_ptr w)
    → Stores s soff e k w
    → Stores t soff e k w
Stores-Holds s t soff e k w same a b c x = record {
  item = a x.item;
  key_held = b x.key_held;
  val_held = c x.val_held;
  key_len = x.key_len;
  val_len = x.val_len;
  joined = x.joined;
  words = x.words;
  item_low = x.item_low;
  item_high = omega (arith, x.item_high, ap (λ (h : SectHead). h.lst_itm_ptr) same);
  rec_low = omega (arith, x.rec_low, ap (λ (h : SectHead). h.fst_rec_ptr) same);
  rec_high = x.rec_high;
}

Stores-synced :
    (s : Sect) (soff : ℕ) (e : Entity) (k w : List ℕ)
    → IsValid s
    → Stores s soff e k w
    → Stores (synced s) soff e k w
Stores-synced s soff e k w v x =
    Stores-Holds s (synced s) soff e k w (header-synced s)
      (Holds-synced s soff (entity_bytes e) x.item_low)
      (Holds-synced s e.key_ptr k (omega (arith, x.rec_low, x.joined, v.low, v.balance)))
      (Holds-synced s e.val_ptr w (omega (arith, x.rec_low, v.low, v.balance))) x

-- What `sect_ext_delete` leaves of the item at `soff` and of the others.
pub record Deleted (s t : Sect) (soff : ℕ) (e : Entity) : Type 0 where
  pub valid : IsValid t
  pub in_file : IsSynced t
  pub header : t.header ≡ s.header
  pub cleared : Holds t soff (entity_bytes entity_clear)
  pub kept :
      (soff' : ℕ) (e' : Entity) (k w : List ℕ)
      → Apart soff' entity_size soff entity_size
      → Apart e'.val_ptr (e'.val_size + e'.key_size) e.val_ptr (e.val_size + e.key_size)
      → Stores s soff' e' k w
      → Stores t soff' e' k w

module _ (s : Sect) (soff : ℕ) (e : Entity) (key val : List ℕ) (v : IsValid s)
    (x : Stores s soff e key val) where
  abbrev zeros : List ℕ
  zeros = replicate (entity_rec_sz e) 0

  length-zeros : length zeros ≡ e.val_size + e.key_size
  length-zeros = length-replicate (entity_rec_sz e) 0 ∙ omega (arith, x.rec_high, x.joined)

  abbrev wiped : Sect
  wiped = stored e.val_ptr zeros s

  wiped-IsValid : IsValid wiped
  wiped-IsValid = stored-IsValid e.val_ptr zeros s v

  abbrev gone : Sect
  gone = reitem soff entity_clear wiped

  gone-IsValid : IsValid gone
  gone-IsValid = stored-IsValid soff (entity_bytes entity_clear) wiped wiped-IsValid

  wiped-kept :
      (soff' : ℕ) (e' : Entity) (k w : List ℕ)
      → Apart e'.val_ptr (e'.val_size + e'.key_size) e.val_ptr (e.val_size + e.key_size)
      → Stores s soff' e' k w
      → Stores wiped soff' e' k w
  wiped-kept soff' e' k w a y =
      Stores-Holds s wiped soff' e' k w (header-stored e.val_ptr zeros s)
        (Holds-stored-Apart e.val_ptr zeros s soff' (entity_bytes e')
          (inl (omega (arith, length-entity_bytes e', y.item_high, v.balance, x.rec_low))))
        (Holds-stored-Apart e.val_ptr zeros s e'.key_ptr k
          (omega (arith, a, y.joined, y.key_len, length-zeros)))
        (Holds-stored-Apart e.val_ptr zeros s e'.val_ptr w
          (omega (arith, a, y.val_len, length-zeros)))
        y

  gone-kept :
      (soff' : ℕ) (e' : Entity) (k w : List ℕ)
      → Apart soff' entity_size soff entity_size
      → Apart e'.val_ptr (e'.val_size + e'.key_size) e.val_ptr (e.val_size + e.key_size)
      → Stores s soff' e' k w
      → Stores gone soff' e' k w
  unfolding stored
  gone-kept soff' e' k w a b y =
      Stores-reitem-Apart wiped soff' soff e' entity_clear k w wiped-IsValid x.item_high a
        (wiped-kept soff' e' k w b y)

  -- In a valid section, `sect_ext_delete` of an item with others behind it succeeds with the entity, where the last item is
  -- not cleared and a byte that is not 0 stands at the border of the records, below the record of the
  -- item: the borders stay, the cell is cleared, and the entities in other cells whose records lie
  -- elsewhere are kept.
  pub delete-Deleted :
      (last : Entity) (k w : List ℕ) (b : ℕ)
      → Stores s (s.header.lst_itm_ptr - entity_size) last k w
      → is_zero (entity_bytes last) ≡ false
      → soff + entity_size + entity_size ≤ s.header.lst_itm_ptr
      → Apart last.val_ptr (last.val_size + last.key_size) e.val_ptr (e.val_size + e.key_size)
      → Holds s s.header.fst_rec_ptr (b ∷ [])
      → b ≢ 0
      → s.header.fst_rec_ptr < e.val_ptr
      → (t : Sect) × (delete soff s ≡ (ok e, t)) × Deleted s t soff e
  unfolding delete pull_back wrt_itm stored synced
  delete-Deleted last k w b y nz inner apart border bn inner_rec =
      let inside : soff + entity_size ≤ section_size =
        omega (arith, x.item_high, v.balance, v.high) in
      let at : u64 (e.key_ptr + u64_mod - e.val_size) ≡ e.val_ptr =
        omega (arith, x.joined, x.rec_high) in
      let still : pull_back soff e s ≡ (ok tt, s) =
        rw (ne→== (u64 (soff + entity_size)) s.header.lst_itm_ptr (omega (arith, inner, inside)))
          refl in
      let last_kept : Stores gone (s.header.lst_itm_ptr - entity_size) last k w =
        gone-kept (s.header.lst_itm_ptr - entity_size) last k w (omega (arith, inner)) apart y in
      let border_kept : Holds gone s.header.fst_rec_ptr (b ∷ []) =
        Holds-stored-Apart soff (entity_bytes entity_clear) wiped s.header.fst_rec_ptr (b ∷ [])
          (inr (omega (arith, length-entity_bytes entity_clear, x.item_high, v.balance)))
          (Holds-stored-Apart e.val_ptr zeros s s.header.fst_rec_ptr (b ∷ [])
            (inl (omega (arith, inner_rec))) border) in
      let frp_low : head_size ≤ s.header.fst_rec_ptr = omega (arith, v.low, v.balance) in
      (
        synced gone,
        step _ (rd_itm-ok soff e s v (omega (arith, inside)) x.words x.item)
            ∙ step _ still
            ∙ step _ (
                ap (λ (c : ℕ). write c zeros s) at
                ∙ write-ok e.val_ptr zeros s v (omega (arith, length-zeros, x.joined, x.rec_high)))
            ∙ step _ (
                write-ok soff (entity_bytes entity_clear) wiped wiped-IsValid
                  (omega (arith, inside, length-entity_bytes entity_clear)))
            ∙ step _ (
                cmprs_lip_stays gone (entity_bytes last) gone-IsValid (length-entity_bytes last)
                  (omega (arith, inner, x.item_low)) last_kept.item nz)
            ∙ step _ (
                cmprs_frp_stays (synced gone) b (synced-IsValid gone gone-IsValid) bn
                  (Holds-synced gone s.header.fst_rec_ptr (b ∷ []) frp_low border_kept)
                ∙ λ i. (ok tt, synced-IsSynced gone i))
            ∙ step _ (
                sync-valid (synced gone) (synced-IsValid gone gone-IsValid) ∙ λ i.
                (ok tt, synced-IsSynced gone i)),
        record {
          valid = synced-IsValid gone gone-IsValid;
          in_file = synced-IsSynced gone;
          header = header-synced gone;
          cleared =
              Holds-synced gone soff (entity_bytes entity_clear) x.item_low
                (Holds-stored_self soff (entity_bytes entity_clear) wiped);
          kept = λ soff' e' k' w' a c z.
              Stores-synced gone soff' e' k' w' gone-IsValid (gone-kept soff' e' k' w' a c z);
        },
      )
