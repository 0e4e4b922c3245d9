-- ===== src/Section/Extents/Read.antt =====
-- `sect_ext_read`: what comes back of a stored entity.
use nosql_gql_dbms.Base.{
  ℕ, ◌-◌, ◌%◌, ◌^◌, ◌≤◌, ◌≡◌, refl, sym, ◌∙◌, ap, ◌⊎◌, inl, inr, List, ◌++◌, arith, length, ok,
  replicate, if◌then◌else◌, ◌==◌, Bool-cases, step, le→ltb_false,
}
use nosql_gql_dbms.Text.{string_ctor}
use nosql_gql_dbms.Json.{
  JsonHead, Value, raw, text, value_size, type_string, type_object, json_ctor,
}
use nosql_gql_dbms.Json.Entity.{
  Entity, entity_size, entity_bytes, length-entity_bytes, entity_of_bytes-entity_bytes, IsEntity,
}
use nosql_gql_dbms.Section.Header
use nosql_gql_dbms.Section.Header.{Sect, section_size, head_size}
use nosql_gql_dbms.Section.Header.Laws.{IsValid, Holds, synced, read-ok_of_length, sync-valid}
use nosql_gql_dbms.Section.Extents.{read, rd_itm, read_val}
use nosql_gql_dbms.Section.Extents.Slots.{Stores}

-- The union that a record stands for. No object has a record, and its union stays cleared.
abbrev pub value_of : ℕ → List ℕ → Value
value_of type val =
    if type == type_string
    then text (string_ctor val)
    else if type == type_object
    then raw (replicate value_size 0)
    else raw (val ++ replicate (value_size - length val) 0)

abbrev pub node_of : Entity → List ℕ → List ℕ → JsonHead
node_of e key val = record (json_ctor (e.type % 2 ^ 32) key) {
  value = value_of (e.type % 2 ^ 32) val;
}

pub rd_itm-ok :
    (soff : ℕ) (e : Entity) (s : Sect)
    → IsValid s
    → soff ≤ section_size
    → IsEntity e
    → Holds s soff (entity_bytes e)
    → rd_itm soff s ≡ (ok e, s)
unfolding rd_itm
rd_itm-ok soff e s v p w h =
    step _ (read-ok_of_length soff entity_size (entity_bytes e) s v p (length-entity_bytes e) h)
    ∙ ap (λ x. (ok x, s)) (entity_of_bytes-entity_bytes e w)

-- A value that is no text and no object must fit the union.
abbrev pub FitsUnion : Entity → Type 0
FitsUnion e =
    (e.type % 2 ^ 32 ≡ type_string) ⊎ (e.type % 2 ^ 32 ≡ type_object) ⊎ (e.val_size ≤ value_size)

module _ (soff : ℕ) (e : Entity) (key val : List ℕ) (s : Sect) (v : IsValid s)
    (st : Stores s soff e key val) (u : FitsUnion e) where
  read_key : Header.read e.key_ptr e.key_size s ≡ (ok key, s)
  read_key =
      read-ok_of_length e.key_ptr e.key_size key s v (omega (arith, st.rec_high)) st.key_len
        st.key_held

  read_bytes : Header.read e.val_ptr e.val_size s ≡ (ok val, s)
  read_bytes =
      read-ok_of_length e.val_ptr e.val_size val s v (omega (arith, st.rec_high, st.joined))
        st.val_len st.val_held

  read_val-ok :
      (j : JsonHead)
      → j.type ≡ e.type % 2 ^ 32
      → j.value ≡ raw (replicate value_size 0)
      → read_val e j s ≡ (ok (record j { value = value_of j.type val }), s)
  unfolding read_val
  read_val-ok j t new = elim (Bool-cases (j.type == type_string)) [
    | inl is_string ↦ rw is_string (step _ read_bytes)
    | inr not_string ↦ elim (Bool-cases (j.type == type_object)) [
      | inl is_object ↦ rw (not_string, is_object) (λ i. (ok (record j { value = new i }), s))
      | inr not_object ↦
          rw (not_string, not_object, le→ltb_false value_size e.val_size (ground (arith, u)))
            (step _ read_bytes
              ∙ ap
                  (λ (n : ℕ).
                    (ok (record j { value = raw (val ++ replicate (value_size - n) 0) }), s))
                  (sym st.val_len))
    ]
  ]

  -- A stored entity is read back as it was written, with its key and with its value by its type; the
  -- section is only synced.
  pub read-Stores : read soff s ≡ (ok (e, node_of e key val), synced s)
  unfolding read json_ctor
  read-Stores =
      step _
        (rd_itm-ok soff e s v (omega (arith, st.item_high, v.balance, v.high)) st.words st.item)
      ∙ step _ read_key
      ∙ step _ (read_val-ok (json_ctor (e.type % 2 ^ 32) key) refl refl)
      ∙ step _ (sync-valid s v)
