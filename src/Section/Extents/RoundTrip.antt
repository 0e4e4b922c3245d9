-- ===== src/Section/Extents/RoundTrip.antt =====
-- Writing a node and reading it back.
use nosql_gql_dbms.Base.{
  ◌⊎◌, inl, inr, ◌∙◌, ok, ◌≤◌, ℕ, ◌+◌, ◌%◌, ◌^◌, ◌<◌, ◌≡◌, ◌≢◌, refl, ap, List, [], arith, length,
  replicate, some, u64_mod, ne→==,
}
use mathlib.Core.List.{append-nil}
use nosql_gql_dbms.Text.{string_ctor, IsText}
use nosql_gql_dbms.Json.{
  json_ctor, JsonHead, Value, raw, text, value_size, type_string, type_object, json_val,
}
use nosql_gql_dbms.Json.Entity.{Entity, Tplgy, entity_size, entity_init}
use nosql_gql_dbms.Section.Header.{Sect}
use nosql_gql_dbms.Section.Header.Laws.{IsValid}
use nosql_gql_dbms.Section.Extents.{write, read}
use nosql_gql_dbms.Section.Extents.Slots.{write-Wrote, IsFor}
use nosql_gql_dbms.Section.Extents.Write.{placed}
use nosql_gql_dbms.Section.Extents.Read.{FitsUnion, read-Stores, node_of, value_of}

-- The union holds what the type says, and `val` are the bytes that are stored of it.
pub data ValueFits (type : ℕ) (value : Value) (val : List ℕ) : Type 0 where
  as_text : type ≡ type_string → value ≡ text val → IsText val → ValueFits type value val
  as_object :
      type ≡ type_object
      → value ≡ raw (replicate value_size 0)
      → val ≡ []
      → ValueFits type value val
  as_number :
      type ≢ type_string
      → type ≢ type_object
      → value ≡ raw val
      → length val ≡ value_size
      → ValueFits type value val

-- A node as `json_ctor` makes it, with a value that fits its type.
pub record IsNode (j : JsonHead) (val : List ℕ) : Type 0 where
  pub key_text : IsText j.key
  pub known : j.type < 2 ^ 32
  pub value : ValueFits j.type j.value val

-- The bytes that `json_val_ptr` and `json_val_size` hand to a section.
pub json_val-ValueFits :
    (j : JsonHead) (val : List ℕ) → ValueFits j.type j.value val → json_val j ≡ some val
unfolding json_val
json_val-ValueFits j val (as_text t e x) = rw (t, e)
json_val-ValueFits j val (as_object t e x) = rw (t, x)
json_val-ValueFits j val (as_number s o e x) =
    rw (ne→== j.type type_object o, ne→== j.type type_string s, e)

value_of-ValueFits :
    (type : ℕ) (value : Value) (val : List ℕ) → ValueFits type value val → value_of type val ≡ value
unfolding string_ctor
value_of-ValueFits type value val (as_text t e x) = rw (t, e) (ap text x)
value_of-ValueFits type value val (as_object t e x) = rw (t, e)
value_of-ValueFits type value val (as_number s o e x) =
    rw (ne→== type type_object o, ne→== type type_string s, e, x) (ap raw (append-nil val))

fits-ValueFits :
    {type : ℕ} {value : Value} {val : List ℕ}
    → ValueFits type value val
    → (type ≡ type_string) ⊎ (type ≡ type_object) ⊎ (length val ≤ value_size)
fits-ValueFits (as_text t e x) = inl t
fits-ValueFits (as_object t e x) = inr (inl t)
fits-ValueFits (as_number s o e x) = inr (inr (omega arith))

-- The entity for a node that holds `val`.
abbrev pub entity_for : JsonHead → List ℕ → Tplgy → ℕ → Entity
entity_for j val fam type_ptr = entity_init (length j.key) (length val) j.type fam type_ptr

-- The family and the type of a document are file offsets.
abbrev pub AreOffsets : Tplgy → ℕ → Type 0
AreOffsets fam type_ptr =
    (fam.dad_ptr < u64_mod)
    × (fam.bro_ptr < u64_mod)
    × (fam.son_ptr < u64_mod)
    × (type_ptr < u64_mod)

module _ (j : JsonHead) (val : List ℕ) (fam : Tplgy) (type_ptr : ℕ) (s : Sect) (v : IsValid s)
    (n : IsNode j val) (f : AreOffsets fam type_ptr)
    (fits : entity_size + length j.key + length val ≤ s.header.free_space) where
  pub entity_for-IsFor : IsFor (entity_for j val fam type_ptr) j.key val
  unfolding entity_init
  entity_for-IsFor = omega (arith, v.balance, v.high, n.known)

  type-entity_for : (entity_for j val fam type_ptr).type % 2 ^ 32 ≡ j.type
  unfolding entity_init
  type-entity_for = omega (arith, n.known)

  pub fits_union : FitsUnion (placed j.key val (entity_for j val fam type_ptr) s)
  unfolding entity_init
  fits_union = rw type-entity_for (fits-ValueFits n.value)

  pub node_of-entity_for :
      node_of (placed j.key val (entity_for j val fam type_ptr) s) j.key val ≡ record j { foff = 0 }
  unfolding json_ctor string_ctor
  node_of-entity_for = λ i. record {
    key = n.key_text i;
    type = type-entity_for i;
    value =
        (ap (λ t. value_of t val) type-entity_for ∙ value_of-ValueFits j.type j.value val n.value)
          i;
    foff = 0;
  }

  -- A node that is written where it fits comes back from the offset that the write returns, with its
  -- key, type and value and with the family and the type offset that were written; reading changes
  -- neither the section nor the file.
  pub write-read :
      (e : Entity) × (t : Sect) × (write j.key val (entity_for j val fam type_ptr) s
        ≡ (ok (s.header.lst_itm_ptr, e), t))
      × (read s.header.lst_itm_ptr t ≡ (ok (e, record j { foff = 0 }), t))
      × (e.fam_addr ≡ fam)
      × (e.type_ptr ≡ type_ptr)
  write-read =
      let (t, wrote, post) =
        write-Wrote j.key val (entity_for j val fam type_ptr) s v entity_for-IsFor fits in
      let e : Entity = placed j.key val (entity_for j val fam type_ptr) s in
      (
        e,
        t,
        wrote,
        read-Stores s.header.lst_itm_ptr e j.key val t post.valid post.new fits_union
            ∙ (λ i. (ok (e, node_of-entity_for i), post.in_file i)),
        (unfold entity_init in refl),
        (unfold entity_init in refl),
      )
