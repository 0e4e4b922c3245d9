-- ===== src/Json/Entity.antt =====
-- `Entity` of dbms/src/json/entity.c: the item of a record, ten words in the file.
use nosql_gql_dbms.Base.{
  ℕ, ◌+◌, ◌≡◌, List, [], ◌∷◌, length, get_or, u64, words_bytes, bytes_words,
  bytes_words-words_bytes, length-words_bytes, AllWords, ap,
}

-- The file offsets of the family; 0 is none.
pub record Tplgy : Type 0 where
  pub dad_ptr : ℕ
  pub bro_ptr : ℕ
  pub son_ptr : ℕ

pub record Entity : Type 0 where
  pub key_ptr : ℕ
  pub key_size : ℕ
  pub val_ptr : ℕ
  pub val_size : ℕ
  pub type : ℕ
  pub init_rec_sz : ℕ
  pub fam_addr : Tplgy
  pub type_ptr : ℕ

-- `sizeof(Entity)`
abbrev pub entity_size : ℕ
entity_size = 80

-- `calloc`, and `memset(e, 0, sizeof(Entity))` of `entity_clear`
abbrev pub entity_clear : Entity
entity_clear = record {
  key_ptr = 0;
  key_size = 0;
  val_ptr = 0;
  val_size = 0;
  type = 0;
  init_rec_sz = 0;
  fam_addr = record { dad_ptr = 0; bro_ptr = 0; son_ptr = 0 };
  type_ptr = 0;
}

-- Called on a new entity: the pointers stay 0.
unfoldable pub entity_ctor : ℕ → ℕ → ℕ → Tplgy → Entity → Entity
entity_ctor key_sz val_sz type tplgy e = record e {
  key_size = key_sz;
  val_size = val_sz;
  fam_addr = tplgy;
  type = type;
  init_rec_sz = u64 (key_sz + val_sz);
}

-- The macro `ENTITY_INIT` of include/json/entity.h, at the sizes of the key and of the value.
unfoldable pub entity_init : ℕ → ℕ → ℕ → Tplgy → ℕ → Entity
unfolding entity_ctor
entity_init key_sz val_sz type tplgy type_ptr =
    entity_ctor key_sz val_sz type tplgy (record entity_clear { type_ptr = type_ptr })

abbrev pub entity_itm_size : Entity → ℕ
entity_itm_size e = entity_size

abbrev pub entity_rec_sz : Entity → ℕ
entity_rec_sz e = u64 (e.key_size + e.val_size)

abbrev pub entity_ph_size : Entity → ℕ
entity_ph_size e = u64 (entity_itm_size e + entity_rec_sz e)

abbrev pub entity_words : Entity → List ℕ
entity_words e =
    e.key_ptr ∷ e.key_size ∷ e.val_ptr ∷ e.val_size ∷ e.type ∷ e.init_rec_sz ∷ e.fam_addr.dad_ptr
    ∷ e.fam_addr.bro_ptr ∷ e.fam_addr.son_ptr ∷ e.type_ptr ∷ []

-- the members, from the ten words
abbrev pub entity_of_words : List ℕ → Entity
entity_of_words ws = record {
  key_ptr = get_or ws 0 0;
  key_size = get_or ws 1 0;
  val_ptr = get_or ws 2 0;
  val_size = get_or ws 3 0;
  type = get_or ws 4 0;
  init_rec_sz = get_or ws 5 0;
  fam_addr = record { dad_ptr = get_or ws 6 0; bro_ptr = get_or ws 7 0; son_ptr = get_or ws 8 0 };
  type_ptr = get_or ws 9 0;
}

-- the bytes of an entity in memory and in the file
unfoldable pub entity_bytes : Entity → List ℕ
entity_bytes e = words_bytes (entity_words e)

unfoldable pub entity_of_bytes : List ℕ → Entity
entity_of_bytes bs = entity_of_words (bytes_words 10 bs)

-- Every member fits its 64 bits.
abbrev pub IsEntity : Entity → Type 0
IsEntity e = AllWords (entity_words e)

pub length-entity_bytes : (e : Entity) → length (entity_bytes e) ≡ entity_size
unfolding entity_bytes
length-entity_bytes e = length-words_bytes (entity_words e)

pub entity_of_bytes-entity_bytes : (e : Entity) → IsEntity e → entity_of_bytes (entity_bytes e) ≡ e
unfolding entity_of_bytes entity_bytes
entity_of_bytes-entity_bytes e h = ap entity_of_words (bytes_words-words_bytes (entity_words e) h)
