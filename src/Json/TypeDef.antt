-- ===== src/Json/TypeDef.antt =====
-- dbms/src/object: the type of a document, its attributes, and their entities in the file.
use nosql_gql_dbms.Base.{
  ℕ, ◌+◌, ◌*◌, ◌≡◌, ap, List, [], ◌∷◌, length, get_or, u64, words_bytes, bytes_words,
  bytes_words-words_bytes, length-words_bytes, AllWords, ◌==◌, if◌then◌else◌,
}
use nosql_gql_dbms.Text.{Sign, less, equal, greater, string_cmp}

pub record Attr : Type 0 where
  pub name : List ℕ
  pub type : ℕ

-- `Type` with a name and a list; what `type_new` returns has neither, and is `none` of an option.
pub record TypeDef : Type 0 where
  pub name : List ℕ
  pub attr_list : List Attr

unfoldable pub attr_cmp : Attr → Attr → Sign
attr_cmp a b = elim (string_cmp a.name b.name) [
  | equal ↦ if a.type == b.type then equal else greater
  | less ↦ less
  | greater ↦ greater
]

unfoldable pub type_cmp : TypeDef → TypeDef → Sign
type_cmp t u = string_cmp t.name u.name

pub record TypeEntity : Type 0 where
  pub name_size : ℕ
  pub name_ptr : ℕ
  pub attr_cnt : ℕ

pub record AttrEntity : Type 0 where
  pub name_size : ℕ
  pub name_ptr : ℕ
  pub attr_type : ℕ

-- `sizeof(Type_entity)`
abbrev pub type_entity_size : ℕ
type_entity_size = 24

-- `sizeof(Attr_entity)`
abbrev pub attr_entity_size : ℕ
attr_entity_size = 24

unfoldable pub type_itm_sz : TypeDef → ℕ
type_itm_sz t = u64 (type_entity_size + length t.attr_list * attr_entity_size)

-- the sum of the lengths of the names
abbrev pub names_size : List Attr → ℕ
names_size [] = 0
names_size (a ∷ rest) = length a.name + names_size rest

unfoldable pub type_rec_sz : TypeDef → ℕ
type_rec_sz t = u64 (length t.name + names_size t.attr_list)

unfoldable pub type_ph_sz : TypeDef → ℕ
unfolding type_itm_sz type_rec_sz
type_ph_sz t = u64 (type_itm_sz t + type_rec_sz t)

abbrev pub type_words : TypeEntity → List ℕ
type_words e = e.name_size ∷ e.name_ptr ∷ e.attr_cnt ∷ []

abbrev pub attr_words : AttrEntity → List ℕ
attr_words e = e.name_size ∷ e.name_ptr ∷ e.attr_type ∷ []

unfoldable pub type_bytes : TypeEntity → List ℕ
type_bytes e = words_bytes (type_words e)

unfoldable pub attr_bytes : AttrEntity → List ℕ
attr_bytes e = words_bytes (attr_words e)

abbrev pub type_of_words : List ℕ → TypeEntity
type_of_words ws = record {
  name_size = get_or ws 0 0;
  name_ptr = get_or ws 1 0;
  attr_cnt = get_or ws 2 0;
}

abbrev pub attr_of_words : List ℕ → AttrEntity
attr_of_words ws = record {
  name_size = get_or ws 0 0;
  name_ptr = get_or ws 1 0;
  attr_type = get_or ws 2 0;
}

unfoldable pub type_of_bytes : List ℕ → TypeEntity
type_of_bytes bs = type_of_words (bytes_words 3 bs)

unfoldable pub attr_of_bytes : List ℕ → AttrEntity
attr_of_bytes bs = attr_of_words (bytes_words 3 bs)

pub length-type_bytes : (e : TypeEntity) → length (type_bytes e) ≡ type_entity_size
unfolding type_bytes
length-type_bytes e = length-words_bytes (type_words e)

pub length-attr_bytes : (e : AttrEntity) → length (attr_bytes e) ≡ attr_entity_size
unfolding attr_bytes
length-attr_bytes e = length-words_bytes (attr_words e)

pub type_of_bytes-type_bytes :
    (e : TypeEntity) → AllWords (type_words e) → type_of_bytes (type_bytes e) ≡ e
unfolding type_of_bytes type_bytes
type_of_bytes-type_bytes e h = ap type_of_words (bytes_words-words_bytes (type_words e) h)

pub attr_of_bytes-attr_bytes :
    (e : AttrEntity) → AllWords (attr_words e) → attr_of_bytes (attr_bytes e) ≡ e
unfolding attr_of_bytes attr_bytes
attr_of_bytes-attr_bytes e h = ap attr_of_words (bytes_words-words_bytes (attr_words e) h)
