-- ===== src/Network/Laws.antt =====
-- What the conversions of the messages keep, and what they lose.
use nosql_gql_dbms.Base.{Bool, false, ◌<◌}
use nosql_gql_dbms.Network.{bool_byte, bool_at}
use nosql_gql_dbms.Base.{◌++◌, drop, length-le_bytes, eq→==, ◌↔◌, true}
use nosql_gql_dbms.Query.{query_check_type}
use nosql_gql_dbms.Json.Compare.{string_val}
use nosql_gql_dbms.File.Tree.Read.{plain}
use nosql_gql_dbms.Base.{Option, none, AllBytes, le_bytes-le_value}
use nosql_gql_dbms.Query.{Query, QueryItem, query_check, query_item_add}
use nosql_gql_dbms.Query.Laws.{AllPass, query_check-AllPass, query_item_add_iff}
use nosql_gql_dbms.Json.{null, node}
use nosql_gql_dbms.Json.Compare.{Floats}
use nosql_gql_dbms.Json.TypeDef.{TypeDef}
use nosql_gql_dbms.Network.{
  over_first, of_json, to_json, value_of, ConditionalItem, to_query_item, to_query, add_items,
}
use nosql_gql_dbms.Json.{raw, text}
use nosql_gql_dbms.Network.{Fields, NetJson, nullptr, tree}
use nosql_gql_dbms.Network.{link_of, head_of, fields_of, to_message, from_message}
use nosql_gql_dbms.Base.{le_bytes, le_value}
use nosql_gql_dbms.Json.{type_string, JsonHead, type_object, Json, json_ctor, value_size}
use nosql_gql_dbms.Text.{IsText, string_ctor}
use nosql_gql_dbms.Base.{length, replicate}
use nosql_gql_dbms.Base.{ne→==}
use nosql_gql_dbms.Base.{[], ◌∷◌, ◌≡◌, ◌≢◌, ◌∙◌, List, some, ℕ, refl, sym, ap, arith}

-- A tree of C++ is the same after its way through a message.
pub link_of-to_message : (t : NetJson) → link_of (to_message t) ≡ t
unfolding link_of to_message
link_of-to_message nullptr = refl
link_of-to_message (tree f d b s) =
    λ i. tree f (link_of-to_message d i) (link_of-to_message b i) (link_of-to_message s i)

pub from_message-to_message :
    (f : Fields) (d b s : NetJson) → from_message (to_message (tree f d b s)) ≡ tree f d b s
unfolding from_message to_message
from_message-to_message f d b s =
    λ i. tree f (link_of-to_message d i) (link_of-to_message b i) (link_of-to_message s i)

-- A node that the server can send and get back: a text, an object without a value, or a number in the
-- four bytes that the union is read at, of which the lowest is a bool.
pub data Sendable (j : JsonHead) : Type 0 where
  a_text : (s : List ℕ) → j.type ≡ type_string → j.value ≡ text s → IsText s → Sendable j
  an_object : j.type ≡ type_object → j.value ≡ raw (replicate value_size 0) → Sendable j
  a_number :
      (a : Bool) (b c d : ℕ)
      → j.type ≢ type_string
      → j.type ≢ type_object
      → j.value ≡ raw (bool_byte a ∷ b ∷ c ∷ d ∷ 0 ∷ 0 ∷ 0 ∷ 0 ∷ [])
      → AllBytes (b ∷ c ∷ d ∷ [])
      → Sendable j

abbrev pub AllSendable : Json → Type 0
AllSendable null = Unit
AllSendable (node j bro son next) = (Sendable j × IsText j.key) × AllSendable bro × AllSendable son

bool_byte-lt : (a : Bool) → bool_byte a < 256
unfolding bool_byte
bool_byte-lt true = omega arith
bool_byte-lt false = omega arith

bool_byte-bytes : (a : Bool) → le_bytes 1 (bool_byte a) ≡ bool_byte a ∷ []
unfolding bool_byte le_bytes
bool_byte-bytes true = refl
bool_byte-bytes false = refl

bool_at-byte : (a : Bool) (bs : List ℕ) → bool_at (bool_byte a ∷ bs) ≡ some a
unfolding bool_byte bool_at
bool_at-byte true bs = refl
bool_at-byte false bs = refl

-- What comes back of one node.
record Sent (junk : Fields) (j : JsonHead) : Type 0 where
  fields : Fields
  returns : fields_of junk j ≡ some fields
  same : head_of fields ≡ record j { foff = 0 }

sent : (junk : Fields) (j : JsonHead) → Sendable j → IsText j.key → Sent junk j
unfolding fields_of head_of value_of string_val string_ctor json_ctor
sent junk j (a_text s t v x) k =
    let f : Fields = record junk { type = j.type; key = j.key; int32_val = 0; string_val = s } in
    let back : value_of j.type f ≡ j.value = rw (eq→== j.type type_string t, v) (λ m. text (x m)) in
    record {
      fields = f;
      returns = rw (eq→== j.type type_string t, v) refl;
      same = λ i. record { key = k i; type = j.type; value = back i; foff = 0 };
    }
sent junk j (an_object t v) k =
    let f : Fields = record junk { type = j.type; key = j.key; int32_val = 0; string_val = [] } in
    let back : value_of j.type f ≡ j.value =
      rw (ne→== j.type type_string (omega (arith, t)), eq→== j.type type_object t, v) refl in
    record {
      fields = f;
      returns = rw (ne→== j.type type_string (omega (arith, t)), eq→== j.type type_object t) refl;
      same = λ i. record { key = k i; type = j.type; value = back i; foff = 0 };
    }
sent junk j (a_number a b c d ns nb v x) k =
    let f : Fields = record {
      type = j.type;
      key = j.key;
      int32_val = le_value (bool_byte a ∷ b ∷ c ∷ d ∷ []);
      float_val = le_value (bool_byte a ∷ b ∷ c ∷ d ∷ []);
      string_val = [];
      bool_val = a;
    } in
    let four : le_bytes 4 (le_value (bool_byte a ∷ b ∷ c ∷ d ∷ [])) ≡ bool_byte a ∷ b ∷ c ∷ d ∷ [] =
      le_bytes-le_value (bool_byte a ∷ b ∷ c ∷ d ∷ []) (bool_byte-lt a, x) in
    let one : le_bytes 1 (bool_byte a) ≡ bool_byte a ∷ [] = bool_byte-bytes a in
    let back : value_of j.type f ≡ j.value =
      rw (ne→== j.type type_string ns, ne→== j.type type_object nb, v, four, one) refl in
    record {
      fields = f;
      returns =
          rw
            (
              ne→== j.type type_string ns,
              ne→== j.type type_object nb,
              v,
              bool_at-byte a (b ∷ c ∷ d ∷ 0 ∷ 0 ∷ 0 ∷ 0 ∷ []),
            )
            refl;
      same = λ i. record { key = k i; type = j.type; value = back i; foff = 0 };
    }

-- What the server answers with a document is the document: the tree that it sends comes out of the
-- message as it was, and its conversion back gives each node with its key, its type and its value, where
-- no memory that was not set shows.
pub of_json-to_json :
    (junk : Fields) (t : Json)
    → AllSendable t
    → (u : NetJson) × (of_json junk t ≡ some u) × (to_json (link_of (to_message u)) ≡ plain t)
unfolding of_json to_json to_message link_of
of_json-to_json junk null a = (nullptr, refl, refl)
of_json-to_json junk (node j bro son next) a =
    let h : Sent junk j = sent junk j a.0.0 a.0.1 in
    let (b, b_is, b_same) = of_json-to_json junk bro a.1 in
    let (s, s_is, s_same) = of_json-to_json junk son a.2 in
    (
      tree h.fields nullptr b s,
      rw (h.returns, b_is, s_is, of_json) refl,
      λ i. node (h.same i) (b_same i) (s_same i) null,
    )

drop-append_same : (xs ys zs : List ℕ) → length xs ≡ length ys → drop (length xs) (ys ++ zs) ≡ zs
drop-append_same [] [] zs e = refl
drop-append_same [] (y ∷ ys) zs e = absurd (omega (arith, e))
drop-append_same (x ∷ xs) [] zs e = absurd (omega (arith, e))
drop-append_same (x ∷ xs) (y ∷ ys) zs e = drop-append_same xs ys zs (omega (arith, e))

-- A number put over one of its size leaves nothing of that one.
over_first-same :
    (xs ys ws zs : List ℕ)
    → length xs ≡ length ys
    → length xs ≡ length ws
    → over_first xs (over_first ys zs) ≡ over_first xs (over_first ws zs)
over_first-same xs ys ws zs p q =
    ap (λ r. xs ++ r)
      (drop-append_same xs ys (drop (length ys) zs) p
        ∙ ap (λ n. drop n zs) (sym p ∙ q)
        ∙ sym (drop-append_same xs ws (drop (length ws) zs) q))

-- The server takes no int32 of a message: whatever it is, the document is the same.
pub head_of-int32_val :
    (f : Fields) (v w : ℕ)
    → head_of (record f { int32_val = v }) ≡ head_of (record f { int32_val = w })
unfolding head_of value_of
head_of-int32_val f v w =
    let lost : over_first (le_bytes 4 f.float_val)
          (over_first (le_bytes 4 v) (replicate value_size 0))
        ≡ over_first (le_bytes 4 f.float_val) (over_first (le_bytes 4 w) (replicate value_size 0)) =
      over_first-same (le_bytes 4 f.float_val) (le_bytes 4 v) (le_bytes 4 w)
        (replicate value_size 0) (length-le_bytes 4 f.float_val ∙ sym (length-le_bytes 4 v))
        (length-le_bytes 4 f.float_val ∙ sym (length-le_bytes 4 w)) in
    rw lost refl

-- The conditions of a request, as the items of the query.
abbrev pub items : List ConditionalItem → List QueryItem
items [] = []
items (c ∷ rest) = to_query_item c ∷ items rest

add_items_iff :
    (fl : Floats) (q : Query) (cs : List ConditionalItem) (j : Json) (type : Option TypeDef)
    → (query_check fl (add_items q cs) j type ≡ some true)
      ↔ (AllPass fl (items cs) j × (query_check fl q j type ≡ some true))
unfolding add_items
add_items_iff fl q [] j type = (λ e. (tt, e), λ a. a.1)
add_items_iff fl q (c ∷ rest) j type =
    let (there, back) = add_items_iff fl (query_item_add q (to_query_item c)) rest j type in
    let (one, add) = query_item_add_iff fl q (to_query_item c) j type in
    (
      λ e. let (all, more) = there e in let (here, e') = one more in ((here, all), e'),
      λ ((here, all), e'). back (all, add (here, e')),
    )

-- A document passes the query of a request exactly when it passes each of its conditions, whatever its
-- type is.
pub to_query_iff :
    (fl : Floats) (cs : List ConditionalItem) (j : Json) (type : Option TypeDef)
    → (query_check fl (to_query cs) j type ≡ some true) ↔ AllPass fl (items cs) j
unfolding to_query query_check_type
to_query_iff fl cs j type =
    let start : Query = record { type_name = none; f_query_itm = [] } in
    let (there, back) = add_items_iff fl start cs j type in
    (λ e. (there e).0, λ a. back (a, (query_check-AllPass fl start j type).1 (tt, refl)))
