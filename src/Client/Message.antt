-- ===== src/Client/Message.antt =====
-- GQLclient/network/request.hpp: the documents and conditions of the client, to their messages and back.
use nosql_gql_dbms.Base.{set}
use nosql_gql_dbms.Base.{ℕ}
use nosql_gql_dbms.Network.{nullptr, tree, absent, message}
use nosql_gql_dbms.Network.{
  ConditionalItem, JsonMessage, NetJson, default_fields, link_of, from_message, to_message,
}
use nosql_gql_dbms.Base.{[], ◌∷◌, ◌++◌, ◌≡◌, List, refl}

-- The links of the client's `Json(const dbms::Json &)`: null pointers where the message has none.
unfoldable pub json_link : JsonMessage → NetJson
json_link absent = nullptr
json_link (message f dad bro son) = tree f (json_link dad) (json_link bro) (json_link son)

-- `Json(const dbms::Json &)` of the client
unfoldable pub json_of : JsonMessage → NetJson
unfolding json_link
json_of absent = tree default_fields nullptr nullptr nullptr
json_of (message f dad bro son) = tree f (json_link dad) (json_link bro) (json_link son)

-- `operator dbms::Json *` of the client: each member is set, and a link that is not null.
unfoldable pub json_message : NetJson → JsonMessage
json_message nullptr = absent
json_message (tree f dad bro son) =
    message
      (record {
        type = f.type;
        key = f.key;
        int32_val = f.int32_val;
        float_val = f.float_val;
        string_val = f.string_val;
        bool_val = f.bool_val;
      })
      (json_message dad) (json_message bro) (json_message son)

-- The loop of `operator dbms::ConditionalItem *`: the message has a repeated field of the keys.
unfoldable pub add_keys : List (List ℕ) → List (List ℕ) → List (List ℕ)
add_keys set [] = set
add_keys set (k ∷ rest) = add_keys (set ++ (k ∷ [])) rest

-- `operator dbms::ConditionalItem *`
unfoldable pub item_message : ConditionalItem → ConditionalItem
unfolding add_keys
item_message c = record {
  path = add_keys [] c.path;
  cmp = c.cmp;
  fields = record {
    type = c.fields.type;
    key = c.fields.key;
    int32_val = c.fields.int32_val;
    float_val = c.fields.float_val;
    string_val = c.fields.string_val;
    bool_val = c.fields.bool_val;
  };
}

-- `operator dbms::Conditional *`
unfoldable pub conditional_message : List ConditionalItem → List ConditionalItem
unfolding item_message
conditional_message [] = []
conditional_message (c ∷ rest) = item_message c ∷ conditional_message rest

json_link-link_of : (m : JsonMessage) → json_link m ≡ link_of m
unfolding json_link link_of
json_link-link_of absent = refl
json_link-link_of (message f dad bro son) =
    λ i. tree f (json_link-link_of dad i) (json_link-link_of bro i) (json_link-link_of son i)

-- The client and the server read a message in the same way.
pub json_of-from_message : (m : JsonMessage) → json_of m ≡ from_message m
unfolding json_of from_message
json_of-from_message absent = refl
json_of-from_message (message f dad bro son) =
    λ i. tree f (json_link-link_of dad i) (json_link-link_of bro i) (json_link-link_of son i)

-- They also make the same message of a document.
pub json_message-to_message : (t : NetJson) → json_message t ≡ to_message t
unfolding json_message to_message
json_message-to_message nullptr = refl
json_message-to_message (tree f dad bro son) = λ i.
    message f (json_message-to_message dad i) (json_message-to_message bro i)
      (json_message-to_message son i)
