-- ===== src/Network/Answer.antt =====
-- The answer of the server as the client receives it.
use nosql_gql_dbms.Network.Laws.{a_text, an_object, a_number}
use nosql_gql_dbms.Json.{text}
use nosql_gql_dbms.Network.Laws.{Sendable}
use nosql_gql_dbms.Text.{IsText}
use nosql_gql_dbms.Json.{Value}
use nosql_gql_dbms.Base.{ℕ, subst}
use nosql_gql_dbms.Network.{NetJson}
use nosql_gql_dbms.Json.{null, node}
use nosql_gql_dbms.Network.{of_json, Fields, to_json}
use nosql_gql_dbms.Network.Laws.{AllSendable}
use nosql_gql_dbms.File.Tree.Read.{plain}
use nosql_gql_dbms.Json.{JsonHead, Json}
use nosql_gql_dbms.Base.{[], ◌∷◌, ◌≡◌, ◌∙◌, Option, List, some, none, sym, ap}

-- A tree in front of those that follow, if these can be made.
abbrev pub push : NetJson → Option (List NetJson) → Option (List NetJson)
push t none = none
push t (some ts) = some (t ∷ ts)

-- What `execute` collects of the documents of an iterator.
abbrev pub of_jsons : (junk : Fields) → List Json → Option (List NetJson)
of_jsons junk [] = some []
of_jsons junk (j ∷ js) = elim (of_json junk j) [ none ↦ none | some t ↦ push t (of_jsons junk js) ]

-- The documents of an answer, none of which is a null pointer.
abbrev pub EachSendable : List Json → Type 0
EachSendable [] = Unit
EachSendable (null ∷ js) = ⊥
EachSendable (node h b s n ∷ js) = AllSendable (node h b s n) × EachSendable js

Sendable-same :
    (j k : JsonHead)
    → j.key ≡ k.key
    → j.type ≡ k.type
    → j.value ≡ k.value
    → Sendable k × IsText k.key
    → Sendable j × IsText j.key
Sendable-same j k p q r (x, y) = (go x, subst (λ (s : List ℕ). IsText s) (sym p) y)
  where
    go : Sendable k → Sendable j
    go (a_text s t v w) = a_text s (q ∙ t) (r ∙ v) w
    go (an_object t v) = an_object (q ∙ t) (r ∙ v)
    go (a_number a b c d m n v w) =
        a_number a b c d (λ e. m (sym q ∙ e)) (λ e. n (sym q ∙ e)) (r ∙ v) w

-- Whether a document can be sent does not depend on its links `next` and on its offsets.
pub AllSendable-plain : (t u : Json) → plain t ≡ plain u → AllSendable u → AllSendable t
AllSendable-plain null u e a = tt
AllSendable-plain (node j b s n) null e a = absurd (cc)
AllSendable-plain (node j b s n) (node k c v m) e (x, y, z) = (
  Sendable-same j k (ap key_of e) (ap type_of e) (ap value_in e) x,
  AllSendable-plain b c (ap bro_of e) y,
  AllSendable-plain s v (ap son_of e) z,
)
  where
    key_of : Json → List ℕ
    key_of null = []
    key_of (node h b s n) = h.key

    type_of : Json → ℕ
    type_of null = 0
    type_of (node h b s n) = h.type

    value_in : Json → Value
    value_in null = text []
    value_in (node h b s n) = h.value

    bro_of : Json → Json
    bro_of null = null
    bro_of (node h b s n) = b

    son_of : Json → Json
    son_of null = null
    son_of (node h b s n) = s

abbrev pub plains : List Json → List Json
plains [] = []
plains (j ∷ js) = plain j ∷ plains js

abbrev pub to_jsons : List NetJson → List Json
to_jsons [] = []
to_jsons (t ∷ ts) = to_json t ∷ to_jsons ts
