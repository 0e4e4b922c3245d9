-- ===== src/Query/Laws.antt =====
-- What the checks of a query mean.
use mathlib.Core.List.Memᴰ.{head, tail}
use mathlib.Core.List.{Memᴰ}
use nosql_gql_dbms.Base.{◌∙◌, ap, sym, false}
use nosql_gql_dbms.Text.{IsText, Sign, equal, less, greater, string_cmp}
use nosql_gql_dbms.Text.Laws.{string_cmp-eq_iff}
use nosql_gql_dbms.Base.{
  ℕ, ◌+◌, ◌-◌, ◌^◌, ◌≡◌, ◌≢◌, ◌↔◌, ◌<◌, refl, List, [], ◌∷◌, Option, none, some, arith, ltb, true,
  if◌then◌else◌,
}
use nosql_gql_dbms.Json.{Json, node, JsonHead, text, type_string}
use nosql_gql_dbms.Json.Compare.{Floats, string_val}
use nosql_gql_dbms.Json.TypeDef.{TypeDef}
use nosql_gql_dbms.Query.{
  insert_second, query_item_add, gt, ge, lt, le, eq, QueryItem, Query, strcmp_eq, int32_check,
  value_check, string_check, drill, query_item_check, check_items, query_check, query_check_type,
}

-- The integer that the pattern of an `int32_t` stands for, as its two parts: a - b with a or b zero.
abbrev pub above : ℕ → ℕ
above w = if ltb w (2 ^ 31) then w else 0

abbrev pub below : ℕ → ℕ
below w = if ltb w (2 ^ 31) then 0 else 2 ^ 32 - w

-- The order of the integers that two patterns stand for.
abbrev pub SignedLt : ℕ → ℕ → Type 0
SignedLt a b = above a + below b < above b + below a

-- On 32-bit patterns the five tests of an integer are the equality and the signed orders.
pub int32_check_iff :
    (a b : ℕ)
    → a < 2 ^ 32
    → b < 2 ^ 32
    → ((int32_check eq a b ≡ true) ↔ (a ≡ b))
      × ((int32_check lt a b ≡ true) ↔ SignedLt a b)
      × ((int32_check gt a b ≡ true) ↔ SignedLt b a)
      × ((int32_check le a b ≡ true) ↔ ¬ SignedLt b a)
      × ((int32_check ge a b ≡ true) ↔ ¬ SignedLt a b)
unfolding int32_check
int32_check_iff a b p q = (
  (λ e. ground arith, λ e. ground arith),
  (λ e. ground arith, λ e. ground arith),
  (λ e. ground arith, λ e. ground arith),
  (λ e. ground arith, λ e. ground arith),
  (λ e. ground arith, λ e. ground arith),
)

abbrev pub AllNonzero : List ℕ → Type 0
AllNonzero [] = Unit
AllNonzero (b ∷ bs) = (b ≢ 0) × AllNonzero bs

strcmp_eq_self : (s : List ℕ) → AllNonzero s → strcmp_eq s s ≡ none
unfolding strcmp_eq
strcmp_eq_self [] h = refl
strcmp_eq_self (b ∷ bs) h = ground (arith, strcmp_eq_self bs)

-- The EQ test of the document itself, a text value, against the same text, neither with a NUL byte as
-- `string_ctor` leaves them, is no defined run: `strcmp` reads behind both blocks.
pub query_item_check-text_eq :
    (fl : Floats) (q : QueryItem) (j : JsonHead) (b s n : Json) (v : List ℕ)
    → q.key ≡ []
    → q.type ≡ type_string
    → q.cmp_op ≡ eq
    → q.query_val ≡ text v
    → j.value ≡ text v
    → AllNonzero v
    → query_item_check fl q (node j b s n) ≡ none
unfolding query_item_check drill value_check string_check string_val
query_item_check-text_eq fl q j b s n v k t c qv jv h = rw (k, t, qv, jv, c) (strcmp_eq_self v h)

-- Every item of the query passes.
abbrev pub AllPass : Floats → List QueryItem → Json → Type 0
AllPass fl [] j = Unit
AllPass fl (q ∷ rest) j = (query_item_check fl q j ≡ some true) × AllPass fl rest j

check_items_iff :
    (fl : Floats) (qs : List QueryItem) (j : Json)
    → (check_items fl qs j ≡ some true) ↔ AllPass fl qs j
unfolding check_items
check_items_iff fl [] j = (λ _. tt, λ _. refl)
check_items_iff fl (q ∷ rest) j = (
  λ e. (ground arith, (check_items_iff fl rest j).0 (ground arith)),
  λ h. rw (h.0, check_items) ((check_items_iff fl rest j).1 h.1),
)

-- A query checks its items and the type.
pub query_check-AllPass :
    (fl : Floats) (q : Query) (j : Json) (type : Option TypeDef)
    → (query_check fl q j type ≡ some true)
      ↔ (AllPass fl q.f_query_itm j × (query_check_type q type ≡ true))
unfolding query_check
query_check-AllPass fl q j type = (
  λ e. ((check_items_iff fl q.f_query_itm j).0 (ground arith), ground arith),
  λ h. rw ((check_items_iff fl q.f_query_itm j).1 h.0, h.1, query_check),
)

AllPass-insert_second :
    (fl : Floats) (item : QueryItem) (qs : List QueryItem) (j : Json)
    → AllPass fl (insert_second item qs) j
      ↔ ((query_item_check fl item j ≡ some true) × AllPass fl qs j)
unfolding insert_second
AllPass-insert_second fl item [] j = (λ h. h, λ h. h)
AllPass-insert_second fl item (q ∷ qs) j =
    (λ (a, (b, rest)). (b, (a, rest)), λ (b, (a, rest)). (a, (b, rest)))

-- A document passes a query with one more condition exactly when it passes the condition and the
-- query before.
pub query_item_add_iff :
    (fl : Floats) (q : Query) (item : QueryItem) (j : Json) (type : Option TypeDef)
    → (query_check fl (query_item_add q item) j type ≡ some true)
      ↔ ((query_item_check fl item j ≡ some true) × (query_check fl q j type ≡ some true))
unfolding query_item_add query_check_type
query_item_add_iff fl q item j type = (
  λ e.
      let (all, named) = (query_check-AllPass fl (query_item_add q item) j type).0 e in
      let (here, rest) = (AllPass-insert_second fl item q.f_query_itm j).0 all in
      (here, (query_check-AllPass fl q j type).1 (rest, named)),
  λ (here, e).
      let (all, named) = (query_check-AllPass fl q j type).0 e in
      (query_check-AllPass fl (query_item_add q item) j type).1
        ((AllPass-insert_second fl item q.f_query_itm j).1 (here, all), named),
)

AllPass-Memᴰ :
    (fl : Floats) (qs : List QueryItem) (j : Json)
    → AllPass fl qs j
    → (item : QueryItem) → Memᴰ item qs
    → query_item_check fl item j ≡ some true
AllPass-Memᴰ fl [] j a item m = elim m [ ]
AllPass-Memᴰ fl (q ∷ qs) j (a, rest) item (head e) = ap (λ x. query_item_check fl x j) e ∙ a
AllPass-Memᴰ fl (q ∷ qs) j (a, rest) item (tail m) = AllPass-Memᴰ fl qs j rest item m

Memᴰ-AllPass :
    (fl : Floats) (qs : List QueryItem) (j : Json)
    → ((item : QueryItem) → Memᴰ item qs → query_item_check fl item j ≡ some true)
    → AllPass fl qs j
Memᴰ-AllPass fl [] j a = tt
Memᴰ-AllPass fl (q ∷ qs) j a = (a q (head refl), Memᴰ-AllPass fl qs j (λ item m. a item (tail m)))

-- The type that a query names is the one of the document, if it names one.
abbrev pub Named : Option (List ℕ) → Option TypeDef → Type 0
Named none type = Unit
Named (some name) type = (t : TypeDef) × (type ≡ some t) × (t.name ≡ name)

query_check_type-Named :
    (q : Query) (type : Option TypeDef)
    → ((name : List ℕ) → q.type_name ≡ some name → IsText name)
    → ((t : TypeDef) → type ≡ some t → IsText t.name)
    → (query_check_type q type ≡ true) ↔ Named q.type_name type
unfolding query_check_type
query_check_type-Named q type = go q.type_name type
  where
    only_equal : (c : Sign) → elim c [ equal ↦ true | _ ↦ false ] ≡ true → c ≡ equal
    only_equal equal e = refl
    only_equal less e = cc
    only_equal greater e = cc

    go :
        (o : Option (List ℕ)) (type : Option TypeDef)
        → ((name : List ℕ) → o ≡ some name → IsText name)
        → ((t : TypeDef) → type ≡ some t → IsText t.name)
        → ((elim o [
          | none ↦ true
          | some name ↦ elim type [
            | none ↦ false
            | some t ↦ elim (string_cmp name t.name) [ equal ↦ true | _ ↦ false ]
          ]
        ])
            ≡ true)
          ↔ Named o type
    go none type p r = (λ _. tt, λ _. refl)
    go (some name) none p r = (λ e. cc, λ (t, e, _). cc)
    go (some name) (some t) p r =
        let (same, back) = string_cmp-eq_iff name t.name (p name refl) (r t refl) in
        (
          λ e. (t, refl, sym (same (only_equal (string_cmp name t.name) e))),
          λ (u, e, n).
              let q : name ≡ t.name =
                sym n
                ∙ ap (λ (o : Option TypeDef). elim o [ none ↦ name | some v ↦ v.name ]) (sym e) in
              ap (λ (c : Sign). elim c [ equal ↦ true | _ ↦ false ]) (back q),
        )

-- Where the names of types are as `string_ctor` makes them, a document passes a query exactly when it passes
-- each item of the query, and, if the query names a type, the document has a type with these bytes as its name.
pub query_check_iff :
    (fl : Floats) (q : Query) (j : Json) (type : Option TypeDef)
    → ((name : List ℕ) → q.type_name ≡ some name → IsText name)
    → ((t : TypeDef) → type ≡ some t → IsText t.name)
    → (query_check fl q j type ≡ some true) ↔ (
        ((item : QueryItem) → Memᴰ item q.f_query_itm → query_item_check fl item j ≡ some true)
        × Named q.type_name type)
query_check_iff fl q j type p r =
    let (there, back) = query_check-AllPass fl q j type in
    let (named, named_back) = query_check_type-Named q type p r in
    (
      λ e. let (all, ofs) = there e in (AllPass-Memᴰ fl q.f_query_itm j all, named ofs),
      λ (all, n). back (Memᴰ-AllPass fl q.f_query_itm j all, named_back n),
    )
