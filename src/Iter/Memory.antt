-- ===== src/Iter/Memory.antt =====
-- What the destructors of dbms/src/query and of dbms/src/json/iter.c free, as the list of the blocks in their
-- order. `none`: a union is read as the pointer that it does not hold.
use nosql_gql_dbms.Base.{
  ℕ, ◌≡◌, refl, ap, ap₂, ◌∙◌, List, [], ◌∷◌, ◌++◌, Option, none, some, ◌==◌, if◌then◌else◌,
}
use nosql_gql_dbms.Json.{Json, JsonHead, type_string, raw, text}
use nosql_gql_dbms.Json.Entity.{Entity}
use nosql_gql_dbms.Json.Memory.{
  Block, string_dtor, pair_json_entity_dtor, json_dtor_with_bro-frees, entity_dtor, AllHeld,
  postorder, freed_nodes, freed_nodes-append, of_entity, of_pair,
}
use nosql_gql_dbms.Query.{Query, QueryItem}
use nosql_gql_dbms.Iter.{Iter}
use mathlib.Core.List.{append_assoc, append-nil}
use nosql_gql_dbms.Base.{sym}

-- a block, by what it holds
pub data Freed : Type 0 where
  of_block : Block → Freed
  of_path_list : Freed
  of_query_item : QueryItem → Freed
  of_query : Freed
  of_pair_list : Freed
  of_iter : Freed

abbrev pub blocks : List Block → List Freed
blocks [] = []
blocks (b ∷ bs) = of_block b ∷ blocks bs

-- `path_dtor`: the name, and not the path.
unfoldable pub path_dtor : List ℕ → List Freed
unfolding string_dtor
path_dtor name = blocks (string_dtor name)

-- `list_Path_dtor`
unfoldable pub path_list_dtor : List (List ℕ) → List Freed
unfolding path_dtor
path_list_dtor [] = of_path_list ∷ []
path_list_dtor (name ∷ rest) = path_dtor name ++ path_list_dtor rest

unfoldable pub query_item_dtor : QueryItem → Option (List Freed)
unfolding path_list_dtor string_dtor
query_item_dtor q =
    if q.type == type_string
    then elim q.query_val [
      | raw bs ↦ none
      | text s ↦ some (path_list_dtor q.key ++ blocks (string_dtor s) ++ (of_query_item q ∷ []))
    ]
    else some (path_list_dtor q.key ++ (of_query_item q ∷ []))

-- one after the other
abbrev pub then_freed : Option (List Freed) → Option (List Freed) → Option (List Freed)
then_freed none ys = none
then_freed (some xs) none = none
then_freed (some xs) (some ys) = some (xs ++ ys)

-- The loop of `query_dtor`, and the query: its name stays.
unfoldable pub items_dtor : List QueryItem → Option (List Freed)
unfolding query_item_dtor
items_dtor [] = some (of_query ∷ [])
items_dtor (q ∷ rest) = then_freed (query_item_dtor q) (items_dtor rest)

unfoldable pub query_dtor : Query → Option (List Freed)
unfolding items_dtor
query_dtor q = items_dtor q.f_query_itm

abbrev pub freed_blocks : Option (List Block) → Option (List Freed)
freed_blocks none = none
freed_blocks (some bs) = some (blocks bs)

-- `list_Pair_Json_Entity_dtor`
unfoldable pub pairs_dtor : List (Json × Entity) → Option (List Freed)
unfolding pair_json_entity_dtor
pairs_dtor [] = some (of_pair_list ∷ [])
pairs_dtor (p ∷ rest) = then_freed (freed_blocks (pair_json_entity_dtor p)) (pairs_dtor rest)

unfoldable pub iter_dtor : Iter → Option (List Freed)
unfolding pairs_dtor
iter_dtor it = then_freed (pairs_dtor it.cur_col) (some (of_iter ∷ []))

-- the documents of a collection, node by node
abbrev pub all_nodes : List (Json × Entity) → List JsonHead
all_nodes [] = []
all_nodes ((j, e) ∷ rest) = postorder j ++ all_nodes rest

abbrev pub EachHeld : List (Json × Entity) → Type 0
EachHeld [] = Unit
EachHeld ((j, e) ∷ rest) = AllHeld j × EachHeld rest

-- the nodes among the blocks
abbrev pub nodes_among : List Freed → List JsonHead
nodes_among [] = []
nodes_among (of_block b ∷ bs) = freed_nodes (b ∷ []) ++ nodes_among bs
nodes_among (of_path_list ∷ bs) = nodes_among bs
nodes_among (of_query_item q ∷ bs) = nodes_among bs
nodes_among (of_query ∷ bs) = nodes_among bs
nodes_among (of_pair_list ∷ bs) = nodes_among bs
nodes_among (of_iter ∷ bs) = nodes_among bs

nodes_among-append :
    (xs ys : List Freed) → nodes_among (xs ++ ys) ≡ nodes_among xs ++ nodes_among ys
nodes_among-append [] ys = refl
nodes_among-append (of_block b ∷ xs) ys =
    ap (λ ns. freed_nodes (b ∷ []) ++ ns) (nodes_among-append xs ys)
    ∙ sym (append_assoc (freed_nodes (b ∷ [])) (nodes_among xs) (nodes_among ys))
nodes_among-append (of_path_list ∷ xs) ys = nodes_among-append xs ys
nodes_among-append (of_query_item q ∷ xs) ys = nodes_among-append xs ys
nodes_among-append (of_query ∷ xs) ys = nodes_among-append xs ys
nodes_among-append (of_pair_list ∷ xs) ys = nodes_among-append xs ys
nodes_among-append (of_iter ∷ xs) ys = nodes_among-append xs ys

nodes_among-blocks : (bs : List Block) → nodes_among (blocks bs) ≡ freed_nodes bs
nodes_among-blocks [] = refl
nodes_among-blocks (b ∷ bs) =
    ap (λ ns. freed_nodes (b ∷ []) ++ ns) (nodes_among-blocks bs)
    ∙ sym (freed_nodes-append (b ∷ []) bs)

pair-frees :
    (j : Json) (e : Entity)
    → AllHeld j
    → (bs : List Block) × (pair_json_entity_dtor (j, e) ≡ some bs) × (freed_nodes bs ≡ postorder j)
unfolding pair_json_entity_dtor entity_dtor
pair-frees j e h =
    let (bs, frees, same) = json_dtor_with_bro-frees j h in
    (
      bs ++ (of_entity e ∷ of_pair ∷ []),
      rw frees refl,
      freed_nodes-append bs (of_entity e ∷ of_pair ∷ [])
          ∙ ap (λ ns. ns ++ []) same
          ∙ append-nil (postorder j),
    )

pairs_dtor-frees :
    (col : List (Json × Entity))
    → EachHeld col
    → (bs : List Freed) × (pairs_dtor col ≡ some bs) × (nodes_among bs ≡ all_nodes col)
unfolding pairs_dtor
pairs_dtor-frees [] h = (of_pair_list ∷ [], refl, refl)
pairs_dtor-frees ((j, e) ∷ rest) (h, hs) =
    let (bs, frees, same) = pair-frees j e h in
    let (cs, rest_frees, rest_same) = pairs_dtor-frees rest hs in
    (
      blocks bs ++ cs,
      ap₂ (λ o r. then_freed (freed_blocks o) r) frees rest_frees,
      nodes_among-append (blocks bs) cs
          ∙ ap₂ (λ xs ys. xs ++ ys) (nodes_among-blocks bs ∙ same) rest_same,
    )

-- Where a text stands in each node whose type says so, `iter_dtor` frees each node of the documents that the
-- iterator still holds exactly once: document by document, each node behind its sons and before its brothers.
pub iter_dtor-frees :
    (it : Iter)
    → EachHeld it.cur_col
    → (bs : List Freed) × (iter_dtor it ≡ some bs) × (nodes_among bs ≡ all_nodes it.cur_col)
unfolding iter_dtor
iter_dtor-frees it h =
    let (bs, frees, same) = pairs_dtor-frees it.cur_col h in
    (
      bs ++ (of_iter ∷ []),
      rw frees refl,
      nodes_among-append bs (of_iter ∷ []) ∙ append-nil (nodes_among bs) ∙ same,
    )
