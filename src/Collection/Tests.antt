-- ===== src/Collection/Tests.antt =====
-- Lists of up to three elements.
use nosql_gql_dbms.Base.{
  ℕ, ◌≡◌, refl, ◌⊎◌, [], ◌∷◌, arith, ok, Bool, true, false, ◌==◌, if◌then◌else◌,
}
use nosql_gql_dbms.Collection.Copy.{type_cpy-moves, type_cpy}
use nosql_gql_dbms.Text.{string_ctor}
use nosql_gql_dbms.Collection.{add, dtor_loop, nil, add_lk_set, Heap, del_nxt}
use nosql_gql_dbms.Collection.Chain.{NotIn, AllFreed}
use nosql_gql_dbms.Collection.Set.{any, add_lk_set-any}
use nosql_gql_dbms.Collection.Delete.{Removed, dtor_loop-frees}
use nosql_gql_dbms.Collection.Laws.{add-Added, Added, IsList, IsFresh}
use nosql_gql_dbms.Collection.DeleteNext.{del_nxt-Removed}
use nosql_gql_dbms.Base.{not}

-- elements 1, 2 and 3 linked in a row, and 4 on its own
abbrev row : ℕ → ℕ
row x = if x == 1 then 2 else if x == 2 then 3 else 0

abbrev all_live : ℕ → Bool
all_live x = true

abbrev three : Heap
three = record { next = row; live = all_live; head = 1; tail = 3; count = 3 }

three-IsList : IsList three (1 ∷ 2 ∷ 3 ∷ [])
three-IsList = record {
  chain = (refl, omega arith, (refl, omega arith, (refl, omega arith, refl)));
  distinct = ((omega arith, (omega arith, tt)), ((omega arith, tt), (tt, tt)));
  live = (refl, (refl, (refl, tt)));
  tail = refl;
  count = refl;
}

four-IsFresh : IsFresh three (1 ∷ 2 ∷ 3 ∷ []) 4
four-IsFresh = record {
  nonzero = omega arith;
  live = refl;
  other = (omega arith, (omega arith, (omega arith, tt)));
  ends = refl;
}

add-Added_example : (t : Heap) × (add 4 three ≡ (ok tt, t)) × Added three t (1 ∷ 2 ∷ 3 ∷ []) 4
add-Added_example = add-Added three 4 (1 ∷ 2 ∷ 3 ∷ []) three-IsList four-IsFresh (omega arith)

add_lk_set-any_example :
    (t : Heap) × (add_lk_set (λ x. x == 2) 4 4 three
      ≡ (ok (not (any (λ x. x == 2) (1 ∷ 2 ∷ 3 ∷ []))), t))
    × ((any (λ x. x == 2) (1 ∷ 2 ∷ 3 ∷ []) ≡ true) × (t ≡ three)
        ⊎ (any (λ x. x == 2) (1 ∷ 2 ∷ 3 ∷ []) ≡ false) × Added three t (1 ∷ 2 ∷ 3 ∷ []) 4)
add_lk_set-any_example =
    add_lk_set-any (λ x. x == 2) 4 three 4 (1 ∷ 2 ∷ 3 ∷ []) three-IsList four-IsFresh (omega arith)
      (omega arith)

-- a destructor that does not free 2
abbrev frees_odd : ℕ → Bool
frees_odd x = not (x == 2)

del_nxt-Removed_example :
    (t : Heap) × (del_nxt frees_odd 2 three ≡ (ok tt, t)) × Removed frees_odd three t 3 (1 ∷ 2 ∷ [])
del_nxt-Removed_example = del_nxt-Removed frees_odd three 2 3 (1 ∷ []) [] three-IsList (omega arith)

dtor_loop-frees_example :
    (t : Heap) × (dtor_loop frees_odd 4 three ≡ (ok tt, t))
    × (t.head ≡ nil)
    × ((x : ℕ) → NotIn x (1 ∷ 2 ∷ 3 ∷ []) → t.live x ≡ true)
    × AllFreed frees_odd t.live (1 ∷ 2 ∷ 3 ∷ [])
dtor_loop-frees_example =
    dtor_loop-frees frees_odd (1 ∷ 2 ∷ 3 ∷ []) three 4 three-IsList.chain three-IsList.distinct
      three-IsList.live (omega arith)

type_cpy-moves_example :
    (dest after : Heap) × (type_cpy 4 (b'p' ∷ []) three
      ≡ (ok (string_ctor (b'p' ∷ []), dest), after))
    × IsList dest (1 ∷ 2 ∷ 3 ∷ [])
    × IsList after []
    × (after.next ≡ row)
    × (after.live ≡ all_live)
type_cpy-moves_example =
    type_cpy-moves 4 (b'p' ∷ []) three (1 ∷ 2 ∷ 3 ∷ []) three-IsList (omega arith) (omega arith)
