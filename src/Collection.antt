-- ===== src/Collection.antt =====
-- dbms/include/utils/list.h: LIST_DEFINE, a list through the `next` members of its elements.
pub mod Chain
pub mod Laws
pub mod Delete
pub mod DeleteNext
pub mod Set
pub mod Copy
mod Tests
use nosql_gql_dbms.Base.{neg64}
use nosql_gql_dbms.Base.{modify, stop, get, M, pure}
use nosql_gql_dbms.Base.{ltb}
use nosql_gql_dbms.Base.{u64}
use nosql_gql_dbms.Base.{
  ◌+◌, ◌-◌, ◌==◌, ◌&&◌, if◌then◌else◌, ◌>>=◌, ℕ, zero, suc, Bool, true, false, ok, fault, not, ◌>>◌,
}

-- The memory of the elements, by their addresses, and one list over them. `live` is what is allocated.
pub record Heap : Type 0 where
  pub next : ℕ → ℕ
  pub live : ℕ → Bool
  pub head : ℕ
  pub tail : ℕ
  pub count : ℕ

-- NULL
abbrev pub nil : ℕ
nil = 0

abbrev pub update : {A : Type 0} → (ℕ → A) → ℕ → A → ℕ → A
update f a v x = if x == a then v else f x

abbrev pub readable : Heap → ℕ → Bool
readable s p = not (p == nil) && s.live p

-- `p->next`, and `p->next = q`: a NULL or an element freed is not to be touched.
unfoldable pub get_next : ℕ → M Heap ℕ
get_next p s = if readable s p then (ok (s.next p), s) else (fault, s)

unfoldable pub set_next : ℕ → ℕ → M Heap (Unit {0})
set_next p q s = if readable s p then (ok tt, record s { next = update s.next p q }) else (fault, s)

-- DTOR_FUNC, which reads its argument. Whether it frees it is a parameter, by the element: `path_dtor` of
-- dbms/src/query/path.c frees none, and `sect_head_dtor` of dbms/src/section/header.c only where its sync
-- succeeds.
unfoldable pub dtor_func : (frees : ℕ → Bool) → ℕ → M Heap (Unit {0})
dtor_func frees p s =
    if readable s p
    then (ok tt, record s { live = update s.live p (not (frees p)) })
    else (fault, s)

-- `list_##TYPE##_new`: the memory is cleared. The elements are those of the program.
unfoldable pub new : (ℕ → ℕ) → (ℕ → Bool) → Heap
new next live = record { next = next; live = live; head = nil; tail = nil; count = 0 }

-- `col->head = ent; col->tail = ent`
unfoldable pub set_only : ℕ → M Heap (Unit {0})
set_only ent = modify (λ s. record s { head = ent; tail = ent })

-- `col->tail->next = ent; col->tail = ent`
unfoldable pub link_last : ℕ → M Heap (Unit {0})
unfolding set_next
link_last ent = do s ← get; set_next s.tail ent; modify (λ t. record t { tail = ent })

unfoldable pub count_up : M Heap (Unit {0})
count_up = modify (λ s. record s { count = u64 (s.count + 1) })

unfoldable pub add : ℕ → M Heap (Unit {0})
unfolding set_only link_last count_up
add ent = do s ← get; if s.head == nil then set_only ent else link_last ent; count_up

unfoldable pub del_fst : (frees : ℕ → Bool) → M Heap (Unit {0})
unfolding get_next dtor_func
del_fst frees = do
  s ← get
  if ltb 1 s.count
      then (do
        nxt ← get_next s.head
        dtor_func frees s.head
        modify (λ t. record t { head = nxt; count = t.count - 1 }))
      else if s.count == 1
      then (do
        dtor_func frees s.head
        modify (λ t. record t { head = nil; tail = nil; count = t.count - 1 }))
      else pure tt

unfoldable pub del_nxt : (frees : ℕ → Bool) → ℕ → M Heap (Unit {0})
unfolding get_next set_next dtor_func
del_nxt frees ent = do
  nxt ← get_next ent
  modify (λ s. if s.tail == nxt then record s { tail = ent } else s)
  if nxt == nil then pure tt else (do
    after ← get_next nxt
    set_next ent after
    dtor_func frees nxt
    modify (λ t. record t { count = u64 (t.count + neg64 1) }))

-- The loop of `add_lk_set` on fuel: whether `CMP_FUNC(cur, ent) == 0` for an element from `cur` on.
unfoldable pub found_same : (same : ℕ → Bool) → ℕ → ℕ → M Heap Bool
unfolding get_next
found_same same zero cur = stop
found_same same (suc fuel) cur =
    if cur == nil
    then pure false
    else if same cur
    then pure true
    else (do nxt ← get_next cur; found_same same fuel nxt)

-- `same cur` is `CMP_FUNC(cur, ent) == 0`.
unfoldable pub add_lk_set : (same : ℕ → Bool) → ℕ → ℕ → M Heap Bool
unfolding set_only link_last count_up found_same
add_lk_set same fuel ent = do
  s ← get
  if s.head == nil then (do set_only ent; count_up; pure true) else (do
    there ← found_same same fuel s.head
    if there then pure false else (do link_last ent; count_up; pure true))

-- The loop of `list_##TYPE##_dtor` on fuel.
unfoldable pub dtor_loop : (frees : ℕ → Bool) → ℕ → M Heap (Unit {0})
unfolding get_next dtor_func
dtor_loop frees zero = stop
dtor_loop frees (suc fuel) = do
  s ← get
  if s.head == nil then pure tt else (do
    nxt ← get_next s.head
    dtor_func frees s.head
    modify (λ t. record t { head = nxt })
    dtor_loop frees fuel)
