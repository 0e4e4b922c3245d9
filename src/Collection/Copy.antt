-- ===== src/Collection/Copy.antt =====
-- `type_cpy` of dbms/src/object/type.c: the attributes of a type are moved into a new list.
use nosql_gql_dbms.Base.{
  ℕ, zero, suc, ◌+◌, ◌<◌, ◌≡◌, ◌≢◌, refl, ap, ◌∙◌, List, [], ◌∷◌, arith, length, u64, u64_mod, ok,
  failed, fault, Outcome, M, step, pure, ◌>>=◌, ◌>>◌, Bool, true, ◌==◌, if◌then◌else◌, eq→==, ne→==,
  fun_ext, stop,
}
use nosql_gql_dbms.Collection.Laws.{new-IsList}
use nosql_gql_dbms.Collection.{set_only}
use nosql_gql_dbms.Collection.Laws.{IsList, get_next-ok}
use nosql_gql_dbms.Collection.Chain.{AllLive, last, Seg}
use nosql_gql_dbms.Collection.{new, update, get_next, link_last, Heap, count_up, add, nil}
use nosql_gql_dbms.Text.{string_ctor}
use nosql_gql_dbms.Collection.Laws.{set_next-ok}
use mathlib.Core.Path.{fun_ext}

-- The loop of `type_cpy` on fuel: each element is added to the list of the copy.
unfoldable pub cpy_loop : ℕ → ℕ → M Heap (Unit {0})
unfolding add get_next
cpy_loop zero cur = stop
cpy_loop (suc fuel) cur =
    if cur == nil then pure tt else (do add cur; nxt ← get_next cur; cpy_loop fuel nxt)

-- What `type_cpy` leaves of the list that it copied: it is cleared, over the memory of the copy.
abbrev pub cleared_list : Heap → Heap
cleared_list dest = record dest { head = nil; tail = nil; count = 0 }

-- `type_cpy`: the name and the list of the copy.
unfoldable pub type_cpy : ℕ → List ℕ → M Heap (List ℕ × Heap)
unfolding cpy_loop new
type_cpy fuel name src =
    let (o, dest) = cpy_loop fuel src.head (new src.next src.live) in
    elim o [
      | ok u ↦ (ok (string_ctor name, dest), cleared_list dest)
      | failed ↦ (failed, dest)
      | fault ↦ (fault, dest)
    ]

update_same : (f : ℕ → ℕ) (a v : ℕ) → f a ≡ v → update f a v ≡ f
update_same f a v e = fun_ext (λ x. go x)
  where
    go : (x : ℕ) → update f a v x ≡ f x
    go x = ground (arith, e)

-- An element is added that is the next one of the tail already.
add-next :
    (s : Heap) (cur : ℕ)
    → s.head ≢ nil
    → s.tail ≢ nil
    → s.live s.tail ≡ true
    → s.next s.tail ≡ cur
    → s.count + 1 < u64_mod
    → add cur s ≡ (ok tt, record s { tail = cur; count = s.count + 1 })
unfolding add link_last count_up
add-next s cur h t l e p = rw (ne→== s.head nil h) (
    step _ (step _ (set_next-ok s s.tail cur t l)) ∙ λ i.
    (ok tt, record s { next = update_same s.next s.tail cur e i; tail = cur; count = small i }))
  where
    small : u64 (s.count + 1) ≡ s.count + 1
    small = omega (arith, p)

-- The loop on a list that has an element.
cpy_loop-rest :
    (fuel cur : ℕ) (xs : List ℕ) (s : Heap)
    → s.head ≢ nil
    → s.tail ≢ nil
    → s.live s.tail ≡ true
    → s.next s.tail ≡ cur
    → Seg s.next cur xs nil
    → AllLive s.live xs
    → length xs < fuel
    → s.count + length xs < u64_mod
    → cpy_loop fuel cur s ≡ (ok tt, record s { tail = last s.tail xs; count = s.count + length xs })
unfolding cpy_loop
cpy_loop-rest zero cur xs s h t l e g v p q = absurd (omega (arith, p))
cpy_loop-rest (suc fuel) cur [] s h t l e g v p q =
    rw (eq→== cur nil g) (λ i. (ok tt, record s { count = same i }))
  where
    same : s.count ≡ s.count + 0
    same = omega arith
cpy_loop-rest (suc fuel) cur (x ∷ xs) s h t l e (a, b, c) (d, v) p q =
    let s' : Heap = record s { tail = x; count = s.count + 1 } in
    rw (a, ne→== x nil b)
      (step _ (add-next s x h t l (e ∙ a) (omega (arith, q)))
        ∙ step _ (get_next-ok s' x b d)
        ∙ cpy_loop-rest fuel (s.next x) xs s' h b d refl c v (omega (arith, p)) (omega (arith, q))
        ∙ λ i. (ok tt, record s { tail = last x xs; count = same i }))
  where
    same : s.count + 1 + length xs ≡ s.count + suc (length xs)
    same = omega arith

add-first :
    (next : ℕ → ℕ) (live : ℕ → Bool) (x : ℕ)
    → add x (new next live)
      ≡ (ok tt, record { next = next; live = live; head = x; tail = x; count = 1 })
unfolding add set_only count_up new
add-first next live x = refl

cpy_loop-all :
    (fuel : ℕ) (src : Heap) (xs : List ℕ)
    → IsList src xs
    → length xs < fuel
    → length xs < u64_mod
    → (dest : Heap) × (cpy_loop fuel src.head (new src.next src.live) ≡ (ok tt, dest))
      × IsList dest xs
      × (dest.next ≡ src.next)
      × (dest.live ≡ src.live)
unfolding cpy_loop
cpy_loop-all zero src xs l p q = absurd (omega (arith, p))
cpy_loop-all (suc fuel) src [] l p q = (
  new src.next src.live,
  rw (eq→== src.head nil l.chain) refl,
  new-IsList src.next src.live,
  unfold new in refl,
  unfold new in refl,
)
cpy_loop-all (suc fuel) src (x ∷ xs) l p q =
    let (a, b, c) = l.chain in
    let s : Heap = record { next = src.next; live = src.live; head = x; tail = x; count = 1 } in
    (
      record s { tail = last x xs; count = 1 + length xs },
      rw (a, ne→== x nil b)
          (step _ (add-first src.next src.live x)
            ∙ step _ (get_next-ok s x b l.live.0)
            ∙ cpy_loop-rest fuel (src.next x) xs s b b l.live.0 refl c l.live.1 (omega (arith, p))
                (omega (arith, q))),
      record {
        chain = (refl, b, c);
        distinct = l.distinct;
        live = l.live;
        tail = refl;
        count = omega arith;
      },
      refl,
      refl,
    )

-- Where a list stands for elements and the fuel is above their number, `type_cpy` ends: the copy has the
-- name, as `string_ctor` makes it, and stands for the same elements, which it does not copy; the list that
-- was copied is empty, and no link between elements and nothing of what is allocated has changed.
pub type_cpy-moves :
    (fuel : ℕ) (name : List ℕ) (src : Heap) (xs : List ℕ)
    → IsList src xs
    → length xs < fuel
    → length xs < u64_mod
    → (dest after : Heap) × (type_cpy fuel name src ≡ (ok (string_ctor name, dest), after))
      × IsList dest xs
      × IsList after []
      × (after.next ≡ src.next)
      × (after.live ≡ src.live)
unfolding type_cpy
type_cpy-moves fuel name src xs l p q =
    let (dest, runs, list, next, live) = cpy_loop-all fuel src xs l p q in
    (
      dest,
      cleared_list dest,
      ap (λ r. after r) runs,
      list,
      record { chain = refl; distinct = tt; live = tt; tail = refl; count = refl },
      next,
      live,
    )
  where
    after : Outcome (Unit {0}) × Heap → Outcome (List ℕ × Heap) × Heap
    after r = elim r.0 [
      | ok u ↦ (ok (string_ctor name, r.1), cleared_list r.1)
      | failed ↦ (failed, r.1)
      | fault ↦ (fault, r.1)
    ]
