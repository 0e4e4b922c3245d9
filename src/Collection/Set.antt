-- ===== src/Collection/Set.antt =====
-- `list_add_lk_set`: a list as a set, by the comparison of its elements.
use nosql_gql_dbms.Collection.Chain.{AllLive, Seg}
use nosql_gql_dbms.Collection.{add_lk_set, found_same, set_only, Heap, count_up, nil}
use nosql_gql_dbms.Collection.Laws.{
  get_next-ok, added, added-Added, IsList, link_last-ok, IsFresh, Added,
}
use nosql_gql_dbms.Base.{u64_mod}
use nosql_gql_dbms.Base.{step}
use nosql_gql_dbms.Base.{Bool-cases, ne→==, eq→==}
use nosql_gql_dbms.Base.{length}
use nosql_gql_dbms.Base.{
  [], ◌∷◌, ◌≡◌, ◌≢◌, ◌∙◌, ◌<◌, ◌+◌, ◌==◌, ◌⊎◌, if◌then◌else◌, List, ℕ, zero, suc, refl, sym, ap,
  subst, inl, inr, Bool, true, false, arith, ok, not,
}

abbrev pub any : (ℕ → Bool) → List ℕ → Bool
any same [] = false
any same (x ∷ xs) = if same x then true else any same xs

-- The loop sees the elements in order, and needs fuel for each and for the end.
found_same-any :
    (same : ℕ → Bool) (xs : List ℕ) (p fuel : ℕ) (s : Heap)
    → Seg s.next p xs nil
    → AllLive s.live xs
    → length xs < fuel
    → found_same same fuel p s ≡ (ok (any same xs), s)
unfolding found_same
found_same-any same xs p zero s c l small = absurd (omega (arith, small))
found_same-any same [] p (suc fuel) s c l small = rw (eq→== p nil c) refl
found_same-any same (x ∷ xs) p (suc fuel) s c l small =
    let nz : p ≢ nil = λ e. c.1 (sym c.0 ∙ e) in
    let same_p : same p ≡ same x = ap same c.0 in
    elim (Bool-cases (same x)) [
      | inl y ↦ rw (ne→== p nil nz, same_p, y) refl
      | inr n ↦
          rw (ne→== p nil nz, same_p, n)
            (step _ (get_next-ok s p nz (ap s.live c.0 ∙ l.0))
              ∙ found_same-any same xs (s.next p) fuel s
                  (subst (λ (m : ℕ). Seg s.next (s.next m) xs nil) (sym c.0) c.2) l.1
                  (omega (arith, small)))
    ]

-- `list_add_lk_set` adds a fresh element exactly where no element compares equal; else it returns false
-- and changes nothing.
pub add_lk_set-any :
    (same : ℕ → Bool) (fuel : ℕ) (s : Heap) (a : ℕ) (xs : List ℕ)
    → IsList s xs
    → IsFresh s xs a
    → length xs + 1 < u64_mod
    → length xs < fuel
    → (t : Heap) × (add_lk_set same fuel a s ≡ (ok (not (any same xs)), t))
      × ((any same xs ≡ true) × (t ≡ s) ⊎ (any same xs ≡ false) × Added s t xs a)
unfolding add_lk_set set_only count_up
add_lk_set-any same fuel s a [] l n small enough =
    (added s [] a, rw (eq→== s.head nil l.chain) refl, inr (refl, added-Added s a [] l n small))
add_lk_set-any same fuel s a (x ∷ xs) l n small enough =
    let nz : (s.head == nil) ≡ false = ne→== s.head nil (λ e. l.chain.1 (sym l.chain.0 ∙ e)) in
    let looks : found_same same fuel s.head s ≡ (ok (any same (x ∷ xs)), s) =
      found_same-any same (x ∷ xs) s.head fuel s l.chain l.live enough in
    elim (Bool-cases (any same (x ∷ xs))) [
      | inl y ↦ (
        s,
        rw nz (step _ (looks ∙ λ i. (ok (y i), s)) ∙ λ i. (ok (not (sym y i)), s)),
        inl (y, refl),
      )
      | inr y ↦ (
        added s (x ∷ xs) a,
        rw nz (
            step _ (looks ∙ λ i. (ok (y i), s)) ∙ step _ (link_last-ok s a x xs l) ∙ λ i.
            (ok (not (sym y i)), added s (x ∷ xs) a)),
        inr (y, added-Added s a (x ∷ xs) l n small),
      )
    ]
