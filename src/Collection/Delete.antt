-- ===== src/Collection/Delete.antt =====
-- The functions of a list that take elements out and free them.
use nosql_gql_dbms.Base.{not, Bool}
use nosql_gql_dbms.Collection.{update}
use nosql_gql_dbms.Base.{le→ltb_false, eq→==, ne→==, lt→ltb}
use nosql_gql_dbms.Collection.Laws.{get_next-ok, dtor_func-ok, IsList}
use nosql_gql_dbms.Collection.Chain.{
  update_self, Distinct, Seg, AllLive-update, NotIn, AllLive, AllFreed, update_other,
}
use nosql_gql_dbms.Collection.{dtor_loop, nil, del_fst, Heap}
use nosql_gql_dbms.Base.{step}
use nosql_gql_dbms.Base.{length}
use nosql_gql_dbms.Base.{
  [], ◌∷◌, ◌≡◌, ◌≢◌, ◌∙◌, ◌<◌, ◌-◌, List, ℕ, zero, suc, refl, sym, ap, subst, true, arith, ok,
}

-- What taking the element `a` out leaves: a list of the elements `xs`, and `a` freed where DTOR_FUNC frees it.
pub record Removed (frees : ℕ → Bool) (s t : Heap) (a : ℕ) (xs : List ℕ) : Type 0 where
  pub list : IsList t xs
  pub freed : t.live a ≡ not (frees a)
  pub others : (x : ℕ) → a ≢ x → t.live x ≡ s.live x

-- `list_del_fst` of a list with elements succeeds, takes the first one out and hands it alone to DTOR_FUNC.
pub del_fst-Removed :
    (frees : ℕ → Bool) (s : Heap) (x : ℕ) (xs : List ℕ)
    → IsList s (x ∷ xs)
    → (t : Heap) × (del_fst frees s ≡ (ok tt, t)) × Removed frees s t x xs
unfolding del_fst
del_fst-Removed frees s x [] l =
    let nz : s.head ≢ nil = λ e. l.chain.1 (sym l.chain.0 ∙ e) in
    (
      record s {
        live = update s.live s.head (not (frees s.head));
        head = nil;
        tail = nil;
        count = s.count - 1;
      },
      rw (le→ltb_false 1 s.count (omega (arith, l.count)), eq→== s.count 1 l.count)
          (step _ (dtor_func-ok frees s s.head nz (ap s.live l.chain.0 ∙ l.live.0))),
      record {
        list = record {
          chain = refl;
          distinct = tt;
          live = tt;
          tail = refl;
          count = omega (arith, l.count);
        };
        freed =
            ap (update s.live s.head (not (frees s.head))) (sym l.chain.0)
            ∙ (update_self s.live s.head (not (frees s.head)) ∙ ap (λ z. not (frees z)) l.chain.0);
        others =
            λ y n. update_other s.live s.head (not (frees s.head)) y (λ e. n (sym l.chain.0 ∙ e));
      },
    )
del_fst-Removed frees s x (y ∷ ys) l =
    let nz : s.head ≢ nil = λ e. l.chain.1 (sym l.chain.0 ∙ e) in
    let lv : s.live s.head ≡ true = ap s.live l.chain.0 ∙ l.live.0 in
    (
      record s {
        live = update s.live s.head (not (frees s.head));
        head = s.next s.head;
        count = s.count - 1;
      },
      rw (lt→ltb 1 s.count (omega (arith, l.count)))
          (step _ (get_next-ok s s.head nz lv) ∙ step _ (dtor_func-ok frees s s.head nz lv)),
      record {
        list = record {
          chain = subst (λ (m : ℕ). Seg s.next (s.next m) (y ∷ ys) nil) (sym l.chain.0) l.chain.2;
          distinct = l.distinct.1;
          live =
              subst (λ (m : ℕ). AllLive (update s.live m (not (frees s.head))) (y ∷ ys))
                (sym l.chain.0)
                (AllLive-update s.live x (not (frees s.head)) (y ∷ ys) l.distinct.0 l.live.1);
          tail = l.tail;
          count = omega (arith, l.count);
        };
        freed =
            ap (update s.live s.head (not (frees s.head))) (sym l.chain.0)
            ∙ (update_self s.live s.head (not (frees s.head)) ∙ ap (λ z. not (frees z)) l.chain.0);
        others =
            λ z n. update_other s.live s.head (not (frees s.head)) z (λ e. n (sym l.chain.0 ∙ e));
      },
    )

del_fst-nil : (frees : ℕ → Bool) (s : Heap) → IsList s [] → del_fst frees s ≡ (ok tt, s)
unfolding del_fst
del_fst-nil frees s l =
    rw (le→ltb_false 1 s.count (omega (arith, l.count)), ne→== s.count 1 (omega (arith, l.count)))
      refl

-- Where the head leads along `next` to distinct elements that are allocated, and the fuel is above their
-- number, the loop of `list_dtor` ends without touching an element that was freed: the list has no head any
-- more, each of the elements is freed where DTOR_FUNC frees it and allocated where it does not, and what is
-- allocated beside them stays as it was.
pub dtor_loop-frees :
    (frees : ℕ → Bool) (xs : List ℕ) (s : Heap) (fuel : ℕ)
    → Seg s.next s.head xs nil
    → Distinct xs
    → AllLive s.live xs
    → length xs < fuel
    → (t : Heap) × (dtor_loop frees fuel s ≡ (ok tt, t))
      × (t.head ≡ nil)
      × ((x : ℕ) → NotIn x xs → t.live x ≡ s.live x)
      × AllFreed frees t.live xs
unfolding dtor_loop
dtor_loop-frees frees xs s zero c d l p = absurd (omega (arith, p))
dtor_loop-frees frees [] s (suc fuel) c d l p =
    (s, rw (eq→== s.head nil c) refl, c, (λ x n. refl), tt)
dtor_loop-frees frees (x ∷ xs) s (suc fuel) c d l p =
    let nz : s.head ≢ nil = λ e. c.1 (sym c.0 ∙ e) in
    let lv : s.live s.head ≡ true = ap s.live c.0 ∙ l.0 in
    let after : Heap = record s {
      live = update s.live s.head (not (frees s.head));
      head = s.next s.head;
    } in
    let (t, run, empty, kept, freed) =
      dtor_loop-frees frees xs after fuel
        (subst (λ (m : ℕ). Seg s.next (s.next m) xs nil) (sym c.0) c.2) d.1
        (subst (λ (m : ℕ). AllLive (update s.live m (not (frees s.head))) xs) (sym c.0)
          (AllLive-update s.live x (not (frees s.head)) xs d.0 l.1))
        (omega (arith, p)) in
    (
      t,
      rw (ne→== s.head nil nz)
          (step _ (get_next-ok s s.head nz lv) ∙ step _ (dtor_func-ok frees s s.head nz lv) ∙ run),
      empty,
      (λ y n.
          kept y n.1 ∙ update_other s.live s.head (not (frees s.head)) y (λ e. n.0 (sym e ∙ c.0))),
      (
        kept x d.0
            ∙ ap (update s.live s.head (not (frees s.head))) (sym c.0)
            ∙ (update_self s.live s.head (not (frees s.head)) ∙ ap (λ z. not (frees z)) c.0),
        freed,
      ),
    )
