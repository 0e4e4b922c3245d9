-- ===== src/Collection/Laws.antt =====
-- What the functions of a list do to the elements that it stands for.
use nosql_gql_dbms.Base.{not}
use nosql_gql_dbms.Collection.{new, update}
use nosql_gql_dbms.Collection.Chain.{
  update_other, NotIn, Distinct-append_one, last, AllLive-last, Seg, AllLive-append_one,
  last-append_one, Seg-last_nonzero, Seg-append, AllLive, NotIn-last, Distinct,
}
use nosql_gql_dbms.Base.{step}
use nosql_gql_dbms.Base.{u64_mod, u64}
use nosql_gql_dbms.Collection.{
  readable, add, nil, set_next, set_only, count_up, dtor_func, link_last, Heap, get_next,
}
use nosql_gql_dbms.Base.{eq→==, ne→==}
use nosql_gql_dbms.Base.{length-append, length}
use nosql_gql_dbms.Base.{
  [], ◌∷◌, ◌++◌, ◌≡◌, ◌≢◌, ◌∙◌, ◌<◌, ◌+◌, List, ℕ, refl, sym, ap, subst, Bool, true, arith, ok,
}

-- The list stands for the elements `xs`, which are allocated and all different.
pub record IsList (s : Heap) (xs : List ℕ) : Type 0 where
  pub chain : Seg s.next s.head xs nil
  pub distinct : Distinct xs
  pub live : AllLive s.live xs
  pub tail : s.tail ≡ last nil xs
  pub count : s.count ≡ length xs

-- An element that may be added: it is allocated, is none of the list, and has no next one.
pub record IsFresh (s : Heap) (xs : List ℕ) (a : ℕ) : Type 0 where
  pub nonzero : a ≢ nil
  pub live : s.live a ≡ true
  pub other : NotIn a xs
  pub ends : s.next a ≡ nil

readable-ok : (s : Heap) (p : ℕ) → p ≢ nil → s.live p ≡ true → readable s p ≡ true
readable-ok s p n l = rw (ne→== p nil n, l) refl

pub get_next-ok : (s : Heap) (p : ℕ) → p ≢ nil → s.live p ≡ true → get_next p s ≡ (ok (s.next p), s)
unfolding get_next
get_next-ok s p n l = rw (readable-ok s p n l) refl

pub set_next-ok :
    (s : Heap) (p q : ℕ)
    → p ≢ nil
    → s.live p ≡ true
    → set_next p q s ≡ (ok tt, record s { next = update s.next p q })
unfolding set_next
set_next-ok s p q n l = rw (readable-ok s p n l) refl

pub dtor_func-ok :
    (frees : ℕ → Bool) (s : Heap) (p : ℕ)
    → p ≢ nil
    → s.live p ≡ true
    → dtor_func frees p s ≡ (ok tt, record s { live = update s.live p (not (frees p)) })
unfolding dtor_func
dtor_func-ok frees s p n l = rw (readable-ok s p n l) refl

-- A cleared list stands for no elements.
pub new-IsList : (next : ℕ → ℕ) (live : ℕ → Bool) → IsList (new next live) []
unfolding new
new-IsList next live = record { chain = refl; distinct = tt; live = tt; tail = refl; count = refl }

-- What adding an element leaves.
pub record Added (s t : Heap) (xs : List ℕ) (a : ℕ) : Type 0 where
  pub list : IsList t (xs ++ (a ∷ []))
  pub same_live : t.live ≡ s.live
  pub others : (x : ℕ) → NotIn x xs → t.next x ≡ s.next x

-- the list after `set_only` or `link_last`, and `count_up`
abbrev pub added : Heap → List ℕ → ℕ → Heap
added s [] a = record s { head = a; tail = a; count = u64 (s.count + 1) }
added s (x ∷ xs) a = record s { next = update s.next s.tail a; tail = a; count = u64 (s.count + 1) }

module _ (s : Heap) (a : ℕ) where
  pub added-Added :
      (xs : List ℕ)
      → IsList s xs
      → IsFresh s xs a
      → length xs + 1 < u64_mod
      → Added s (added s xs a) xs a
  added-Added [] l n small = record {
    list = record {
      chain = (refl, n.nonzero, n.ends);
      distinct = (tt, tt);
      live = (n.live, tt);
      tail = refl;
      count = omega (arith, l.count);
    };
    same_live = refl;
    others = λ x e. refl;
  }
  added-Added (x ∷ xs) l n small = record {
    list = record {
      chain =
          subst (λ (m : ℕ). Seg (update s.next m a) s.head (x ∷ (xs ++ (a ∷ []))) nil) (sym l.tail)
            (Seg-append s.next a s.head x xs l.chain l.distinct n.other n.nonzero n.ends);
      distinct = Distinct-append_one (x ∷ xs) a l.distinct n.other;
      live = AllLive-append_one s.live (x ∷ xs) a l.live n.live;
      tail = sym (last-append_one x xs a);
      count = omega (arith, l.count, length-append xs (a ∷ []), small);
    };
    same_live = refl;
    others = λ y e. update_other s.next s.tail a y (λ q. NotIn-last y x xs e (sym q ∙ l.tail));
  }

  pub link_last-ok :
      (x : ℕ) (xs : List ℕ)
      → IsList s (x ∷ xs)
      → link_last a s ≡ (ok tt, record s { next = update s.next s.tail a; tail = a })
  unfolding link_last
  link_last-ok x xs l = step _ (
      set_next-ok s s.tail a (λ e. Seg-last_nonzero s.next s.head nil x xs l.chain (sym l.tail ∙ e))
        (ap s.live l.tail ∙ AllLive-last s.live x xs l.live))

  -- `list_add` puts a fresh element behind the last one, and touches no other memory.
  pub add-Added :
      (xs : List ℕ)
      → IsList s xs
      → IsFresh s xs a
      → length xs + 1 < u64_mod
      → (t : Heap) × (add a s ≡ (ok tt, t)) × Added s t xs a
  unfolding add set_only count_up
  add-Added [] l n small =
      (added s [] a, rw (eq→== s.head nil l.chain) refl, added-Added [] l n small)
  add-Added (x ∷ xs) l n small = (
    added s (x ∷ xs) a,
    rw (ne→== s.head nil (λ e. l.chain.1 (sym l.chain.0 ∙ e))) (step _ (link_last-ok x xs l)),
    added-Added (x ∷ xs) l n small,
  )
