-- ===== src/Collection/DeleteNext.antt =====
-- `list_del_nxt`: the element behind a given one.
use nosql_gql_dbms.Base.{not}
use nosql_gql_dbms.Collection.{update}
use nosql_gql_dbms.Collection.Chain.{
  Seg-skip, update_self, update_other, NotIn, Seg, AllLive, AllLive-update, last, Distinct,
  NotIn-last,
}
use nosql_gql_dbms.Collection.Laws.{get_next-ok, set_next-ok, IsList, dtor_func-ok}
use nosql_gql_dbms.Collection.{Heap, nil, del_nxt}
use nosql_gql_dbms.Base.{u64_mod, u64, neg64}
use nosql_gql_dbms.Base.{step}
use nosql_gql_dbms.Base.{ne→==, Bool-cases, eq→==}
use nosql_gql_dbms.Collection.Delete.{Removed}
use nosql_gql_dbms.Base.{length-append, length}
use nosql_gql_dbms.Base.{
  [], ◌∷◌, ◌++◌, ◌≡◌, ◌≢◌, ◌∙◌, ◌<◌, ◌+◌, ◌==◌, if◌then◌else◌, List, ℕ, refl, sym, inl, inr, Bool,
  arith, ok,
}

-- An element of a chain, and what follows it.
Seg-at :
    (next : ℕ → ℕ) (p e q : ℕ) (before rest : List ℕ)
    → Seg next p (before ++ (e ∷ rest)) q
    → (e ≢ nil) × Seg next (next e) rest q
Seg-at next p e q [] rest g = (g.1, g.2)
Seg-at next p e q (x ∷ xs) rest g = Seg-at next (next x) e q xs rest g.2

AllLive-at :
    (live : ℕ → Bool) (before rest : List ℕ) → AllLive live (before ++ rest) → AllLive live rest
AllLive-at live [] rest l = l
AllLive-at live (x ∷ xs) rest l = AllLive-at live xs rest l.1

Distinct-at : (before rest : List ℕ) → Distinct (before ++ rest) → Distinct rest
Distinct-at [] rest d = d
Distinct-at (x ∷ xs) rest d = Distinct-at xs rest d.1

last_at : (d e : ℕ) (before rest : List ℕ) → last d (before ++ (e ∷ rest)) ≡ last e rest
last_at d e [] rest = refl
last_at d e (x ∷ xs) rest = last_at x e xs rest

NotIn-drop :
    (a e y : ℕ) (before after : List ℕ)
    → NotIn a (before ++ (e ∷ y ∷ after))
    → NotIn a (before ++ (e ∷ after))
NotIn-drop a e y [] after n = (n.0, n.1.1)
NotIn-drop a e y (x ∷ xs) after n = (n.0, NotIn-drop a e y xs after n.1)

Distinct-drop :
    (e y : ℕ) (before after : List ℕ)
    → Distinct (before ++ (e ∷ y ∷ after))
    → Distinct (before ++ (e ∷ after)) × NotIn y (before ++ (e ∷ after))
Distinct-drop e y [] after d = ((d.0.1, d.1.1), ((λ q. d.0.0 (sym q)), d.1.0))
Distinct-drop e y (x ∷ xs) after d =
    let (ds, n) = Distinct-drop e y xs after d.1 in
    ((NotIn-drop x e y xs after d.0, ds), ((λ q. NotIn_at x y xs d.0 (sym q)), n))
  where
    NotIn_at : (a b : ℕ) (zs : List ℕ) → NotIn a (zs ++ (e ∷ b ∷ after)) → a ≢ b
    NotIn_at a b [] n = n.1.0
    NotIn_at a b (z ∷ zs) n = NotIn_at a b zs n.1

AllLive-drop :
    (live : ℕ → Bool) (e y : ℕ) (before after : List ℕ)
    → AllLive live (before ++ (e ∷ y ∷ after))
    → AllLive live (before ++ (e ∷ after))
AllLive-drop live e y [] after l = (l.0, l.1.1)
AllLive-drop live e y (x ∷ xs) after l = (l.0, AllLive-drop live e y xs after l.1)

module _ (frees : ℕ → Bool) (s : Heap) (e y : ℕ) (before after : List ℕ)
    (l : IsList s (before ++ (e ∷ y ∷ after))) where
  ends : (e ≢ nil) × Seg s.next (s.next e) (y ∷ after) nil
  ends = Seg-at s.next s.head e nil before (y ∷ after) l.chain

  lives : AllLive s.live (e ∷ y ∷ after)
  lives = AllLive-at s.live before (e ∷ y ∷ after) l.live

  ds : Distinct (e ∷ y ∷ after)
  ds = Distinct-at before (e ∷ y ∷ after) l.distinct

  dropped : Distinct (before ++ (e ∷ after)) × NotIn y (before ++ (e ∷ after))
  dropped = Distinct-drop e y before after l.distinct

  tail_is : s.tail ≡ last y after
  tail_is = l.tail ∙ last_at nil e before (y ∷ after)

  abbrev new_tail : ℕ
  new_tail = if s.tail == y then e else s.tail

  new_tail-last : new_tail ≡ last nil (before ++ (e ∷ after))
  new_tail-last = at after tail_is ds ∙ sym (last_at nil e before after)
    where
      at :
          (rest : List ℕ)
          → s.tail ≡ last y rest
          → Distinct (e ∷ y ∷ rest)
          → (if s.tail == y then e else s.tail) ≡ last e rest
      at [] t d = rw (eq→== s.tail y t) refl
      at (z ∷ zs) t d = rw (ne→== s.tail y (λ q. NotIn-last y z zs d.1.0 (sym q ∙ t))) t

  abbrev retailed : Heap
  retailed = record s { tail = new_tail }

  abbrev left : Heap
  left = record s {
    tail = new_tail;
    next = update s.next e (s.next y);
    live = update s.live y (not (frees y));
    count = u64 (s.count + neg64 1);
  }

  retails : (if s.tail == y then record s { tail = e } else s) ≡ retailed
  retails = elim (Bool-cases (s.tail == y)) [ inl p ↦ rw p refl | inr p ↦ rw p refl ]

  -- `list_del_nxt` of an element with a next one takes that one out: the others stay
  -- a list in their order, it is freed where DTOR_FUNC frees it, and no other element is.
  pub del_nxt-Removed :
      length (before ++ (e ∷ y ∷ after)) < u64_mod
      → (t : Heap) × (del_nxt frees e s ≡ (ok tt, t)) × Removed frees s t y (before ++ (e ∷ after))
  unfolding del_nxt
  del_nxt-Removed small = (
    left,
    step _ (get_next-ok s e ends.0 lives.0 ∙ λ i. (ok (ends.1.0 i), s))
        ∙ rw (retails, ne→== y nil ends.1.1)
            (step _ (get_next-ok retailed y ends.1.1 lives.1.0)
              ∙ step _ (set_next-ok retailed e (s.next y) ends.0 lives.0)
              ∙ step _ (
                  dtor_func-ok frees (record retailed { next = update s.next e (s.next y) }) y
                    ends.1.1 lives.1.0)),
    record {
      list = record {
        chain = Seg-skip s.next s.head e y nil before after l.chain l.distinct;
        distinct = dropped.0;
        live =
            AllLive-update s.live y (not (frees y)) (before ++ (e ∷ after)) dropped.1
              (AllLive-drop s.live e y before after l.live);
        tail = new_tail-last;
        count = omega (
          arith,
          l.count,
          small,
          length-append before (e ∷ y ∷ after),
          length-append before (e ∷ after),
        );
      };
      freed = update_self s.live y (not (frees y));
      others = λ z n. update_other s.live y (not (frees y)) z n;
    },
  )
