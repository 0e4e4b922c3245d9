-- ===== src/Iter/Laws.antt =====
-- The documents that an iterator goes through.
use nosql_gql_dbms.Iter.{next_section, pop_col, iter_ctor}
use nosql_gql_dbms.Base.{Option, ◌≢◌}
use nosql_gql_dbms.File.Find.{find}
use nosql_gql_dbms.Query.{Query}
use nosql_gql_dbms.Json.Entity.{Entity}
use nosql_gql_dbms.Base.{length}
use nosql_gql_dbms.Iter.{iter_get, Iter, iter_next, seek}
use nosql_gql_dbms.File.{File}
use nosql_gql_dbms.Base.{step, stop, pure, M}
use nosql_gql_dbms.Json.{Json}
use nosql_gql_dbms.Json.Compare.{Floats}
use nosql_gql_dbms.Base.{
  [], ◌∷◌, ◌++◌, ◌≡◌, ◌∙◌, ◌≤◌, ◌<◌, ◌+◌, ◌-◌, ◌⊎◌, ◌>>=◌, List, some, none, ℕ, zero, suc, refl,
  sym, ap, subst, inl, inr, Bool, arith, ok,
}

-- The documents of the sections from `i` on, `left` of them.
abbrev pub gather : (ℕ → List (Json × Entity)) → ℕ → ℕ → List (Json × Entity)
gather cols zero i = []
gather cols (suc left) i = cols i ++ gather cols left (i + 1)

-- The loop of the callers: `while (iter_is_avail(iter)) { ...; iter_next(iter); }`, on fuel.
abbrev pub drain : Floats → ℕ → Iter → M File (List (Json × Entity))
drain fl zero it = stop
drain fl (suc fuel) it = elim (iter_get it) [
  | none ↦ pure []
  | some d ↦ do it' ← iter_next fl it; rest ← drain fl fuel it'; pure (d ∷ rest)
]

-- `file_find` of each section gives a column, and leaves the file as it is.
abbrev pub Finds : Floats → Query → File → (ℕ → List (Json × Entity)) → Type 0
Finds fl q f cols =
    (i : ℕ) → i < length f.f_extent → (b : Bool) × (find fl q i f ≡ (ok (b, cols i), f))

cons_ne : {x : Json × Entity} {xs : List (Json × Entity)} → (x ∷ xs) ≢ []
cons_ne e = cc

List-cases :
    (c : List (Json × Entity))
    → (c ≡ []) ⊎ ((d : Json × Entity) × (r : List (Json × Entity)) × (c ≡ d ∷ r))
List-cases [] = inl refl
List-cases (d ∷ r) = inr (d, r, refl)

abbrev first_of : List (Json × Entity) → Option (Json × Entity)
first_of [] = none
first_of (d ∷ r) = some d

iter_get-same : (it : Iter) (c : List (Json × Entity)) → it.cur_col ≡ c → iter_get it ≡ first_of c
unfolding iter_get
iter_get-same it [] e = ap (λ (r : List (Json × Entity)). elim r [ [] ↦ none | d ∷ _ ↦ some d ]) e
iter_get-same it (x ∷ c) e =
    ap (λ (r : List (Json × Entity)). elim r [ [] ↦ none | d ∷ _ ↦ some d ]) e

module _ (fl : Floats) (q : Query) (f : File) (cols : ℕ → List (Json × Entity))
    (finds : Finds fl q f cols) where
  abbrev n : ℕ
  n = length f.f_extent

  -- The iterator has these documents before it.
  record Before (it : Iter) (ds : List (Json × Entity)) : Type 0 where
    query : it.query ≡ q
    rest : it.cur_col ++ gather cols (n - (it.cur_sect + 1)) (it.cur_sect + 1) ≡ ds
    ends : it.cur_col ≡ [] → ds ≡ []
    inside : (it.cur_col ≡ []) ⊎ (it.cur_sect < n)

  seek-Before :
      (last : ℕ → ℕ) (left i : ℕ)
      → n ≤ last n + 1
      → i + left ≡ n
      → (it : Iter) × (seek fl q last left i f ≡ (ok it, f)) × Before it (gather cols left i)
  unfolding seek
  seek-Before last zero i p e = (
    record { query = q; cur_col = []; cur_sect = last i },
    refl,
    record {
      query = refl;
      rest = none_left (n - (last i + 1)) (last i + 1) (omega (arith, p, e, ap last (here e)));
      ends = λ _. refl;
      inside = inl refl;
    },
  )
    where
      here : i + 0 ≡ n → i ≡ n
      here x = omega (arith, x)

      none_left : (k j : ℕ) → k ≡ 0 → gather cols k j ≡ []
      none_left zero j x = refl
      none_left (suc k) j x = absurd (omega (arith, x))
  seek-Before last (suc left) i p e =
      let (b, found) = finds i (omega (arith, e)) in
      elim (List-cases (cols i)) [
        | inl none_here ↦
            let (it, run, before) = seek-Before last left (i + 1) p (omega (arith, e)) in
            (
              it,
              step _ found ∙ rw none_here run,
              subst (λ (ds : List (Json × Entity)). Before it ds)
                  (ap (λ c. c ++ gather cols left (i + 1)) (sym none_here)) before,
            )
        | inr (d, c, some_here) ↦ (
          record { query = q; cur_col = d ∷ c; cur_sect = i },
          step _ found ∙ rw some_here refl,
          record {
            query = refl;
            rest =
                ap (λ (k : ℕ). (d ∷ c) ++ gather cols k (i + 1)) (omega (arith, e))
                ∙ ap (λ r. r ++ gather cols left (i + 1)) (sym some_here);
            ends = λ x. absurd (cons_ne x);
            inside = inr (omega (arith, e));
          },
        )
      ]

  -- The iterator behind the document at which it stands.
  record Passed (it : Iter) (d : Json × Entity) (ds : List (Json × Entity)) : Type 0 where
    after : Iter
    returns : iter_next fl it f ≡ (ok after, f)
    others : List (Json × Entity)
    before : Before after others
    same : ds ≡ d ∷ others

  iter_next-Passed :
      (it : Iter) (d : Json × Entity) (c ds : List (Json × Entity))
      → it.cur_col ≡ d ∷ c
      → Before it ds
      → Passed it d ds
  unfolding iter_next pop_col next_section
  iter_next-Passed it d [] ds e b =
      let last_there : it.cur_sect < n = elim b.inside [
        | inl x ↦ absurd (cons_ne (sym e ∙ x))
        | inr y ↦ y
      ] in
      let (it', run, before) =
        seek-Before (λ i. i - 1) (n - (it.cur_sect + 1)) (it.cur_sect + 1) (omega arith)
          (omega (arith, last_there)) in
      record {
        after = it';
        returns = rw (e, b.query) run;
        others = gather cols (n - (it.cur_sect + 1)) (it.cur_sect + 1);
        before = before;
        same = sym b.rest ∙ ap (λ c. c ++ gather cols (n - (it.cur_sect + 1)) (it.cur_sect + 1)) e;
      }
  iter_next-Passed it d (x ∷ xs) ds e b = record {
    after = record it { cur_col = x ∷ xs };
    returns = rw e refl;
    others = (x ∷ xs) ++ gather cols (n - (it.cur_sect + 1)) (it.cur_sect + 1);
    before = record {
      query = b.query;
      rest = refl;
      ends = λ y. absurd (cons_ne y);
      inside = elim b.inside [ inl y ↦ absurd (cons_ne (sym e ∙ y)) | inr y ↦ inr y ];
    };
    same = sym b.rest ∙ ap (λ c. c ++ gather cols (n - (it.cur_sect + 1)) (it.cur_sect + 1)) e;
  }

  drain-Before :
      (fuel : ℕ) (it : Iter) (ds : List (Json × Entity))
      → Before it ds
      → length ds < fuel
      → drain fl fuel it f ≡ (ok ds, f)
  drain-Before zero it ds b p = absurd (omega (arith, p))
  drain-Before (suc fuel) it ds b p = elim (List-cases it.cur_col) [
    | inl e ↦ rw (iter_get-same it [] e, drain) (λ i. (ok (sym (b.ends e) i), f))
    | inr (d, c, e) ↦
        let x : Passed it d ds = iter_next-Passed it d c ds e b in
        rw (iter_get-same it (d ∷ c) e, drain)
          (step _ x.returns
            ∙ step _
                (drain-Before fuel x.after x.others x.before (omega (arith, p, ap length x.same)))
            ∙ λ i. (ok (sym x.same i), f))
  ]

  -- Where `file_find` gives a column of documents for each section and leaves the file as it is, an
  -- iterator ends after as many rounds as there are documents, and goes through the columns of all
  -- sections in their order.
  pub iter_ctor-drain :
      (fuel : ℕ)
      → length (gather cols (length f.f_extent) 0) < fuel
      → (iter_ctor fl q >>= drain fl fuel) f ≡ (ok (gather cols (length f.f_extent) 0), f)
  unfolding iter_ctor
  iter_ctor-drain fuel p =
      let (it, run, before) = seek-Before (λ i. i) n 0 (omega arith) (omega arith) in
      step _ run ∙ drain-Before fuel it (gather cols n 0) before p
