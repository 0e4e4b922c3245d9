-- ===== src/Collection/Chain.antt =====
-- The elements of a list, one after the other.
use nosql_gql_dbms.Base.{not}
use nosql_gql_dbms.Base.{eq→==, ne→==}
use nosql_gql_dbms.Collection.{update, nil}
use nosql_gql_dbms.Base.{[], ◌∷◌, ◌++◌, ◌≡◌, ◌≢◌, ◌∙◌, List, ℕ, refl, sym, subst, Bool, true}

-- From `p` on the elements `xs` follow each other, up to `q`.
abbrev pub Seg : (ℕ → ℕ) → ℕ → List ℕ → ℕ → Type 0
Seg next p [] q = p ≡ q
Seg next p (x ∷ xs) q = (p ≡ x) × (x ≢ nil) × Seg next (next x) xs q

abbrev pub NotIn : ℕ → List ℕ → Type 0
NotIn a [] = Unit
NotIn a (x ∷ xs) = (a ≢ x) × NotIn a xs

abbrev pub Distinct : List ℕ → Type 0
Distinct [] = Unit
Distinct (x ∷ xs) = NotIn x xs × Distinct xs

abbrev pub AllLive : (ℕ → Bool) → List ℕ → Type 0
AllLive live [] = Unit
AllLive live (x ∷ xs) = (live x ≡ true) × AllLive live xs

abbrev pub AllFreed : (frees : ℕ → Bool) → (ℕ → Bool) → List ℕ → Type 0
AllFreed frees live [] = Unit
AllFreed frees live (x ∷ xs) = (live x ≡ not (frees x)) × AllFreed frees live xs

abbrev pub last : ℕ → List ℕ → ℕ
last d [] = d
last d (x ∷ xs) = last x xs

pub update_self : {A : Type 0} (f : ℕ → A) (a : ℕ) (v : A) → update f a v a ≡ v
update_self f a v = rw (eq→== a a refl)

pub update_other : {A : Type 0} (f : ℕ → A) (a : ℕ) (v : A) (x : ℕ) → a ≢ x → update f a v x ≡ f x
update_other f a v x n = rw (ne→== x a (λ e. n (sym e)))

pub NotIn-last : (a x : ℕ) (xs : List ℕ) → NotIn a (x ∷ xs) → a ≢ last x xs
NotIn-last a x [] n = n.0
NotIn-last a x (y ∷ ys) n = NotIn-last a y ys n.1

NotIn-append : (a : ℕ) (xs ys : List ℕ) → NotIn a xs → NotIn a ys → NotIn a (xs ++ ys)
NotIn-append a [] ys n m = m
NotIn-append a (x ∷ xs) ys n m = (n.0, NotIn-append a xs ys n.1 m)

pub Distinct-append_one :
    (xs : List ℕ) (a : ℕ) → Distinct xs → NotIn a xs → Distinct (xs ++ (a ∷ []))
Distinct-append_one [] a d n = (tt, tt)
Distinct-append_one (x ∷ xs) a d n =
    (NotIn-append x xs (a ∷ []) d.0 (λ e. n.0 (sym e), tt), Distinct-append_one xs a d.1 n.1)

pub AllLive-append_one :
    (live : ℕ → Bool) (xs : List ℕ) (a : ℕ)
    → AllLive live xs
    → live a ≡ true
    → AllLive live (xs ++ (a ∷ []))
AllLive-append_one live [] a l e = (e, tt)
AllLive-append_one live (x ∷ xs) a l e = (l.0, AllLive-append_one live xs a l.1 e)

pub AllLive-update :
    (live : ℕ → Bool) (a : ℕ) (v : Bool) (xs : List ℕ)
    → NotIn a xs
    → AllLive live xs
    → AllLive (update live a v) xs
AllLive-update live a v [] n l = tt
AllLive-update live a v (x ∷ xs) n l =
    (update_other live a v x n.0 ∙ l.0, AllLive-update live a v xs n.1 l.1)

pub last-append_one : (d : ℕ) (xs : List ℕ) (a : ℕ) → last d (xs ++ (a ∷ [])) ≡ a
last-append_one d [] a = refl
last-append_one d (x ∷ xs) a = last-append_one x xs a

pub AllLive-last :
    (live : ℕ → Bool) (x : ℕ) (xs : List ℕ) → AllLive live (x ∷ xs) → live (last x xs) ≡ true
AllLive-last live x [] l = l.0
AllLive-last live x (y ∷ ys) l = AllLive-last live y ys l.1

pub Seg-last_nonzero :
    (next : ℕ → ℕ) (p q x : ℕ) (xs : List ℕ) → Seg next p (x ∷ xs) q → last x xs ≢ nil
Seg-last_nonzero next p q x [] g = g.1
Seg-last_nonzero next p q x (y ∷ ys) g = Seg-last_nonzero next (next x) q y ys g.2

module _ (next : ℕ → ℕ) where
  -- A change of an element that is not among them.
  Seg-update :
      (a v p : ℕ) (xs : List ℕ) (q : ℕ)
      → NotIn a xs
      → Seg next p xs q
      → Seg (update next a v) p xs q
  Seg-update a v p [] q n g = g
  Seg-update a v p (x ∷ xs) q n g = (
    g.0,
    g.1,
    subst (λ (m : ℕ). Seg (update next a v) m xs q) (sym (update_other next a v x n.0))
        (Seg-update a v (next x) xs q n.1 g.2),
  )

  -- A new element behind the last one.
  pub Seg-append :
      (a p x : ℕ) (xs : List ℕ)
      → Seg next p (x ∷ xs) nil
      → Distinct (x ∷ xs)
      → NotIn a (x ∷ xs)
      → a ≢ nil
      → next a ≡ nil
      → Seg (update next (last x xs) a) p (x ∷ (xs ++ (a ∷ []))) nil
  Seg-append a p x [] g d n z e =
      (g.0, g.1, (update_self next x a, z, update_other next x a a (λ q. n.0 (sym q)) ∙ e))
  Seg-append a p x (y ∷ ys) g d n z e = (
    g.0,
    g.1,
    subst (λ (m : ℕ). Seg (update next (last y ys) a) m (y ∷ (ys ++ (a ∷ []))) nil)
        (sym (update_other next (last y ys) a x (λ q. NotIn-last x y ys d.0 (sym q))))
        (Seg-append a (next x) y ys g.2 d.1 n.1 z e),
  )

  -- The element behind `e` is taken out.
  pub Seg-skip :
      (p e y q : ℕ) (before after : List ℕ)
      → Seg next p (before ++ (e ∷ y ∷ after)) q
      → Distinct (before ++ (e ∷ y ∷ after))
      → Seg (update next e (next y)) p (before ++ (e ∷ after)) q
  Seg-skip p e y q [] after g d = (
    g.0,
    g.1,
    subst (λ (m : ℕ). Seg (update next e (next y)) m after q) (sym (update_self next e (next y)))
        (Seg-update e (next y) (next y) after q d.0.1 g.2.2),
  )
  Seg-skip p e y q (x ∷ xs) after g d = (
    g.0,
    g.1,
    subst (λ (m : ℕ). Seg (update next e (next y)) m (xs ++ (e ∷ after)) q)
        (sym (update_other next e (next y) x (λ r. NotIn_at x e xs (y ∷ after) d.0 (sym r))))
        (Seg-skip (next x) e y q xs after g.2 d.1),
  )
    where
      NotIn_at : (a b : ℕ) (xs ys : List ℕ) → NotIn a (xs ++ (b ∷ ys)) → a ≢ b
      NotIn_at a b [] ys n = n.0
      NotIn_at a b (x ∷ xs) ys n = NotIn_at a b xs ys n.1
