-- ===== src/Network/Execute.antt =====
-- `Driver::execute` of dbms/include/network/driver.hpp on a read.
use nosql_gql_dbms.Network.Server.{Response, printed_key}
use nosql_gql_dbms.Query.{c_string}
use nosql_gql_dbms.Query.Laws.{AllNonzero}
use nosql_gql_dbms.Json.{JsonHead, node}
use nosql_gql_dbms.Base.{ne→==, subst}
use nosql_gql_dbms.Base.{
  ap₂, inl, ◌⊎◌, inr, and_then, [], ◌∷◌, ◌≡◌, ◌∙◌, ◌<◌, ◌>>=◌, List, Option, none, some, ℕ, zero,
  suc, refl, sym, ap, M, ok, failed, fault, Outcome, attempt, step, length, pure, true,
}
use nosql_gql_dbms.Json.{Json}
use nosql_gql_dbms.Json.Compare.{Floats}
use nosql_gql_dbms.Json.Entity.{Entity}
use nosql_gql_dbms.Query.{Query}
use nosql_gql_dbms.File.{File}
use nosql_gql_dbms.File.TypeDefs.{add_type}
use nosql_gql_dbms.User.{read_cmd, apply}
use nosql_gql_dbms.User
use nosql_gql_dbms.Iter.{Iter, iter_get, iter_next, iter_ctor}
use nosql_gql_dbms.Iter.Laws.{drain, Finds, gather, iter_ctor-drain}
use nosql_gql_dbms.Network.{NetJson, of_json, Request, Fields, to_command}
use nosql_gql_dbms.Network.Server.{collect, respond, execute, named_type}
use nosql_gql_dbms.Network.Answer.{push, of_jsons}

-- the documents without their entities
abbrev pub documents : List (Json × Entity) → List Json
documents [] = []
documents ((j, e) ∷ ds) = j ∷ documents ds

-- Each document has a key that can be printed as a C string.
abbrev pub AllPrinted : List (Json × Entity) → Type 0
AllPrinted [] = Unit
AllPrinted ((j, e) ∷ ds) = ((s : List ℕ) × (printed_key j ≡ some s)) × AllPrinted ds

-- A run that ends well ran well up to its second part.
and_then-ok :
    {S A B : Type 0} (r : Outcome A × S) (k : A → M S B) (b : B) (t : S)
    → and_then r k ≡ (ok b, t)
    → (a : A) × (s : S) × (r ≡ (ok a, s)) × (k a s ≡ (ok b, t))
and_then-ok (ok a, s) k b t e = (a, s, refl, e)
and_then-ok (failed, s) k b t e = absurd (no (ap (λ x. x.0) e))
  where
    no : ¬ (failed ≡ ok b)
    no x = cc
and_then-ok (fault, s) k b t e = absurd (no (ap (λ x. x.0) e))
  where
    no : ¬ (fault ≡ ok b)
    no x = cc

Option-cases : {A : Type 0} (o : Option A) → ((a : A) × (o ≡ some a)) ⊎ (o ≡ none)
Option-cases none = inr refl
Option-cases (some a) = inl (a, refl)

some_ne : {A : Type 0} {a : A} → ¬ (none ≡ some a)
some_ne e = cc

some_inj : {A : Type 0} {a b : A} → some a ≡ some b → a ≡ b
some_inj e = cc

ok_inj :
    {A S : Type 0} {a b : A} {s t : S}
    → ◌≡◌ {A = Outcome A × S} (ok a, s) (ok b, t)
    → (a ≡ b) × (s ≡ t)
ok_inj e = (cc, cc)

-- The trees of a document and of those behind it.
of_jsons-cons :
    (junk : Fields) (j : Json) (js : List Json) (ts : List NetJson)
    → of_jsons junk (j ∷ js) ≡ some ts
    → (t : NetJson) × (us : List NetJson) × (of_json junk j ≡ some t)
      × (of_jsons junk js ≡ some us)
      × (ts ≡ t ∷ us)
of_jsons-cons junk j js ts e = elim (Option-cases (of_json junk j)) [
  | inr x ↦ absurd (some_ne (sym (ap (λ o. after o (of_jsons junk js)) x) ∙ e))
  | inl (t, x) ↦ elim (Option-cases (of_jsons junk js)) [
    | inr y ↦ absurd (some_ne (sym (ap₂ after x y) ∙ e))
    | inl (us, y) ↦ (t, us, x, y, some_inj (sym e ∙ ap₂ after x y))
  ]
]
  where
    after : Option NetJson → Option (List NetJson) → Option (List NetJson)
    after o p = elim o [ none ↦ none | some u ↦ push u p ]

-- The loop of `execute` collects what a loop that goes through the iterator meets.
collect-drain :
    (fl : Floats) (junk : Fields) (fuel : ℕ) (it : Iter) (f g : File) (ds : List (Json × Entity))
    (ts : List NetJson)
    → drain fl fuel it f ≡ (ok ds, g)
    → of_jsons junk (documents ds) ≡ some ts
    → AllPrinted ds
    → collect fl junk fuel it f ≡ (ok ts, g)
unfolding collect
collect-drain fl junk zero it f g ds ts d o p = absurd (stopped (ap (λ x. x.0) d))
  where
    stopped : ¬ (fault ≡ ok ds)
    stopped x = cc
collect-drain fl junk (suc fuel) it f g ds ts d o p = elim (Option-cases (iter_get it)) [
  | inr e ↦
      let (none_left, same) = ok_inj (sym (ap (λ x. going x f) e) ∙ d) in
      rw (e, collect)
        (λ i. (ok (some_inj (ap (λ xs. of_jsons junk (documents xs)) none_left ∙ o) i), same i))
  | inl (x, e) ↦
      let (it', f', nexts, rest_runs) =
        and_then-ok (iter_next fl it f) (λ it'. do rest ← drain fl fuel it'; pure (x ∷ rest)) ds g
          (sym (ap (λ y. going y f) e) ∙ d) in
      let (rest, g', rest_is, ends) =
        and_then-ok (drain fl fuel it' f') (λ rest. pure (x ∷ rest)) ds g rest_runs in
      let (ds_is, g_is) = ok_inj {A = List (Json × Entity)} {a = x ∷ rest} {b = ds} ends in
      let (t, us, t_is, us_is, ts_is) =
        of_jsons-cons junk x.0 (documents rest) ts
          (ap (λ xs. of_jsons junk (documents xs)) ds_is ∙ o) in
      let (printed, ps) = subst AllPrinted (sym ds_is) p in
      rw (e, collect, printed.1, t_is)
        (step _ nexts
          ∙ step _ (collect-drain fl junk fuel it' f' g' rest us rest_is us_is ps)
          ∙ λ i. (ok (sym ts_is i), g_is i))
]
  where
    going : Option (Json × Entity) → M File (List (Json × Entity))
    going o = elim o [
      | none ↦ pure []
      | some d ↦ do it' ← iter_next fl it; rest ← drain fl fuel it'; pure (d ∷ rest)
    ]

c_string-AllNonzero : (s : List ℕ) → AllNonzero s → c_string s ≡ none
unfolding c_string
c_string-AllNonzero [] n = refl
c_string-AllNonzero (b ∷ bs) (n, ns) = rw (ne→== b 0 n, c_string-AllNonzero bs ns) refl

-- The loop of `execute` stops at a first document whose key has no NUL.
collect-key :
    (fl : Floats) (junk : Fields) (fuel : ℕ) (it : Iter) (f g : File) (j : JsonHead) (b s n : Json)
    (e : Entity) (rest : List (Json × Entity))
    → drain fl fuel it f ≡ (ok ((node j b s n, e) ∷ rest), g)
    → AllNonzero j.key
    → collect fl junk fuel it f ≡ (fault, f)
unfolding collect printed_key
collect-key fl junk zero it f g j b s n e rest d k = refl
collect-key fl junk (suc fuel) it f g j b s n e rest d k = elim (Option-cases (iter_get it)) [
  | inr x ↦ absurd (nil_ne (ok_inj (sym (ap (λ y. going y f) x) ∙ d)).0)
  | inl (x, at) ↦
      let (it', f', nexts, rest_runs) =
        and_then-ok (iter_next fl it f) (λ it'. do rest ← drain fl fuel it'; pure (x ∷ rest))
          ((node j b s n, e) ∷ rest) g (sym (ap (λ y. going y f) at) ∙ d) in
      let (others, g', rest_is, ends) =
        and_then-ok (drain fl fuel it' f') (λ rest. pure (x ∷ rest)) ((node j b s n, e) ∷ rest) g
          rest_runs in
      let same : x ≡ (node j b s n, e) =
        head_inj (ok_inj {A = List (Json × Entity)} {a = x ∷ others} ends).0 in
      rw (at ∙ ap some same, collect, c_string-AllNonzero j.key k) refl
]
  where
    going : Option (Json × Entity) → M File (List (Json × Entity))
    going o = elim o [
      | none ↦ pure []
      | some d ↦ do it' ← iter_next fl it; rest ← drain fl fuel it'; pure (d ∷ rest)
    ]

    nil_ne : {x : Json × Entity} {xs : List (Json × Entity)} → ¬ ([] ≡ x ∷ xs)
    nil_ne q = cc

    head_inj : {x y : Json × Entity} {xs ys : List (Json × Entity)} → x ∷ xs ≡ y ∷ ys → x ≡ y
    head_inj q = cc

-- A READ is answered: where the key of each document holds a NUL, and the type of the request is added without a fault and `file_find` then gives
-- the documents of each section, `execute` ends on fuel above their number, with the status OK and the
-- documents of all sections in their order, and leaves the file as the type left it.
pub execute-read :
    (fl : Floats) (junk : Fields) (fuel : ℕ) (r : Request) (f g : File) (q : Query)
    (cols : ℕ → List (Json × Entity)) (added : Option ℕ) (ts : List NetJson)
    → attempt (add_type (named_type r.type_name) f) ≡ (ok added, g)
    → to_command r ≡ read_cmd q
    → Finds fl q g cols
    → of_jsons junk (documents (gather cols (length g.f_extent) 0)) ≡ some ts
    → AllPrinted (gather cols (length g.f_extent) 0)
    → length (gather cols (length g.f_extent) 0) < fuel
    → execute fl junk fuel r f ≡ (ok (record { status = true; collection = ts }), g)
unfolding execute respond apply User.read
execute-read fl junk fuel r f g q cols added ts adds reads finds docs printed enough =
    let all : List (Json × Entity) = gather cols (length g.f_extent) 0 in
    let (it, h, makes, drains) =
      and_then-ok (iter_ctor fl q g) (drain fl fuel) all g
        (iter_ctor-drain fl q g cols finds fuel enough) in
    step _ adds
    ∙ step _ (ap (λ c. attempt (apply fl fuel c g)) reads ∙ ap attempt (step _ makes))
    ∙ step _ (collect-drain fl junk fuel it h g all ts drains docs printed)

-- A READ whose first document has a key without NUL is no defined run.
pub execute-key :
    (fl : Floats) (junk : Fields) (fuel : ℕ) (r : Request) (f g : File) (q : Query)
    (cols : ℕ → List (Json × Entity)) (added : Option ℕ) (j : JsonHead) (b s n : Json) (e : Entity)
    (rest : List (Json × Entity))
    → attempt (add_type (named_type r.type_name) f) ≡ (ok added, g)
    → to_command r ≡ read_cmd q
    → Finds fl q g cols
    → gather cols (length g.f_extent) 0 ≡ (node j b s n, e) ∷ rest
    → AllNonzero j.key
    → length (gather cols (length g.f_extent) 0) < fuel
    → (h : File) × (execute fl junk fuel r f ≡ (fault, h))
unfolding execute respond apply User.read
execute-key fl junk fuel r f g q cols added j b s n e rest adds reads finds first key enough =
    let (it, h, makes, drains) =
      and_then-ok (iter_ctor fl q g) (drain fl fuel) (gather cols (length g.f_extent) 0) g
        (iter_ctor-drain fl q g cols finds fuel enough) in
    (
      h,
      step _ adds
          ∙ step _ (ap (λ c. attempt (apply fl fuel c g)) reads ∙ ap attempt (step _ makes))
          ∙ ap (λ x. and_then x answered)
              (collect-key fl junk fuel it h g j b s n e rest (drains ∙ λ i. (ok (first i), g))
                key),
    )
  where
    answered : List NetJson → M File Response
    answered col = pure (record { status = true; collection = col })
