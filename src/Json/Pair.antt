-- ===== src/Json/Pair.antt =====
-- dbms/include/utils/pair.h: PAIR_DEFINE, with the comparisons of dbms/src/json and dbms/src/utils/table.c.
mod Tests
use nosql_gql_dbms.Base.{
  ℕ, ◌^◌, ◌<◌, ◌≡◌, refl, sym, ap, ◌∙◌, ◌↔◌, List, [], ◌∷◌, arith, length, u64_mod, ltb, ◌==◌,
  if◌then◌else◌,
}
use nosql_gql_dbms.Json.Entity.{Entity, entity_bytes, length-entity_bytes, IsEntity}
use nosql_gql_dbms.Base.{le_value, length-le_bytes, le_value-le_bytes}
use nosql_gql_dbms.Json.Entity.{entity_of_bytes-entity_bytes, entity_of_bytes}
use nosql_gql_dbms.Text.{Sign, less, equal, greater}
use nosql_gql_dbms.Base.{le_bytes}
use nosql_gql_dbms.Json.{JsonHead}

-- `memcmp` of two blocks of one length: the first byte that differs decides.
unfoldable pub memcmp : List ℕ → List ℕ → Sign
memcmp [] bs = equal
memcmp (a ∷ xs) [] = equal
memcmp (a ∷ xs) (b ∷ bs) = if ltb a b then less else if ltb b a then greater else memcmp xs bs

-- `struct Pair_##F_TYPE##_##S_TYPE`, but for its link.
pub record Pair (F S : Type 0) : Type 0 where
  pub f : F
  pub s : S

unfoldable pub pair_ctor : {F S : Type 0} → F → S → Pair F S
pair_ctor f s = record { f = f; s = s }

unfoldable pub pair_cmp :
    {F S : Type 0} → (F → F → Sign) → (S → S → Sign) → Pair F S → Pair F S → Sign
pair_cmp f_cmp s_cmp this other = elim (f_cmp this.f other.f) [
  | equal ↦ s_cmp this.s other.s
  | less ↦ less
  | greater ↦ greater
]

unfoldable pub json_cmp_wth_foff : JsonHead → JsonHead → Sign
unfolding memcmp
json_cmp_wth_foff j1 j2 = memcmp (le_bytes 8 j1.foff) (le_bytes 8 j2.foff)

unfoldable pub entity_cmp : Entity → Entity → Sign
unfolding memcmp
entity_cmp e1 e2 = memcmp (entity_bytes e1) (entity_bytes e2)

unfoldable pub sectoff_cmp : ℕ → ℕ → Sign
unfolding memcmp
sectoff_cmp s1 s2 = memcmp (le_bytes 8 s1) (le_bytes 8 s2)

-- 1 where the offsets differ
unfoldable pub fileoff_itm_cmp : ℕ → ℕ → Sign
fileoff_itm_cmp s1 s2 = if s1 == s2 then equal else greater

-- `PAIR_DEFINE(Json, Entity, ...)` of dbms/src/json/pair.c
unfoldable pub pair_json_entity_cmp : Pair JsonHead Entity → Pair JsonHead Entity → Sign
unfolding pair_cmp
pair_json_entity_cmp this other = pair_cmp json_cmp_wth_foff entity_cmp this other

memcmp-equal : (xs bs : List ℕ) → length xs ≡ length bs → memcmp xs bs ≡ equal → xs ≡ bs
unfolding memcmp
memcmp-equal [] [] l e = refl
memcmp-equal [] (b ∷ bs) l e = absurd (omega (arith, l))
memcmp-equal (a ∷ xs) [] l e = absurd (omega (arith, l))
memcmp-equal (a ∷ xs) (b ∷ bs) l e =
    let here : a ≡ b = ground arith in
    let rest : memcmp xs bs ≡ equal = ground arith in
    λ i. here i ∷ memcmp-equal xs bs (omega (arith, l)) rest i

memcmp_refl : (xs : List ℕ) → memcmp xs xs ≡ equal
unfolding memcmp
memcmp_refl [] = refl
memcmp_refl (a ∷ xs) = ground (arith, memcmp_refl xs)

memcmp-words :
    (k m n : ℕ) → m < 256 ^ k → n < 256 ^ k → memcmp (le_bytes k m) (le_bytes k n) ≡ equal → m ≡ n
memcmp-words k m n p q e =
    sym (le_value-le_bytes k m p)
    ∙ ap le_value (
        memcmp-equal (le_bytes k m) (le_bytes k n) (length-le_bytes k m ∙ sym (length-le_bytes k n))
          e)
    ∙ le_value-le_bytes k n q

-- Two pairs of a document and its entity, with words of 64 bits, compare as equal exactly when the documents
-- stand at one offset and the entities are the same.
pub pair_json_entity_cmp-equal_iff :
    (p q : Pair JsonHead Entity)
    → p.f.foff < u64_mod
    → q.f.foff < u64_mod
    → IsEntity p.s
    → IsEntity q.s
    → (pair_json_entity_cmp p q ≡ equal) ↔ ((p.f.foff ≡ q.f.foff) × (p.s ≡ q.s))
unfolding pair_json_entity_cmp pair_cmp json_cmp_wth_foff entity_cmp
pair_json_entity_cmp-equal_iff p q a b c d = (there, back)
  where
    there : pair_json_entity_cmp p q ≡ equal → (p.f.foff ≡ q.f.foff) × (p.s ≡ q.s)
    there e =
        let docs : memcmp (le_bytes 8 p.f.foff) (le_bytes 8 q.f.foff) ≡ equal = ground arith in
        let ents : memcmp (entity_bytes p.s) (entity_bytes q.s) ≡ equal = ground arith in
        (
          memcmp-words 8 p.f.foff q.f.foff (omega (arith, a)) (omega (arith, b)) docs,
          sym (entity_of_bytes-entity_bytes p.s c)
              ∙ ap entity_of_bytes (
                  memcmp-equal (entity_bytes p.s) (entity_bytes q.s)
                    (length-entity_bytes p.s ∙ sym (length-entity_bytes q.s)) ents)
              ∙ entity_of_bytes-entity_bytes q.s d,
        )

    back : (p.f.foff ≡ q.f.foff) × (p.s ≡ q.s) → pair_json_entity_cmp p q ≡ equal
    back (e, f) =
        let docs : memcmp (le_bytes 8 p.f.foff) (le_bytes 8 q.f.foff) ≡ equal =
          ap (λ x. memcmp (le_bytes 8 x) (le_bytes 8 q.f.foff)) e
          ∙ memcmp_refl (le_bytes 8 q.f.foff) in
        let ents : memcmp (entity_bytes p.s) (entity_bytes q.s) ≡ equal =
          ap (λ x. memcmp (entity_bytes x) (entity_bytes q.s)) f ∙ memcmp_refl (entity_bytes q.s) in
        ap
          (λ (c : Sign). elim c [
            | equal ↦ memcmp (entity_bytes p.s) (entity_bytes q.s)
            | less ↦ less
            | greater ↦ greater
          ])
          docs
        ∙ ents
