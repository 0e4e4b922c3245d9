-- ===== src/Iter.antt =====
-- `Iter` of dbms/src/json/iter.c: the documents of a file that pass a query, section by section.
pub mod Laws
pub mod Memory
mod Tests
use nosql_gql_dbms.Base.{
  ℕ, zero, suc, ◌+◌, ◌-◌, Bool, true, false, List, [], ◌∷◌, Option, none, some, length, M, pure,
  ◌>>=◌,
}
use nosql_gql_dbms.Json.{Json}
use nosql_gql_dbms.Json.Compare.{Floats}
use nosql_gql_dbms.Json.Entity.{Entity}
use nosql_gql_dbms.Query.{Query}
use nosql_gql_dbms.File.{File}
use nosql_gql_dbms.File.Find.{find}

-- The documents found and not yet passed, and the index of their section; an index behind the last
-- section is NULL. The file is passed to each call.
pub record Iter : Type 0 where
  pub query : Query
  pub cur_col : List (Json × Entity)
  pub cur_sect : ℕ

-- The loops of both functions: from section i on, with `left` sections left, up to one with a
-- document. The status of `file_find` is thrown away. `last` is the section after the loop.
unfoldable pub seek : Floats → Query → (last : ℕ → ℕ) → ℕ → ℕ → M File Iter
seek fl query last zero i = pure (record { query = query; cur_col = []; cur_sect = last i })
seek fl query last (suc left) i = do
  (_, col) ← find fl query i
  elim col [
    | [] ↦ seek fl query last left (i + 1)
    | d ∷ rest ↦ pure (record { query = query; cur_col = d ∷ rest; cur_sect = i })
  ]

-- `iter_ctor`: the section is NULL when there is no document.
unfoldable pub iter_ctor : Floats → Query → M File Iter
unfolding seek
iter_ctor fl query f = seek fl query (λ i. i) (length f.f_extent) 0 f

-- The sections that follow the current one; the loop stops at the last section.
unfoldable pub next_section : Floats → Iter → M File Iter
unfolding seek
next_section fl it f =
    seek fl it.query (λ i. i - 1) (length f.f_extent - (it.cur_sect + 1)) (it.cur_sect + 1) f

unfoldable pub pop_col : {A : Type 0} → List A → List A
pop_col [] = []
pop_col (d ∷ rest) = rest

unfoldable pub iter_next : Floats → Iter → M File Iter
unfolding next_section pop_col
iter_next fl it = elim (pop_col it.cur_col) [
  | [] ↦ next_section fl it
  | d ∷ rest ↦ pure (record it { cur_col = d ∷ rest })
]

unfoldable pub iter_is_avail : Iter → Bool
iter_is_avail it = elim it.cur_col [ [] ↦ false | _ ∷ _ ↦ true ]

-- `iter_get_json` and `iter_get_entity`; `none` where no document is available.
unfoldable pub iter_get : Iter → Option (Json × Entity)
iter_get it = elim it.cur_col [ [] ↦ none | d ∷ _ ↦ some d ]
