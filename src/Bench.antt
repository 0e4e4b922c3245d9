-- ===== src/Bench.antt =====
-- dbms/src/bench/bench.c: the benchmarks, as commands of a user on a new file. The readings of the clock are
-- a parameter, and what is printed is the list of its rows: a count with two readings, the later one first.
-- `fuel` bounds the loops over iterators.
pub mod Docs
pub mod Laws
use nosql_gql_dbms.Base.{
  ℕ, zero, suc, ◌+◌, ◌*◌, List, [], ◌∷◌, Option, none, some, Outcome, M, attempt, pure, ◌>>=◌, ◌>>◌,
  if◌then◌else◌, stop,
}
use nosql_gql_dbms.Bench.Docs.{
  glossary_json, one_item_query, sort_item, info_json, flag_item, flag_json, location_json,
  init_type,
}
use nosql_gql_dbms.Base.{codes}
use nosql_gql_dbms.User.{close_file}
use nosql_gql_dbms.Json.{type_int32, type_bool, Json}
use nosql_gql_dbms.Iter.{iter_is_avail, iter_next, Iter}
use nosql_gql_dbms.Json.Memory.{json_dtor}
use nosql_gql_dbms.User.{open_file, Command}
use nosql_gql_dbms.Json.Compare.{Floats}
use nosql_gql_dbms.Text.{string_ctor}
use nosql_gql_dbms.User
use nosql_gql_dbms.User.{insert, read_cmd, update_cmd, delete_cmd}
use nosql_gql_dbms.File.{File}

-- A loop of n rounds from the i-th on, and what its rounds give.
unfoldable pub rounds : {A : Type 0} → ℕ → ℕ → (ℕ → M File A) → M File (List A)
rounds zero i body = pure []
rounds (suc n) i body = do a ← body i; rest ← rounds n (i + 1) body; pure (a ∷ rest)

abbrev pub Row : Type 0
Row = ℕ × (ℕ × ℕ)

-- `user_apply`, whose status is thrown away.
unfoldable pub run : Floats → ℕ → Command → M File (Option (Option Iter))
run fl fuel command f = attempt (User.apply fl fuel command f)

-- `json_dtor`, which must not read a union as a pointer that it does not hold.
unfoldable pub destroy : Json → M File (Unit {0})
destroy j = elim (json_dtor j) [ none ↦ stop | some blocks ↦ pure tt ]

-- `while (iter_is_avail(iter)) iter_next(iter);`
unfoldable pub exhaust : Floats → ℕ → Iter → M File (Unit {0})
exhaust fl zero it = stop
exhaust fl (suc fuel) it =
    if iter_is_avail it then (do it' ← iter_next fl it; exhaust fl fuel it') else pure tt

unfoldable pub bench_write : Floats → ℕ → (now : ℕ → ℕ) → Outcome (List Row) × File
unfolding rounds run info_json init_type
bench_write fl fuel now =
    (do
      _ ← (λ f. attempt (User.add_type (init_type (codes "V")) f))
      rounds 500 0 (λ i. do
        _ ← rounds 200 0 (λ k. run fl fuel (insert (info_json 50000) (string_ctor (codes "V"))))
        pure (i + 1, (now (i + 1), now i))))
      User.open_file

unfoldable pub bench_read : Floats → ℕ → (now : ℕ → ℕ) → Outcome (List Row) × File
unfolding rounds run info_json init_type flag_item one_item_query location_json flag_json exhaust
bench_read fl fuel now =
    (do
      _ ← (λ f. attempt (User.add_type (init_type (codes "K")) f))
      _ ← (λ f. attempt (User.add_type (init_type (codes "T")) f))
      _ ← (λ f. attempt (User.add_type (init_type (codes "V")) f))
      rounds 200 0 (λ i. do
        _ ← rounds 50 0 (λ k. do
          _ ← run fl fuel (insert (info_json 50000) (string_ctor (codes "K")))
          _ ← run fl fuel (insert (location_json 50000) (string_ctor (codes "K")))
          run fl fuel (insert flag_json (string_ctor (codes "K"))))
        applied ←
            run fl fuel
              (read_cmd (one_item_query (some (string_ctor (codes "K"))) (flag_item type_int32)))
        elim applied [ some (some it) ↦ exhaust fl fuel it | some none ↦ stop | none ↦ stop ]
        pure (150 * (i + 1), (now (2 * i + 1), now (2 * i)))))
      User.open_file

-- The end of a benchmark: the documents are destroyed and the file is closed.
unfoldable pub close : List Json → M File (Unit {0})
unfolding destroy
close [] = User.close_file
close (j ∷ js) = do destroy j; close js

unfoldable pub bench_delete : Floats → ℕ → (now : ℕ → ℕ) → Outcome (List Row) × File
unfolding rounds run info_json glossary_json init_type flag_item sort_item one_item_query close
bench_delete fl fuel now =
    (do
      _ ← (λ f. attempt (User.add_type (init_type (codes "V")) f))
      rows ← rounds 30 0 (λ i. do
        _ ← rounds (50 * i) 0 (λ k. do
          _ ← run fl fuel (insert (info_json 5) (string_ctor (codes "V")))
          run fl fuel (insert glossary_json (string_ctor (codes "V"))))
        _ ← run fl fuel (delete_cmd (one_item_query none (flag_item type_int32)))
        _ ← run fl fuel (delete_cmd (one_item_query none sort_item))
        pure (50 * i, (now (2 * i + 1), now (2 * i))))
      close (info_json 5 ∷ glossary_json ∷ [])
      pure rows)
      User.open_file

-- the commands that returned OK
abbrev pub succeeded : List (Option (Option Iter)) → ℕ
succeeded [] = 0
succeeded (none ∷ rest) = succeeded rest
succeeded (some it ∷ rest) = succeeded rest + 1

unfoldable pub bench_update : Floats → ℕ → (now : ℕ → ℕ) → Outcome (List Row) × File
unfolding rounds run info_json glossary_json init_type flag_item sort_item one_item_query close
bench_update fl fuel now =
    (do
      _ ← (λ f. attempt (User.add_type (init_type (codes "V")) f))
      rows ← rounds 50 1 (λ i. do
        inserts ← rounds (200 * i) 0 (λ k. do
          inserted ← run fl fuel (insert (info_json 5) (string_ctor (codes "V")))
          _ ← run fl fuel (insert glossary_json (string_ctor (codes "V")))
          pure inserted)
        _ ← run fl fuel (update_cmd (one_item_query none (flag_item type_int32)) glossary_json)
        _ ← run fl fuel (delete_cmd (one_item_query none sort_item))
        pure (succeeded inserts, (now (2 * i + 1), now (2 * i))))
      close (info_json 5 ∷ glossary_json ∷ [])
      pure rows)
      User.open_file

-- A round of `bench_read_inner`: it inserts where it means to read, so that the iterator that it goes
-- through then is what memory held.
unfoldable pub read_inner_round : Floats → ℕ → (now : ℕ → ℕ) → ℕ → M File Row
unfolding rounds run info_json flag_item one_item_query exhaust
read_inner_round fl fuel now i = do
  inserts ←
      rounds (200 * i) 0 (λ k. run fl fuel (insert (info_json 50000) (string_ctor (codes "V"))))
  applied ← run fl fuel (insert (info_json 50000) (string_ctor (codes "V")))
  elim applied [ some (some it) ↦ exhaust fl fuel it | some none ↦ stop | none ↦ stop ]
  _ ← run fl fuel (delete_cmd (one_item_query none (flag_item type_bool)))
  pure (succeeded inserts, (now (2 * i + 1), now (2 * i)))

unfoldable pub bench_read_inner : Floats → ℕ → (now : ℕ → ℕ) → Outcome (List Row) × File
unfolding read_inner_round init_type info_json close
bench_read_inner fl fuel now =
    (do
      _ ← (λ f. attempt (User.add_type (init_type (codes "V")) f))
      rows ← rounds 50 1 (read_inner_round fl fuel now)
      close (info_json 50000 ∷ [])
      pure rows)
      User.open_file
