-- ===== src/Bench/Laws.antt =====
-- `bench_read_inner` of dbms/src/bench/bench.c.
use nosql_gql_dbms.Base.{
  ℕ, suc, ◌+◌, ◌≢◌, refl, List, [], ◌∷◌, Option, none, some, ok, failed, fault, Outcome, M,
  and_then, attempt, pure, ◌>>=◌, ◌>>◌,
}
use nosql_gql_dbms.Base.{codes}
use nosql_gql_dbms.Text.{string_ctor}
use nosql_gql_dbms.Json.{Json}
use nosql_gql_dbms.Json.Compare.{Floats}
use nosql_gql_dbms.Bench.{read_inner_round, bench_read_inner, rounds, close, run, Row}
use nosql_gql_dbms.Bench.Docs.{info_json, init_type}
use nosql_gql_dbms.Iter.{Iter}
use nosql_gql_dbms.File.{File}
use nosql_gql_dbms.User
use nosql_gql_dbms.User.{insert}

module _ {B : Type 0} (b : B) where
  -- A run does not end well where no second part does.
  never_ok :
      {A S : Type 0} (r : Outcome A × S) (k : A → M S B)
      → ((a : A) (s : S) → (k a s).0 ≢ ok b)
      → (and_then r k).0 ≢ ok b
  never_ok (ok a, s) k h = h a s
  never_ok (failed, s) k h = λ e. cc
  never_ok (fault, s) k h = λ e. cc

  -- nor where no first part does.
  never_first :
      {A S : Type 0} (r : Outcome A × S) (k : A → M S B)
      → ((a : A) → r.0 ≢ ok a)
      → (and_then r k).0 ≢ ok b
  never_first (ok a, s) k h = absurd (h a refl)
  never_first (failed, s) k h = λ e. cc
  never_first (fault, s) k h = λ e. cc

  -- An insert leaves no iterator.
  after_insert :
      (fl : Floats) (fuel : ℕ) (j : Json) (name : List ℕ) (k : Option (Option Iter) → M File B)
      (f : File)
      → ((s : File) → (k (some none) s).0 ≢ ok b)
      → ((s : File) → (k none s).0 ≢ ok b)
      → (and_then (run fl fuel (insert j name) f) k).0 ≢ ok b
  unfolding run User.apply
  after_insert fl fuel j name k f h h' = go (User.write j name f)
    where
      none_left : ℕ → M File (Option Iter)
      none_left _ = pure none

      go : (r : Outcome ℕ × File) → (and_then (attempt (and_then r none_left)) k).0 ≢ ok b
      go (ok a, s) = h s
      go (failed, s) = h' s
      go (fault, s) = λ e. cc

-- A round ends in an iterator that was never set.
read_inner_round-stops :
    (fl : Floats) (fuel : ℕ) (now : ℕ → ℕ) (i : ℕ) (f : File) (row : Row)
    → (read_inner_round fl fuel now i f).0 ≢ ok row
unfolding read_inner_round
read_inner_round-stops fl fuel now i f row = never_ok row _ _ (λ inserts g.
    after_insert row fl fuel (info_json 50000) (string_ctor (codes "V")) _ g (λ s e. cc)
      (λ s e. cc))

-- A loop whose first round does not end well does not end well.
rounds_stop :
    {A : Type 0} (n i : ℕ) (body : ℕ → M File A) (s : File)
    → ((a : A) → (body i s).0 ≢ ok a)
    → (rows : List A) → (rounds (suc n) i body s).0 ≢ ok rows
unfolding rounds
rounds_stop n i body s h rows =
    never_first rows (body i s) (λ a. rounds n (i + 1) body >>= (λ rest. pure (a ∷ rest))) h

-- The benchmark of reads inside a file of many documents gives no rows, whatever its file, clock and bound
-- on the loops are: its first round goes through an iterator that nothing has set.
pub bench_read_inner-stops :
    (fl : Floats) (fuel : ℕ) (now : ℕ → ℕ) (rows : List Row)
    → (bench_read_inner fl fuel now).0 ≢ ok rows
unfolding bench_read_inner rounds
bench_read_inner-stops fl fuel now rows =
    never_ok rows (attempt (User.add_type (init_type (codes "V")) User.open_file)) _ (λ _ s.
      never_first rows (rounds 50 1 (read_inner_round fl fuel now) s)
        (λ rows. close (info_json 50000 ∷ []) >> pure rows)
        (rounds_stop 49 1 (read_inner_round fl fuel now) s
          (read_inner_round-stops fl fuel now 1 s)))
