-- ===== src/File/Tree/RoundTrip/Tests.antt =====
-- Two trees of documents in one file.
use nosql_gql_dbms.File.Docs.{write}
use nosql_gql_dbms.File.WellFormed.{IsWellFormed}
use nosql_gql_dbms.Json.{
  text, raw, type_string, Json, value_size, type_object, JsonHead, type_int32,
}
use nosql_gql_dbms.File.Tree.RoundTrip.{write-write-read, write-read_tree, IsReadBack}
use nosql_gql_dbms.File.Relink.{cleared, headed, headed-IsWellFormed, cleared-IsWellFormed}
use nosql_gql_dbms.Stdio.{fopen}
use nosql_gql_dbms.File.Tree.{null, node, Written, Fits}
use nosql_gql_dbms.Base.{replicate}
use nosql_gql_dbms.File.{File}
use nosql_gql_dbms.Text.{strncpy}
use nosql_gql_dbms.File.Tree.Write.{write-Written}
use nosql_gql_dbms.Section.Extents.RoundTrip.{as_text, as_number, as_object, IsNode}
use nosql_gql_dbms.Base.{[], ◌∷◌, ◌≡◌, ℕ, refl, arith, ok}

abbrev start : File
start = headed (cleared fopen)

start-IsWellFormed : IsWellFormed start
unfolding fopen
start-IsWellFormed = headed-IsWellFormed (cleared fopen) (cleared-IsWellFormed fopen (omega arith))

abbrev name : JsonHead
name = record { key = b'n' ∷ []; type = type_string; value = text (b'x' ∷ b'y' ∷ []); foff = 0 }

abbrev age : JsonHead
age = record {
  key = b'a' ∷ b'g' ∷ [];
  type = type_int32;
  value = raw (7 ∷ 0 ∷ 0 ∷ 0 ∷ 0 ∷ 0 ∷ 0 ∷ 0 ∷ []);
  foff = 0;
}

abbrev person : JsonHead
person = record {
  key = b'p' ∷ [];
  type = type_object;
  value = raw (replicate value_size 0);
  foff = 0;
}

name-IsNode : IsNode name (b'x' ∷ b'y' ∷ [])
unfolding strncpy
name-IsNode = record { key_text = refl; known = omega arith; value = as_text refl refl refl }

age-IsNode : IsNode age (7 ∷ 0 ∷ 0 ∷ 0 ∷ 0 ∷ 0 ∷ 0 ∷ 0 ∷ [])
unfolding strncpy
age-IsNode = record {
  key_text = refl;
  known = omega arith;
  value = as_number (omega arith) (omega arith) refl refl;
}

person-IsNode : IsNode person []
unfolding strncpy
person-IsNode = record { key_text = refl; known = omega arith; value = as_object refl refl refl }

-- an object with a text and a number, which are brothers
abbrev members : Json
members = node name (node age null null null) null null

people-Fits : Fits (node person null members null)
people-Fits = (
  ([], person-IsNode, omega arith),
  tt,
  (
    (b'x' ∷ b'y' ∷ [], name-IsNode, omega arith),
    ((7 ∷ 0 ∷ 0 ∷ 0 ∷ 0 ∷ 0 ∷ 0 ∷ 0 ∷ [], age-IsNode, omega arith), tt, tt),
    tt,
  ),
)

write-Written_example : Written (node person null members null) 0 16 start
write-Written_example =
    write-Written (node person null members null) 0 16 start start-IsWellFormed people-Fits
      (omega arith) (omega arith) (omega arith)

write-read_tree_example :
    (foff : ℕ) × (g : File) × (write (node person null members null) 0 16 start ≡ (ok foff, g))
    × IsWellFormed g
    × IsReadBack g foff 0 16 (node person null members null)
write-read_tree_example =
    write-read_tree person null members null 0 16 start start-IsWellFormed people-Fits (omega arith)
      (omega arith) (omega arith)

write-write-read_example :
    (foff : ℕ) × (g : File) × (foff' : ℕ) × (h : File) × (write
        (node person null members null)
        0
        16
        start
      ≡ (ok foff, g))
    × (write (node person null members null) 0 16 g ≡ (ok foff', h))
    × IsReadBack h foff 0 16 (node person null members null)
write-write-read_example =
    write-write-read person null members null 0 16 start start-IsWellFormed people-Fits
      (omega arith) (omega arith) (omega arith) (node person null members null) 0 16 people-Fits
      (omega arith) (omega arith) (omega arith)
