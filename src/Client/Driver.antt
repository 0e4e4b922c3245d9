-- ===== src/Client/Driver.antt =====
-- GQLclient/driver.hpp: the values of the tokens. `std::stoi` and `std::stof` are parameters, `none` where
-- they throw; the texts come from the scanner that GQLclient/lexer.l generates.
pub mod Laws
mod Tests
use nosql_gql_dbms.Query.{Cmp, gt, ge, lt, le, eq, contained}
use nosql_gql_dbms.Network.{OperationType, insert, read, update, delete}
use nosql_gql_dbms.Base.{
  [], ◌∷◌, ◌==◌, ◌&&◌, ◌||◌, if◌then◌else◌, Option, List, some, none, ℕ, Bool, true, false,
}

-- the tokens of GQLclient/parser.y that have a value, and all others
pub data Token : Type 0 where
  word string int float bool cmp eq_token in_token insert_token delete_token select_token
        update_token other :
      Token

pub data Semantic : Type 0 where
  of_text : List ℕ → Semantic
  of_int : ℕ → Semantic
  of_float : ℕ → Semantic
  of_bool : Bool → Semantic
  of_cmp : Cmp → Semantic
  of_operation : OperationType → Semantic
  nothing : Semantic

abbrev pub cmp_table : List (List ℕ × Cmp)
cmp_table =
    (b'G' ∷ b'T' ∷ [], gt)
    ∷ (b'g' ∷ b't' ∷ [], gt)
    ∷ (b'G' ∷ b'E' ∷ [], ge)
    ∷ (b'g' ∷ b'e' ∷ [], ge)
    ∷ (b'L' ∷ b'T' ∷ [], lt)
    ∷ (b'l' ∷ b't' ∷ [], lt)
    ∷ (b'L' ∷ b'E' ∷ [], le)
    ∷ (b'l' ∷ b'e' ∷ [], le)
    ∷ (b'E' ∷ b'Q' ∷ [], eq)
    ∷ (b'e' ∷ b'q' ∷ [], eq)
    ∷ (b'I' ∷ b'N' ∷ [], contained)
    ∷ (b'i' ∷ b'n' ∷ [], contained)
    ∷ []

abbrev pub command_table : List (List ℕ × OperationType)
command_table =
    (b'i' ∷ b'n' ∷ b's' ∷ b'e' ∷ b'r' ∷ b't' ∷ [], insert)
    ∷ (b'I' ∷ b'N' ∷ b'S' ∷ b'E' ∷ b'R' ∷ b'T' ∷ [], insert)
    ∷ (b'd' ∷ b'e' ∷ b'l' ∷ b'e' ∷ b't' ∷ b'e' ∷ [], delete)
    ∷ (b'D' ∷ b'E' ∷ b'L' ∷ b'E' ∷ b'T' ∷ b'E' ∷ [], delete)
    ∷ (b'u' ∷ b'p' ∷ b'd' ∷ b'a' ∷ b't' ∷ b'e' ∷ [], update)
    ∷ (b'U' ∷ b'P' ∷ b'D' ∷ b'A' ∷ b'T' ∷ b'E' ∷ [], update)
    ∷ (b's' ∷ b'e' ∷ b'l' ∷ b'e' ∷ b'c' ∷ b't' ∷ [], read)
    ∷ (b'S' ∷ b'E' ∷ b'L' ∷ b'E' ∷ b'C' ∷ b'T' ∷ [], read)
    ∷ []

unfoldable pub same_text : List ℕ → List ℕ → Bool
same_text [] [] = true
same_text [] (b ∷ t) = false
same_text (a ∷ s) [] = false
same_text (a ∷ s) (b ∷ t) = a == b && same_text s t

-- `table.find(text)->second`: undefined where the table does not have the text.
unfoldable pub find : {A : Type 0} → List (List ℕ × A) → List ℕ → Option A
unfolding same_text
find [] t = none
find ((k, v) ∷ rest) t = if same_text k t then some v else find rest t

-- `erase(remove(begin, end, '\"'), end)`
unfoldable pub erase_quotes : List ℕ → List ℕ
erase_quotes [] = []
erase_quotes (b ∷ t) = if b == b'"' then erase_quotes t else b ∷ erase_quotes t

-- The value that `yylex` sets for a token and its text.
unfoldable pub yylex : (stoi stof : List ℕ → Option ℕ) → Token → List ℕ → Option Semantic
unfolding find erase_quotes same_text
yylex stoi stof word t = some (of_text t)
yylex stoi stof string t = some (of_text (erase_quotes t))
yylex stoi stof int t = elim (stoi t) [ none ↦ none | some n ↦ some (of_int n) ]
yylex stoi stof float t = elim (stof t) [ none ↦ none | some n ↦ some (of_float n) ]
yylex stoi stof bool t = some (
    of_bool (
      same_text t (b't' ∷ b'r' ∷ b'u' ∷ b'e' ∷ []) || same_text t (b'T' ∷ b'R' ∷ b'U' ∷ b'E' ∷ [])))
yylex stoi stof cmp t = elim (find cmp_table t) [ none ↦ none | some c ↦ some (of_cmp c) ]
yylex stoi stof eq_token t = elim (find cmp_table t) [ none ↦ none | some c ↦ some (of_cmp c) ]
yylex stoi stof in_token t = elim (find cmp_table t) [ none ↦ none | some c ↦ some (of_cmp c) ]
yylex stoi stof insert_token t = elim (find command_table t) [
  | none ↦ none
  | some c ↦ some (of_operation c)
]
yylex stoi stof delete_token t = elim (find command_table t) [
  | none ↦ none
  | some c ↦ some (of_operation c)
]
yylex stoi stof select_token t = elim (find command_table t) [
  | none ↦ none
  | some c ↦ some (of_operation c)
]
yylex stoi stof update_token t = elim (find command_table t) [
  | none ↦ none
  | some c ↦ some (of_operation c)
]
yylex stoi stof other t = some nothing
