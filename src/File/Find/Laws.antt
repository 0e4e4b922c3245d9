-- ===== src/File/Find/Laws.antt =====
-- `file_find` of dbms/src/file/file.c on a section whose documents can be read.
use mathlib.Core.List.{append-nil, append_assoc}
use nosql_gql_dbms.Section.Extents
use nosql_gql_dbms.File.Find.{find, find_one, find_all}
use nosql_gql_dbms.Base.{Outcome}
use nosql_gql_dbms.File.{on_ext}
use nosql_gql_dbms.Base.{◌++◌, sym, ap, failed, fault}
use nosql_gql_dbms.File.Docs
use nosql_gql_dbms.File.TypeDefs.{read_type}
use nosql_gql_dbms.Json.TypeDef.{TypeDef}
use nosql_gql_dbms.Query.{Query, query_check}
use nosql_gql_dbms.Json.Compare.{Floats}
use nosql_gql_dbms.Base.{attempt, step}
use nosql_gql_dbms.File.{File}
use nosql_gql_dbms.Json.Entity.{Entity}
use nosql_gql_dbms.Json.{Json}
use nosql_gql_dbms.Base.{
  [], ◌∷◌, ◌≡◌, ◌∙◌, if◌then◌else◌, Option, List, some, ℕ, refl, Bool, true, false, ok,
}

-- What reading the document at an offset and its type gives, and whether it passes; the file stays.
pub record Reads (fl : Floats) (q : Query) (f : File) (foff : ℕ) : Type 0 where
  pub json : Json
  pub ent : Entity
  pub type : Option TypeDef
  pub passes : Bool
  pub read_is : Docs.read foff f ≡ (ok (json, ent), f)
  pub type_is : attempt (read_type ent.type_ptr f) ≡ (ok type, f)
  pub check_is : query_check fl q json type ≡ some passes

abbrev pub AllRead : Floats → Query → File → List ℕ → Type 0
AllRead fl q f [] = Unit
AllRead fl q f (foff ∷ rest) = Reads fl q f foff × AllRead fl q f rest

-- the documents that pass
abbrev pub passing :
    (fl : Floats) (q : Query) (f : File) (foffs : List ℕ)
    → AllRead fl q f foffs
    → List (Json × Entity)
passing fl q f [] a = []
passing fl q f (foff ∷ rest) (r, a) =
    if r.passes then (r.json, r.ent) ∷ passing fl q f rest a else passing fl q f rest a

find_one-Reads :
    (fl : Floats) (q : Query) (f : File) (foff : ℕ) (r : Reads fl q f foff) (b : Bool)
    → r.passes ≡ b
    → find_one fl q foff f ≡ (ok (if b then (r.json, r.ent) ∷ [] else []), f)
unfolding find_one
find_one-Reads fl q f foff r true e =
    step _ r.read_is ∙ step _ r.type_is ∙ rw (r.check_is ∙ λ i. some (e i)) refl
find_one-Reads fl q f foff r false e =
    step _ r.read_is ∙ step _ r.type_is ∙ rw (r.check_is ∙ λ i. some (e i)) refl

-- The loop of `file_find`, with the documents found before.
find_all-passing :
    (fl : Floats) (q : Query) (f : File) (foffs : List ℕ) (col : List (Json × Entity))
    (a : AllRead fl q f foffs)
    → find_all fl q foffs col f ≡ (ok (true, col ++ passing fl q f foffs a), f)
unfolding find_all
find_all-passing fl q f [] col a = λ i. (ok (true, sym (append-nil col) i), f)
find_all-passing fl q f (foff ∷ rest) col (r, a) =
    ap (found col) (find_one-Reads fl q f foff r r.passes refl)
    ∙ find_all-passing fl q f rest (col ++ (if r.passes then (r.json, r.ent) ∷ [] else [])) a
    ∙ λ i. (ok (true, together r.passes i), f)
  where
    found :
        List (Json × Entity)
        → Outcome (List (Json × Entity)) × File
        → Outcome (Bool × List (Json × Entity)) × File
    found c x = elim x.0 [
      | ok got ↦ find_all fl q rest (c ++ got) x.1
      | failed ↦ (ok (false, c), x.1)
      | fault ↦ (fault, x.1)
    ]

    together :
        (b : Bool)
        → (col ++ (if b then (r.json, r.ent) ∷ [] else [])) ++ passing fl q f rest a
          ≡ col ++ (if b then (r.json, r.ent) ∷ passing fl q f rest a else passing fl q f rest a)
    together true = append_assoc col ((r.json, r.ent) ∷ []) (passing fl q f rest a)
    together false = append_assoc col [] (passing fl q f rest a)

-- `file_find` of a section whose entities are loaded and whose documents can all be read with their types
-- and checked gives exactly the documents that pass the query, in the order of the section, and leaves the
-- file as it is.
pub find-passing :
    (fl : Floats) (q : Query) (f : File) (i : ℕ) (foffs : List ℕ)
    → on_ext i Extents.load f ≡ (ok foffs, f)
    → (a : AllRead fl q f foffs) → find fl q i f ≡ (ok (true, passing fl q f foffs a), f)
unfolding find
find-passing fl q f i foffs loads a = step _ (ap attempt loads) ∙ find_all-passing fl q f foffs [] a
