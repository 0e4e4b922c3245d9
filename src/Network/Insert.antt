-- ===== src/Network/Insert.antt =====
-- `Driver::execute` of dbms/include/network/driver.hpp on an insert, in a file whose types have no attributes,
-- as those that the server adds.
use nosql_gql_dbms.Section.Header.{head_size, section_size, get_fileoff}
use nosql_gql_dbms.Json.{type_object}
use nosql_gql_dbms.Section.Types.Cells.{with_offsets}
use nosql_gql_dbms.Section.Types.RoundTrip.{item_size, size_of}
use nosql_gql_dbms.Json.TypeDef.{TypeDef}
use nosql_gql_dbms.Json.Compare.{json_is_apply_type, apply_loop, Floats}
use nosql_gql_dbms.Network.Server.{execute, respond, named_type, before_nul}
use nosql_gql_dbms.Network.{Request, Fields, to_command}
use nosql_gql_dbms.File.{File, head_at}
use nosql_gql_dbms.File.WellFormed.{IsWellFormed, Grows, Grows-trans}
use nosql_gql_dbms.File.Tree.{Fits, nodes}
use nosql_gql_dbms.File.Tree.RoundTrip.{IsReadBack}
use nosql_gql_dbms.User.Laws.{insert-IsReadBack}
use nosql_gql_dbms.File.TypeDefs.Add.{add_type-Added}
use nosql_gql_dbms.Text.Laws.{strncpy-IsText, string_cmp-eq_iff}
use nosql_gql_dbms.File.TypeDefs.Held.{HasTypes}
use nosql_gql_dbms.Base.{
  ℕ, suc, ◌+◌, ◌-◌, ◌*◌, ◌≤◌, ◌<◌, ◌≡◌, ◌≢◌, refl, ap, ◌∙◌, ◌⊎◌, inl, inr, List, [], ◌∷◌, ◌++◌,
  arith, ok, step, attempt, true, ◌==◌, Bool-cases,
}
use nosql_gql_dbms.Stdio.{max_pos}
use nosql_gql_dbms.File.TypeDefs.Add
use nosql_gql_dbms.Section.Types.Cells
use nosql_gql_dbms.Section.Types.Cells.{Finds, Lacks, here}
use nosql_gql_dbms.File.TypeDefs.Add.{Adds, into, in_new}
use nosql_gql_dbms.File.TypeDefs.Find.{FindsIn, found_in, behind}
use nosql_gql_dbms.Text.{Sign, equal, less, greater, string_cmp, string_ctor}
use nosql_gql_dbms.Json.{Json, JsonHead, node}
use nosql_gql_dbms.User.{insert, apply}
use nosql_gql_dbms.File.TypeDefs.Held.{KeepsExts-Grows}

-- The types have no attributes.
abbrev pub Bare : List TypeDef → Type 0
Bare [] = Unit
Bare (t ∷ ts) = (t.attr_list ≡ []) × Bare ts

abbrev pub AllBare : List (List TypeDef) → Type 0
AllBare [] = Unit
AllBare (ts ∷ tss) = Bare ts × AllBare tss

pub Sign-cases : (c : Sign) → (c ≡ equal) ⊎ (c ≢ equal)
Sign-cases equal = inl refl
Sign-cases less = inr (λ e. cc)
Sign-cases greater = inr (λ e. cc)

module _ (name : List ℕ) where
  -- A list has a first type of the name, or lacks one.
  Finds-Bare :
      (ts : List TypeDef) (i : ℕ)
      → Bare ts
      → ((soff : ℕ) × (u : TypeDef) × Finds name (with_offsets i ts) soff u × (u.attr_list ≡ []))
        ⊎ Lacks name ts
  Finds-Bare [] i b = inr tt
  Finds-Bare (t ∷ ts) i (e, b) = elim (Sign-cases (string_cmp t.name name)) [
    | inl y ↦ inl (i, t, here y, e)
    | inr n ↦ elim (Finds-Bare ts (i + item_size t) b) [
      | inl (soff, u, x, z) ↦ inl (soff, u, Cells.later n x, z)
      | inr l ↦ inr (n, l)
    ]
  ]

  -- A list with a type of the name behind it has a first one.
  first_named :
      (t : TypeDef)
      → t.attr_list ≡ []
      → string_cmp t.name name ≡ equal
      → (ts : List TypeDef) (i : ℕ) → Bare ts
      → (soff : ℕ) × (u : TypeDef) × Finds name (with_offsets i (ts ++ (t ∷ []))) soff u
        × (u.attr_list ≡ [])
  first_named t e same [] i b = (i, t, here same, e)
  first_named t e same (u ∷ ts) i (d, b) = elim (Sign-cases (string_cmp u.name name)) [
    | inl y ↦ (i, u, here y, d)
    | inr n ↦
        let (soff, v, x, z) = first_named t e same ts (i + item_size u) b in
        (soff, v, Cells.later n x, z)
  ]

  -- The first type of the name of a type that was added has no attributes.
  FindsIn-AllBare :
      {t : TypeDef} {tss uss : List (List TypeDef)}
      → Adds t tss uss
      → AllBare tss
      → t.attr_list ≡ []
      → string_cmp t.name name ≡ equal
      → (i soff : ℕ) × (u : TypeDef) × FindsIn name uss i soff u × (u.attr_list ≡ [])
  FindsIn-AllBare {t} (into {ts}) (b, bs) e same =
      let (soff, u, x, z) = first_named t e same ts head_size b in (0, soff, u, found_in x, z)
  FindsIn-AllBare {t} (Add.later {ts} x) (b, bs) e same = elim (Finds-Bare ts head_size b) [
    | inl (soff, u, y, z) ↦ (0, soff, u, found_in y, z)
    | inr l ↦
        let (i, soff, u, y, z) = FindsIn-AllBare x bs e same in (suc i, soff, u, behind l y, z)
  ]
  FindsIn-AllBare {t} in_new b e same = (0, head_size, t, found_in (here same), e)

-- Each document has the attributes of a type without any.
json_is_apply_type-bare :
    (j : JsonHead) (son : Json) (t : TypeDef) → t.attr_list ≡ [] → json_is_apply_type j son t ≡ true
unfolding json_is_apply_type apply_loop
json_is_apply_type-bare j son t e = elim (Bool-cases (j.type == type_object)) [
  | inl y ↦ rw (y, e) refl
  | inr n ↦ rw n refl
]

-- An INSERT is answered: on a well-formed file that may grow by a section of types and one for each node,
-- whose types have no attributes, for a type name without NUL that fits an empty section, and a document whose
-- nodes are as `json_ctor` makes them and fit one, `execute` ends with the status OK and no documents, the
-- file stays well-formed, all documents stay, and `file_read` of some offset gives the document back.
pub execute-insert :
    (fl : Floats) (junk : Fields) (fuel : ℕ) (r : Request) (f : File) (tss : List (List TypeDef))
    (j : JsonHead) (bro son next : Json)
    → to_command r ≡ insert (node j bro son next) (string_ctor r.type_name)
    → before_nul r.type_name ≡ r.type_name
    → IsWellFormed f
    → HasTypes f tss
    → AllBare tss
    → size_of (named_type r.type_name) ≤ section_size - head_size
    → Fits (node j bro son next)
    → f.lst_sect_ptr + section_size + section_size * nodes (node j bro son next) < max_pos
    → (foff place : ℕ) × (g : File) × (execute fl junk fuel r f
        ≡ (ok (record { status = true; collection = [] }), g))
      × IsWellFormed g
      × Grows f g
      × IsReadBack g foff 0 place (node j bro son next)
unfolding execute respond named_type string_ctor
execute-insert fl junk fuel r f tss j bro son next inserts no_nul wf has bare small fit room =
    let name : List ℕ = string_ctor r.type_name in
    let t : TypeDef = named_type r.type_name in
    let (_, g, adds, a) =
      add_type-Added t (strncpy-IsText (before_nul r.type_name), tt) f tss wf has small
        (omega (arith, room)) in
    let same : string_cmp t.name name ≡ equal =
      (string_cmp-eq_iff t.name name (strncpy-IsText (before_nul r.type_name))
          (strncpy-IsText r.type_name)).1
        (ap string_ctor no_nul) in
    let (i, soff, u, x, e) = FindsIn-AllBare name a.adds bare refl same in
    let (foff, h, runs, wf', grows, back) =
      insert-IsReadBack g a.lists a.has j bro son next name a.wf i soff u fl fuel x
        (json_is_apply_type-bare j son u e) fit (omega (arith, a.lsp, room)) in
    (
      foff,
      get_fileoff (head_at g.f_types i) soff,
      h,
      step _ (ap attempt adds)
          ∙ step _ (ap (λ c. attempt (apply fl fuel c g)) inserts ∙ ap attempt runs),
      wf',
      Grows-trans f g h (KeepsExts-Grows f g wf a.keeps) grows,
      back,
    )
