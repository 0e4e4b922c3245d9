-- ===== src/Client/Answered/Tests.antt =====
-- A select query of the client on a file with one document.
use nosql_gql_dbms.Base.{fault}
use nosql_gql_dbms.Json.{JsonHead}
use nosql_gql_dbms.Query.Laws.{AllNonzero}
use nosql_gql_dbms.Base.{
  ℕ, suc, ◌<◌, ◌≡◌, refl, sym, ap, ◌∙◌, subst, List, [], ◌∷◌, none, some, arith, length, ok, failed,
  M, attempt, pure, ◌>>=◌, true, get_elem?,
}
use nosql_gql_dbms.Json.Entity.{Entity}
use nosql_gql_dbms.Client.{select_query}
use nosql_gql_dbms.Client.Rpc.{apply, GrpcStatus}
use nosql_gql_dbms.Network.{OperationRequest}
use nosql_gql_dbms.Client.{operation_request, to_request}
use nosql_gql_dbms.Network.Server.{OperationResponse, apply_rpc}
use nosql_gql_dbms.Iter.Laws.{gather}
use nosql_gql_dbms.File.Find.{find}
use nosql_gql_dbms.Section.Extents.Frame.{Stores-Spares}
use nosql_gql_dbms.File.TypeDefs.Add.{Added}
use nosql_gql_dbms.Iter.Laws.{Finds}
use nosql_gql_dbms.File.TypeDefs.Held.{get_sect_types-low}
use nosql_gql_dbms.Section.Header.Laws.{synced, moved}
use nosql_gql_dbms.Section.Record.Laws.{pushed}
use nosql_gql_dbms.File.Find.Laws.{find-passing, passing}
use nosql_gql_dbms.Json.{Json}
use nosql_gql_dbms.Client.{ConditionBodyNode, to_conditional}
use nosql_gql_dbms.File.Tree.{DocAt, DocAt-map}
use nosql_gql_dbms.File.{on_ext, File}
use nosql_gql_dbms.Network.{to_query, add_items, Fields}
use nosql_gql_dbms.Base.{set_same}
use nosql_gql_dbms.File.TypeDefs.Held.{HasTypes, KeepsExts-Grows}
use nosql_gql_dbms.Query.{Query, query_check, query_check_type, check_items}
use nosql_gql_dbms.File.Tree.Read.{ReadBack, DocAt-ReadBack}
use nosql_gql_dbms.File.TypeDefs.Add.{add_type-Added}
use nosql_gql_dbms.Section.Types.RoundTrip.{IsTypeDef}
use nosql_gql_dbms.Section.Header.Laws.{Holds-IsSynced}
use nosql_gql_dbms.Network.Server.{before_nul, named_type}
use nosql_gql_dbms.Json.TypeDef.{TypeDef}
use nosql_gql_dbms.File.Find.Laws.{Reads}
use nosql_gql_dbms.Section.Extents.Frame.{over}
use nosql_gql_dbms.File.WellFormed.{on_ext-ok}
use nosql_gql_dbms.Text.{strncpy, string_ctor}
use nosql_gql_dbms.Json.{node, null}
use nosql_gql_dbms.File.TypeDefs.{add_type}
use nosql_gql_dbms.File.Find.Tests.{
  one_item, one_item_wf, DocAt-name, floats, name, cell, filled, filled-Contents,
}
use nosql_gql_dbms.Section.Extents.{load}
use nosql_gql_dbms.Section.Extents.Cells.{Contents, load-Contents}
use nosql_gql_dbms.Client.Answered.{written, select-answered}
use nosql_gql_dbms.File.Docs.{read_tree, read}
use nosql_gql_dbms.File.TypeDefs.{read_type}

abbrev unset : Fields
unset = record {
  type = 7;
  key = [];
  int32_val = 9;
  float_val = 9;
  string_val = [];
  bool_val = true;
}

-- all documents, for a request that names the type p
abbrev people : ConditionBodyNode
people = record { type_name = b'p' ∷ []; condition = [] }

abbrev type : TypeDef
type = named_type (b'p' ∷ [])

type-IsTypeDef : IsTypeDef type
unfolding named_type before_nul string_ctor strncpy
type-IsTypeDef = (refl, tt)

one_item-HasTypes : HasTypes one_item []
one_item-HasTypes = record {
  count = refl;
  each = λ i h ts e p. cc;
  apart = tt;
  cross = λ i k h e p q. cc;
}

-- The file with the type that the request adds.
added : (foff : ℕ) × (g : File) × (add_type type one_item ≡ (ok foff, g)) × Added type one_item [] g
added =
    add_type-Added type type-IsTypeDef one_item [] one_item_wf one_item-HasTypes
      (unfold named_type before_nul string_ctor strncpy in omega arith) (omega arith)

abbrev g : File
g = added.1

abbrev a : Added type one_item [] g
a = added.3

there : get_elem? g.f_extent 0 ≡ some filled.header
there = ap (λ es. get_elem? es 0) a.keeps.exts ∙ refl

g-Contents : Contents (over filled.header g.filp) (cell ∷ [])
g-Contents = record {
  valid = (a.wf.heads 0 filled.header there).valid;
  in_file = Holds-IsSynced (over filled.header g.filp) (a.wf.heads 0 filled.header there).in_file;
  cells = (
    Stores-Spares filled.header one_item.filp g.filp 32 cell.ent cell.key cell.val
        (a.keeps.spared 0 filled.header refl) filled-Contents.valid filled-Contents.cells.0,
    filled-Contents.cells.1,
    filled-Contents.cells.2,
  );
}

loads : on_ext 0 load g ≡ (ok (40 ∷ []), g)
unfolding synced moved pushed
loads =
    on_ext-ok 0 load g filled.header (ok (40 ∷ [])) (over filled.header g.filp) there
      (load-Contents (over filled.header g.filp) (cell ∷ []) g-Contents)
    ∙ λ i. (ok (40 ∷ []), record g { f_extent = set_same g.f_extent 0 filled.header there i })

DocAt-g : DocAt g (λ o. Unit) 40 0 0 (node name null null null)
DocAt-g =
    DocAt-map one_item g (λ o. Unit) (λ o. Unit)
      (λ k soff o e val j p n.
        (KeepsExts-Grows one_item g one_item_wf a.keeps).kept k soff o e val j n)
      (λ o p. tt) 40 0 0 (node name null null null) DocAt-name

-- the sections of entities, of which there is one
one_section : length g.f_extent ≡ 1
one_section = ap length a.keeps.exts ∙ refl

back : ReadBack g a.wf (suc g.lst_sect_ptr) 40 0 0 (node name null null null)
back =
    DocAt-ReadBack g a.wf (λ o. Unit) g.lst_sect_ptr 40 0 0 name null null null
      (omega (arith, a.wf.room, one_section)) DocAt-g

no_section : read_type 0 g ≡ (failed, g)
unfolding read_type
no_section = rw (get_sect_types-low g a.lists 0 a.has (omega arith), read_type) refl

no_type : attempt (read_type 0 g) ≡ (ok none, g)
no_type = ap attempt no_section

abbrev all : Query
all = to_query (to_conditional [])

reads : Reads floats all g 40
unfolding query_check query_check_type check_items to_query to_conditional add_items read_type read
    read_tree
reads = record {
  json = back.root;
  ent = back.ent;
  type = none;
  passes = true;
  read_is = back.returns;
  type_is = ap (λ k. attempt (read_type k g)) back.type_same ∙ no_type;
  check_is = refl;
}

abbrev col : List (Json × Entity)
col = passing floats all g (40 ∷ []) (reads, tt)

finds : Finds floats all g (λ i. col)
finds i p = (
  true,
  subst (λ (k : ℕ). find floats all k g ≡ (ok (true, col), g)) (omega (arith, p, one_section))
      (find-passing floats all g 0 (40 ∷ []) loads (reads, tt)),
)

few : length (gather (λ i. col) (length g.f_extent) 0) < 9
unfolding reads
few = subst (λ (n : ℕ). length (gather (λ i. col) n 0) < 9) (sym one_section) (omega arith)

abbrev delivered : GrpcStatus
delivered = record { ok = true; error_code = 0; error_message = [] }

abbrev stub : OperationRequest → M File (GrpcStatus × OperationResponse)
stub m = do resp ← apply_rpc floats unset 9 m; pure (delivered, resp)

select-answered_example :
    (gather (λ i. col) (length g.f_extent) 0 ≡ []
      → nosql_gql_dbms.Client.Rpc.insert unset
          (λ v. [])
          (λ r. [])
          stub
          (select_query people)
          one_item
        ≡ (ok (written (λ v. []) (λ r. []) []), g))
    × ((j : JsonHead) (b s n : Json) (e : Entity) (rest : List (Json × Entity))
        → gather (λ i. col) (length g.f_extent) 0 ≡ (node j b s n, e) ∷ rest
        → AllNonzero j.key
        → (h : File) × (nosql_gql_dbms.Client.Rpc.insert unset
              (λ v. [])
              (λ r. [])
              stub
              (select_query people)
              one_item
            ≡ (fault, h)))
select-answered_example =
    select-answered floats unset 9 (λ v. []) (λ r. []) stub delivered refl (λ m f. refl) people
      one_item g (some added.0) (λ i. col) (ap attempt added.2) finds few
