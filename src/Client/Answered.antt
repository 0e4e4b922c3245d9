-- ===== src/Client/Answered.antt =====
-- Queries from the client over the server to the data base, and the answers back.
mod Tests
use nosql_gql_dbms.Base.{◌∷◌, fault, stopped, subst, sym}
use nosql_gql_dbms.Network.Execute.{execute-key, AllPrinted}
use nosql_gql_dbms.Network.Answer.{of_jsons}
use nosql_gql_dbms.Query.Laws.{AllNonzero}
use nosql_gql_dbms.Client.{EntityBodyNode, insert_query, insert_request}
use nosql_gql_dbms.File.WellFormed.{IsWellFormed, Grows}
use nosql_gql_dbms.File.Tree.{Fits, nodes}
use nosql_gql_dbms.File.Tree.RoundTrip.{IsReadBack}
use nosql_gql_dbms.File.TypeDefs.Held.{HasTypes}
use nosql_gql_dbms.Network.Insert.{AllBare, execute-insert}
use nosql_gql_dbms.Network.Server.{before_nul}
use nosql_gql_dbms.Network.{to_json, to_command}
use nosql_gql_dbms.Section.Types.RoundTrip.{size_of}
use nosql_gql_dbms.Section.Header.{head_size, section_size}
use nosql_gql_dbms.Json.{JsonHead, node}
use nosql_gql_dbms.Json.TypeDef.{TypeDef}
use nosql_gql_dbms.Text.{string_ctor}
use nosql_gql_dbms.Stdio.{max_pos}
use nosql_gql_dbms.User
use nosql_gql_dbms.Base.{◌≤◌, ◌-◌, ◌+◌, ◌*◌, []}
use nosql_gql_dbms.Base.{
  ℕ, ◌<◌, ◌≡◌, refl, ap, ◌∙◌, List, ◌++◌, Option, length, ok, M, step, attempt, pure, ◌>>=◌, ◌>>◌,
  true,
}
use nosql_gql_dbms.Json.Entity.{Entity}
use nosql_gql_dbms.Base.{codes}
use nosql_gql_dbms.Json.{Json}
use nosql_gql_dbms.Json.Compare.{Floats}
use nosql_gql_dbms.File.{File}
use nosql_gql_dbms.File.TypeDefs.{add_type}
use nosql_gql_dbms.Iter.Laws.{Finds, gather}
use nosql_gql_dbms.Network.{OperationRequest, NetJson, Fields, to_query, request_of}
use nosql_gql_dbms.Network.Server.{
  OperationResponse, apply_rpc, named_type, response_message, response_of,
}
use nosql_gql_dbms.Network.Execute.{documents, execute-read}
use nosql_gql_dbms.Client.{
  ConditionBodyNode, select_query, select_request, to_request, operation_request, to_conditional,
}
use nosql_gql_dbms.Client.Select.{to_command-select}
use nosql_gql_dbms.Client.Print.{endl}
use nosql_gql_dbms.Client.Rpc.{GrpcStatus, print_all}
use nosql_gql_dbms.Client.Rpc

-- What `Apply` of the client writes for an answer with these documents.
abbrev pub written : (ℕ → List ℕ) → (OperationResponse → List ℕ) → List NetJson → List ℕ
written show_float debug ts =
    debug (response_message (record { status = true; collection = ts }))
    ++ endl
    ++ codes "Status: OK"
    ++ endl
    ++ print_all show_float ts

-- What the answers of the calls become: the documents that the server converted.
module _ (fl : Floats) (junk : Fields) (fuel : ℕ) (show_float : ℕ → List ℕ)
    (debug : OperationResponse → List ℕ)
    (stub : OperationRequest → M File (GrpcStatus × OperationResponse)) (delivered : GrpcStatus)
    (is_ok : delivered.ok ≡ true)
    (calls : (m : OperationRequest) (g : File)
      → stub m g ≡ (do resp ← apply_rpc fl junk fuel m; pure (delivered, resp)) g) where
  -- What a select query gives. The calls of the stub reach the server and its answers come back; the type
  -- that the query names is added without a fault; `file_find` then gives documents for each section, and the
  -- fuel is above their number. Where there are no documents the client ends, and writes the status OK and
  -- no documents. Where the key of the first one has no NUL the call is no defined run: the server prints
  -- the key as a C string, and reads behind its block.
  pub select-answered :
      (c : ConditionBodyNode) (f g : File) (added : Option ℕ) (cols : ℕ → List (Json × Entity))
      → attempt (add_type (named_type c.type_name) f) ≡ (ok added, g)
      → Finds fl (to_query (to_conditional c.condition)) g cols
      → length (gather cols (length g.f_extent) 0) < fuel
      → (gather cols (length g.f_extent) 0 ≡ []
          → Rpc.insert junk show_float debug stub (select_query c) f
            ≡ (ok (written show_float debug []), g))
        × ((j : JsonHead) (b s n : Json) (e : Entity) (rest : List (Json × Entity))
            → gather cols (length g.f_extent) 0 ≡ (node j b s n, e) ∷ rest
            → AllNonzero j.key
            → (h : File) × (Rpc.insert junk show_float debug stub (select_query c) f ≡ (fault, h)))
  unfolding Rpc.insert Rpc.apply apply_rpc response_of to_request select_request operation_request
      request_of
  select-answered c f g added cols adds finds enough = (
    λ none_found.
        step _ (
          calls request f
          ∙ step _ (
              step _ (
                execute-read fl junk fuel (request_of request) f g
                  (to_query (to_conditional c.condition)) cols added [] adds
                  (to_command-select junk c) finds
                  (ap (λ ds. of_jsons junk (documents ds)) none_found)
                  (subst AllPrinted (sym none_found) tt) enough)))
        ∙ rw (is_ok) refl,
    λ j b s n e rest found no_nul.
        let (h, stops) =
          execute-key fl junk fuel (request_of request) f g (to_query (to_conditional c.condition))
            cols added j b s n e rest adds (to_command-select junk c) finds found no_nul enough in
        (h, stopped _ (calls request f ∙ stopped _ (stopped _ stops))),
  )
    where
      request : OperationRequest
      request = operation_request (to_request junk (select_query c))

  -- An insert query is answered. The calls of the stub reach the server and its answers come back; the name
  -- of the type has no NUL and fits an empty section; the document that the server makes of the query has
  -- nodes as `json_ctor` makes them, which fit one; and the file is well-formed, its types have no
  -- attributes, and it may grow by a section of types and one for each node. Then the client ends and writes
  -- the status OK, the file stays well-formed, all documents stay, and `file_read` of some offset gives
  -- the document back.
  pub insert-answered :
      (b : EntityBodyNode) (f : File) (tss : List (List TypeDef)) (j : JsonHead)
      (bro son next : Json)
      → to_json (request_of (operation_request (to_request junk (insert_query b)))).json
        ≡ node j bro son next
      → before_nul b.type_name ≡ b.type_name
      → IsWellFormed f
      → HasTypes f tss
      → AllBare tss
      → size_of (named_type b.type_name) ≤ section_size - head_size
      → Fits (node j bro son next)
      → f.lst_sect_ptr + section_size + section_size * nodes (node j bro son next) < max_pos
      → (foff place : ℕ) × (g : File) × (Rpc.insert junk show_float debug stub (insert_query b) f
          ≡ (ok (written show_float debug []), g))
        × IsWellFormed g
        × Grows f g
        × IsReadBack g foff 0 place (node j bro son next)
  unfolding Rpc.insert Rpc.apply apply_rpc response_of to_request insert_request operation_request
      request_of to_command
  insert-answered b f tss j bro son next made no_nul wf has bare small fit room =
      let request : OperationRequest = operation_request (to_request junk (insert_query b)) in
      let (foff, place, g, runs, wf', grows, back) =
        execute-insert fl junk fuel (request_of request) f tss j bro son next
          (ap (λ d. User.Command.insert d (string_ctor b.type_name)) made) no_nul wf has bare small
          fit room in
      (
        foff,
        place,
        g,
        step _ (calls request f ∙ step _ (step _ runs)) ∙ rw (is_ok) refl,
        wf',
        grows,
        back,
      )
