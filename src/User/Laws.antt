-- ===== src/User/Laws.antt =====
-- `user_write` of dbms/src/user/user.c on a file whose sections of types stand for lists of types.
use nosql_gql_dbms.Base.{
  ℕ, ◌+◌, ◌*◌, ◌<◌, ◌≡◌, refl, ◌∙◌, List, none, arith, u64_mod, ok, failed, step, true, false,
}
use nosql_gql_dbms.Stdio.{max_pos}
use nosql_gql_dbms.Json.Compare.{json_is_apply_type, Floats}
use nosql_gql_dbms.File.Tree.{nodes, Unused, Written, Fits}
use nosql_gql_dbms.Json.TypeDef.{TypeDef}
use nosql_gql_dbms.Section.Header.{get_fileoff, section_size}
use nosql_gql_dbms.File.WellFormed.{Grows, IsWellFormed}
use nosql_gql_dbms.Json.{JsonHead, Json}
use nosql_gql_dbms.File.{File, head_at}
use nosql_gql_dbms.File.Tree.Write.{write-Written}
use nosql_gql_dbms.File.TypeDefs.Find.{FindsIn, AllLack, find_type-HasTypes}
use nosql_gql_dbms.File.TypeDefs.Held.{HasTypes}
use nosql_gql_dbms.File.Tree.RoundTrip.{DocAt-IsReadBack, IsReadBack}
use nosql_gql_dbms.User
use nosql_gql_dbms.User.{insert}
use nosql_gql_dbms.File.Docs
use nosql_gql_dbms.Json.{node}

module _ (f : File) (tss : List (List TypeDef)) (has : HasTypes f tss) (j : JsonHead)
    (bro son next : Json) (name : List ℕ) where
  abbrev document : Json
  document = node j bro son next

  -- where a type stands in the file
  abbrev pub type_at : ℕ → ℕ → ℕ
  type_at i soff = get_fileoff (head_at f.f_types i) soff

  -- `user_write` of a document that is not null, on each branch, in a file whose sections of types stand for
  -- lists of types: FAILED with the file as it was where no section has a type of the name, or where the
  -- document does not have the attributes of the first type of the name; else it is `file_write` of the
  -- document without a dad, with the place of that type.
  pub write-branches :
      (AllLack name tss → User.write document name f ≡ (failed, f))
      × ((i soff : ℕ) (t : TypeDef)
          → FindsIn name tss i soff t
          → (json_is_apply_type j son t ≡ false → User.write document name f ≡ (failed, f))
            × (json_is_apply_type j son t ≡ true
                → User.write document name f ≡ Docs.write document 0 (type_at i soff) f))
  unfolding User.write
  write-branches =
      let (finds, lacks) = find_type-HasTypes name f tss has in
      (
        λ l. rw (lacks l) refl,
        λ i soff t x. (
          λ e. step _ (finds i soff t x) ∙ rw e refl,
          λ e. step _ (finds i soff t x) ∙ rw e refl,
        ),
      )

  -- `user_apply` of an INSERT stores the document: on a well-formed file whose sections of types stand
  -- for lists of types, and which may grow by a section for each node, for a tree whose nodes are as
  -- `json_ctor` makes them and fit an empty section, which has the attributes of the first type of the
  -- name, it succeeds, the file stays well-formed, all documents stay, and `file_read` of some offset
  -- gives the tree, without a dad and with the place of that type.
  pub insert-IsReadBack :
      (wf : IsWellFormed f) (i soff : ℕ) (t : TypeDef) (fl : Floats) (fuel : ℕ)
      → FindsIn name tss i soff t
      → json_is_apply_type j son t ≡ true
      → Fits document
      → f.lst_sect_ptr + section_size * nodes document < max_pos
      → (foff : ℕ) × (g : File) × (User.apply fl fuel (insert document name) f ≡ (ok none, g))
        × IsWellFormed g
        × Grows f g
        × IsReadBack g foff 0 (type_at i soff) document
  unfolding User.apply
  insert-IsReadBack wf i soff t fl fuel x e fit room =
      let y : type_at i soff < u64_mod = omega arith in
      let w : Written document 0 (type_at i soff) f =
        write-Written document 0 (type_at i soff) f wf fit room (omega arith) y in
      (
        w.foff,
        w.left,
        step _ ((write-branches.1 i soff t x).1 e ∙ w.returns),
        w.wf,
        w.grows,
        DocAt-IsReadBack j bro son next (Unused f) w.foff 0 (type_at i soff) w.left w.wf
            (omega (arith, w.held)) w.doc,
      )
