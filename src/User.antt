-- ===== src/User.antt =====
-- dbms/src/user/user.c: the commands of a client.
pub mod Laws
mod Tests
use nosql_gql_dbms.File.TypeDefs.{find_type}
use nosql_gql_dbms.Base.{
  ℕ, zero, suc, ◌+◌, true, List, [], Option, none, some, if◌then◌else◌, ok, fault, M, pure, fail,
  stop, ◌>>=◌, ◌>>◌, get,
}
use nosql_gql_dbms.Stdio.{fopen}
use nosql_gql_dbms.Json.{Json, null, node}
use nosql_gql_dbms.Json.Compare.{Floats, json_is_apply_type}
use nosql_gql_dbms.Json.TypeDef.{TypeDef}
use nosql_gql_dbms.Query.{Query}
use nosql_gql_dbms.Section.Header.{get_fileoff}
use nosql_gql_dbms.File
use nosql_gql_dbms.File.{File, head_at}
use nosql_gql_dbms.File.Docs
use nosql_gql_dbms.File.TypeDefs
use nosql_gql_dbms.Iter.{Iter, iter_ctor, iter_next, iter_get}

-- `file_new`, over the stream that `fopen` returns.
abbrev pub new_file : File
unfolding fopen
new_file = record { lst_sect_ptr = 0; f_extent = []; f_types = []; filp = fopen }

-- `user_open_file`: the status of `file_ctor` is thrown away.
unfoldable pub open_file : File
open_file = (File.ctor new_file).1

unfoldable pub close_file : M File (Unit {0})
close_file = File.dtor

unfoldable pub add_type : TypeDef → M File (Unit {0})
add_type type = do _ ← TypeDefs.add_type type; pure tt

unfoldable pub delete_type : List ℕ → M File (Unit {0})
delete_type name = TypeDefs.delete_type name

unfoldable pub read_type : List ℕ → M File TypeDef
read_type name = do (_, (_, t)) ← TypeDefs.find_type name; pure t

-- `user_write`: a document of a type, if the type is known and the document has its attributes.
unfoldable pub write : Json → List ℕ → M File ℕ
write null type_name = stop
write (node j bro son next) type_name = do
  (types, (soff, t)) ← TypeDefs.find_type type_name
  f ← get
  if json_is_apply_type j son t
      then Docs.write (node j bro son next) 0 (get_fileoff (head_at f.f_types types) soff)
      else fail

unfoldable pub read : Floats → Query → M File Iter
read fl query = iter_ctor fl query

-- The loop of `user_delete` on fuel; returns the number of documents deleted.
unfoldable pub delete_loop : Floats → ℕ → Iter → M File ℕ
delete_loop fl zero it f = (fault, f)
delete_loop fl (suc fuel) it f = elim (iter_get it) [
  | none ↦ (ok 0, f)
  | some (null, ent) ↦ (fault, f)
  | some (node j b s n, ent) ↦
      (do
        Docs.delete j.foff true
        it' ← iter_next fl it
        cnt ← delete_loop fl fuel it'
        pure (cnt + 1))
        f
]

unfoldable pub delete : Floats → ℕ → Query → M File ℕ
unfolding delete_loop
delete fl fuel query = do it ← iter_ctor fl query; delete_loop fl fuel it

-- The loop of `user_update` on fuel: each document is deleted, and the new one written.
unfoldable pub update_loop : Floats → Json → ℕ → Iter → M File ℕ
update_loop fl new_json zero it f = (fault, f)
update_loop fl new_json (suc fuel) it f = elim (iter_get it) [
  | none ↦ (ok 0, f)
  | some (null, ent) ↦ (fault, f)
  | some (node j b s n, ent) ↦
      (do
        Docs.delete j.foff true
        _ ← Docs.write new_json ent.fam_addr.dad_ptr ent.type_ptr
        it' ← iter_next fl it
        cnt ← update_loop fl new_json fuel it'
        pure (cnt + 1))
        f
]

unfoldable pub update : Floats → ℕ → Query → Json → M File ℕ
unfolding update_loop
update fl fuel query new_json = do it ← iter_ctor fl query; update_loop fl new_json fuel it

-- `Command` of include/user/command.h, with what each kind reads of it.
pub data Command : Type 0 where
  insert : Json → List ℕ → Command
  read_cmd : Query → Command
  update_cmd : Query → Json → Command
  delete_cmd : Query → Command

-- `user_apply`: only a read leaves an iterator.
unfoldable pub apply : Floats → ℕ → Command → M File (Option Iter)
unfolding write read update delete
apply fl fuel (insert json type_name) = do _ ← write json type_name; pure none
apply fl fuel (read_cmd query) = do it ← read fl query; pure (some it)
apply fl fuel (update_cmd query json) = do _ ← update fl fuel query json; pure none
apply fl fuel (delete_cmd query) = do _ ← delete fl fuel query; pure none
