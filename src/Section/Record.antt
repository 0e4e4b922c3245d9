-- ===== src/Section/Record.antt =====
-- How both kinds of section write a record: down from the border of the records.
pub mod Laws
use nosql_gql_dbms.Base.{ℕ, List, length, neg64, M, and_then, pure, ◌>>=◌, ◌>>◌, get}
use nosql_gql_dbms.Section.Header
use nosql_gql_dbms.Section.Header.{Sect, shift_frp}

-- The border of the records goes down, then the bytes go to the new border, which is returned.
unfoldable pub push_rec : List ℕ → M Sect ℕ
push_rec bs = do
  shift_frp (neg64 (length bs))
  s ← get
  Header.write s.header.fst_rec_ptr bs
  pure s.header.fst_rec_ptr
