-- ===== src/Section/Types/Tests.antt =====
-- A section of types, and the theorems at it.
use nosql_gql_dbms.Base.{[], ◌∷◌, ◌≡◌, refl, arith, ok}
use nosql_gql_dbms.Stdio.{fopen}
use nosql_gql_dbms.Text.{strncpy, string_cmp}
use nosql_gql_dbms.Json.{type_int32, type_string}
use nosql_gql_dbms.Json.TypeDef.{TypeDef}
use nosql_gql_dbms.Section.Header.{Sect, new_header}
use nosql_gql_dbms.Section.Header.Laws.{IsValid}
use nosql_gql_dbms.Section.Types.{write, read, find}
use nosql_gql_dbms.Section.Types.Attrs.{Frame}
use nosql_gql_dbms.Section.Types.RoundTrip.{IsTypeDef, item_size, type_write-read}
use nosql_gql_dbms.Section.Types.Cells.{Contents, here, find-Contents, type_write-Contents}

-- the first section of types of a file, as its constructor leaves the header
abbrev fresh : Sect
fresh = record { header = new_header 8; filp = fopen }

fresh-IsValid : IsValid fresh
unfolding fopen
fresh-IsValid = omega arith

fresh-Contents : Contents fresh []
fresh-Contents = record { valid = fresh-IsValid; types = refl }

abbrev city : TypeDef
city = record {
  name = b'C' ∷ [];
  attr_list =
      record { name = b'n' ∷ b'a' ∷ []; type = type_string }
      ∷ record { name = b'p' ∷ []; type = type_int32 }
      ∷ [];
}

city-IsTypeDef : IsTypeDef city
unfolding strncpy
city-IsTypeDef = (refl, (refl, omega arith, (refl, omega arith, tt)))

type_write-read_example :
    (u : Sect) × (write city fresh ≡ (ok 32, u))
    × (read 32 u ≡ (ok (city, item_size city), u))
    × IsValid u
    × Frame fresh u
type_write-read_example = type_write-read city fresh fresh-IsValid city-IsTypeDef (omega arith)

-- the section that the write leaves
abbrev wrote : Sect
wrote = (type_write-Contents city fresh [] fresh-Contents city-IsTypeDef (omega arith)).0

wrote-Contents : Contents wrote (city ∷ [])
wrote-Contents = (type_write-Contents city fresh [] fresh-Contents city-IsTypeDef (omega arith)).2

-- The type is found.
finds-city : find (b'C' ∷ []) wrote ≡ (ok (32, city), wrote)
unfolding string_cmp
finds-city = (find-Contents wrote (city ∷ []) (b'C' ∷ []) wrote-Contents).0 32 city (here refl)
