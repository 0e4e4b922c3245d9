-- ===== src/File/Tests.antt =====
-- A file with one section of entities.
use nosql_gql_dbms.Base.{◌+◌, [], ◌∷◌, ◌++◌, ◌≡◌, refl, arith, ok, some}
use nosql_gql_dbms.Stdio.{fopen}
use nosql_gql_dbms.Section.Header.{section_size, new_header, get_fileoff}
use nosql_gql_dbms.File.{File, file_head_size, add_sect_ext, get_sect_ext}
use nosql_gql_dbms.File.Layout.{IsLaidOut, get_sect_ext-get_fileoff, add_sect_ext-IsLaidOut}

abbrev empty : File
empty = record { lst_sect_ptr = file_head_size; f_extent = []; f_types = []; filp = fopen }

empty-IsLaidOut : IsLaidOut empty
unfolding fopen
empty-IsLaidOut = omega arith

-- sections of entities around one of types
abbrev three : File
three = record {
  lst_sect_ptr = 24584;
  f_extent = new_header 8 ∷ new_header 16392 ∷ [];
  f_types = new_header 8200 ∷ [];
  filp = fopen;
}

three-IsLaidOut : IsLaidOut three
unfolding fopen
three-IsLaidOut = omega arith

add_sect_ext-IsLaidOut_example :
    (g : File) × (add_sect_ext three ≡ (ok tt, g))
    × (g.f_extent ≡ three.f_extent ++ (new_header 24584 ∷ []))
    × (g.f_types ≡ three.f_types)
    × (g.lst_sect_ptr ≡ 24584 + section_size)
    × IsLaidOut g
add_sect_ext-IsLaidOut_example = add_sect_ext-IsLaidOut three three-IsLaidOut (omega arith)

get_sect_ext-get_fileoff_example : get_sect_ext three (get_fileoff (new_header 16392) 32) ≡ some 1
get_sect_ext-get_fileoff_example =
    get_sect_ext-get_fileoff three 1 32 (new_header 16392) three-IsLaidOut refl (omega arith)
