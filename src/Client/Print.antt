-- ===== src/Client/Print.antt =====
-- `operator<<` of the documents in GQLclient/network/request.hpp. How a float is written is a parameter.
use nosql_gql_dbms.Network.{nullptr, tree}
use nosql_gql_dbms.Network.{NetJson, Fields}
use nosql_gql_dbms.Json.{type_int32, type_bool, type_float, type_string, type_object}
use nosql_gql_dbms.Base.{[], ◌∷◌, ◌++◌, ◌==◌, if◌then◌else◌, List, ℕ, codes, show_int32, show_bool}

-- what `std::endl` writes
abbrev pub endl : List ℕ
endl = b'\n' ∷ []

-- The line of a node, by its type; a type of no document writes no end of line.
unfoldable pub print_value : (show_float : ℕ → List ℕ) → Fields → List ℕ
unfolding show_int32 show_bool
print_value show_float f =
    if f.type == type_int32
    then codes "Value:\t" ++ show_int32 f.int32_val ++ endl
    else if f.type == type_bool
    then codes "Value:\t" ++ show_bool f.bool_val ++ endl
    else if f.type == type_float
    then codes "Value:\t" ++ show_float f.float_val ++ endl
    else if f.type == type_string
    then codes "Value:\t" ++ f.string_val ++ endl
    else if f.type == type_object
    then codes "OBJECT" ++ endl
    else []

-- `std::cout << *link << std::endl`, where the link is not null
abbrev pub print_link : NetJson → List ℕ → List ℕ
print_link nullptr out = []
print_link (tree f dad bro son) out = out ++ endl

-- `operator<<`: the brothers before the sons.
unfoldable pub print_json : (show_float : ℕ → List ℕ) → NetJson → List ℕ
unfolding print_value
print_json show_float nullptr = []
print_json show_float (tree f dad bro son) =
    codes "Key:\t"
    ++ f.key
    ++ codes "\t"
    ++ print_value show_float f
    ++ print_link bro (print_json show_float bro)
    ++ print_link son (print_json show_float son)
