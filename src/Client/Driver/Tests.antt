-- ===== src/Client/Driver/Tests.antt =====
-- Texts of tokens.
use nosql_gql_dbms.Client.Driver.{of_text, string, yylex}
use nosql_gql_dbms.Client.Driver.Laws.{yylex-string}
use nosql_gql_dbms.Base.{[], ◌∷◌, ◌≡◌, some, none, arith}

yylex-string_example :
    yylex (λ t. none) (λ t. none) string (b'"' ∷ b'a' ∷ b'b' ∷ b'"' ∷ [])
    ≡ some (of_text (b'a' ∷ b'b' ∷ []))
yylex-string_example =
    yylex-string (λ t. none) (λ t. none) (b'a' ∷ b'b' ∷ []) (omega arith, (omega arith, tt))
