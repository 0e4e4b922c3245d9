-- ===== src/Client/Driver/Laws.antt =====
-- What the tables of the driver find, and what it makes of a text in quotes.
use nosql_gql_dbms.Client.Driver.{find, of_cmp, of_text, string, cmp, Semantic}
use nosql_gql_dbms.Client.Driver.{erase_quotes, yylex, cmp_table, same_text}
use nosql_gql_dbms.Base.{arith, ne→==, ==→eq, Bool-cases}
use nosql_gql_dbms.Query.{Cmp}
use nosql_gql_dbms.Base.{
  [], ◌∷◌, ◌++◌, ◌≡◌, ◌≢◌, ◌≤◌, ◌==◌, ◌⊎◌, ◌&&◌, if◌then◌else◌, Option, List, some, none, ℕ, refl,
  ap, ap₂, subst, inl, inr, Bool, true, false,
}

abbrev pub AllUpper : List ℕ → Type 0
AllUpper [] = Unit
AllUpper (b ∷ t) = (65 ≤ b) × (b ≤ 90) × AllUpper t

abbrev pub AllLower : List ℕ → Type 0
AllLower [] = Unit
AllLower (b ∷ t) = (97 ≤ b) × (b ≤ 122) × AllLower t

-- Each key of the table has the property.
abbrev AllKeys : {A : Type 0} → (List ℕ → Type 0) → List (List ℕ × A) → Type 0
AllKeys P [] = Unit
AllKeys P ((k, v) ∷ rest) = P k × AllKeys P rest

same_text-eq : (s t : List ℕ) → same_text s t ≡ true → s ≡ t
unfolding same_text
same_text-eq [] [] e = refl
same_text-eq [] (b ∷ t) e = cc
same_text-eq (a ∷ s) [] e = cc
same_text-eq (a ∷ s) (b ∷ t) e = elim (Bool-cases (a == b)) [
  | inl y ↦
      ap₂ (λ x xs. x ∷ xs) (==→eq a b y)
        (same_text-eq s t (subst (λ (c : Bool). (c && same_text s t) ≡ true) y e))
  | inr n ↦ absurd (false_ne (subst (λ (c : Bool). (c && same_text s t) ≡ true) n e))
]
  where
    false_ne : ¬ (false ≡ true)
    false_ne p = cc

find-AllKeys :
    {A : Type 0} (P : List ℕ → Type 0) (table : List (List ℕ × A)) (t : List ℕ) (v : A)
    → AllKeys P table
    → find table t ≡ some v
    → P t
unfolding find
find-AllKeys P [] t v a e = cc
find-AllKeys P ((k, w) ∷ rest) t v a e = elim (Bool-cases (same_text k t)) [
  | inl y ↦ subst P (same_text-eq k t y) a.0
  | inr n ↦
      find-AllKeys P rest t v a.1
        (subst (λ (c : Bool). (if c then some w else find rest t) ≡ some v) n e)
]

-- A comparison gets a value only where its text is all in capitals or all in small letters.
pub cmp_table-one_case :
    (stoi stof : List ℕ → Option ℕ) (t : List ℕ) (v : Semantic)
    → yylex stoi stof cmp t ≡ some v
    → AllUpper t ⊎ AllLower t
unfolding yylex
cmp_table-one_case stoi stof t v e = elim (Option-cases (find cmp_table t)) [
  | inl (c, y) ↦ find-AllKeys (λ s. AllUpper s ⊎ AllLower s) cmp_table t c keys y
  | inr n ↦ absurd (
      none_ne (
        subst (λ (o : Option Cmp). elim o [ none ↦ none | some c ↦ some (of_cmp c) ] ≡ some v) n e))
]
  where
    none_ne : ¬ (none ≡ some v)
    none_ne p = cc

    Option-cases : (o : Option Cmp) → ((c : Cmp) × (o ≡ some c)) ⊎ (o ≡ none)
    Option-cases none = inr refl
    Option-cases (some c) = inl (c, refl)

    keys : AllKeys (λ s. AllUpper s ⊎ AllLower s) cmp_table
    keys = (
      inl (omega arith),
      (
        inr (omega arith),
        (
          inl (omega arith),
          (
            inr (omega arith),
            (
              inl (omega arith),
              (
                inr (omega arith),
                (
                  inl (omega arith),
                  (
                    inr (omega arith),
                    (
                      inl (omega arith),
                      (inr (omega arith), (inl (omega arith), (inr (omega arith), tt))),
                    ),
                  ),
                ),
              ),
            ),
          ),
        ),
      ),
    )

abbrev pub NoQuote : List ℕ → Type 0
NoQuote [] = Unit
NoQuote (b ∷ t) = (b ≢ b'"') × NoQuote t

erase_quotes-NoQuote : (w : List ℕ) → NoQuote w → erase_quotes (w ++ (b'"' ∷ [])) ≡ w
unfolding erase_quotes
erase_quotes-NoQuote [] n = refl
erase_quotes-NoQuote (b ∷ w) n =
    rw (ne→== b b'"' n.0) (ap (λ r. b ∷ r) (erase_quotes-NoQuote w n.1))

-- The value of a text in quotes is what stands between them.
pub yylex-string :
    (stoi stof : List ℕ → Option ℕ) (w : List ℕ)
    → NoQuote w
    → yylex stoi stof string (b'"' ∷ (w ++ (b'"' ∷ []))) ≡ some (of_text w)
unfolding yylex erase_quotes
yylex-string stoi stof w n = ap (λ r. some (of_text r)) (erase_quotes-NoQuote w n)
