-- ===== src/Text/Laws.antt =====
-- `string_cmp` decides whether two strings are the same.
use nosql_gql_dbms.Base.{
  ℕ, suc, ◌≡◌, ◌≢◌, ◌↔◌, refl, sym, ◌∙◌, ap, ap₂, List, [], ◌∷◌, arith, length, replicate, ◌==◌,
  Bool-cases, inl, inr, ==→eq, eq→==, ne→==, length-replicate,
}
use nosql_gql_dbms.Text.{strncpy, equal, strncmp, string_cmp, IsText}

-- What `string_ctor` makes is a text, and a text is kept.
pub strncpy-IsText : (s : List ℕ) → IsText (strncpy s)
unfolding strncpy
strncpy-IsText [] = refl
strncpy-IsText (b ∷ bs) = elim (Bool-cases (b == 0)) [
  | inl e ↦ rw e (zeros (length bs))
  | inr e ↦ rw (e, e, strncpy-IsText bs)
]
  where
    zeros : (n : ℕ) → strncpy (replicate (suc n) 0) ≡ replicate (suc n) 0
    zeros n = ap (λ k. replicate (suc k) 0) (length-replicate n 0)

IsText-tail : (b : ℕ) (bs : List ℕ) → b ≢ 0 → IsText (b ∷ bs) → IsText bs
unfolding strncpy
IsText-tail b bs n h = cc (rw (ne→== b 0 n) at h)

IsText-zero : (b : ℕ) (bs : List ℕ) → b ≡ 0 → IsText (b ∷ bs) → replicate (length bs) 0 ≡ bs
unfolding strncpy
IsText-zero b bs e h = cc (rw (eq→== b 0 e) at h)

strncmp_refl : (s : List ℕ) → strncmp s s ≡ equal
unfolding strncmp
strncmp_refl [] = refl
strncmp_refl (a ∷ s) = ground (arith, strncmp_refl s)

strncmp-eq :
    (s t : List ℕ) → length s ≡ length t → IsText s → IsText t → strncmp s t ≡ equal → s ≡ t
unfolding strncmp
strncmp-eq [] [] l p q e = refl
strncmp-eq [] (b ∷ t) l p q e = absurd (omega arith)
strncmp-eq (a ∷ s) [] l p q e = absurd (omega arith)
strncmp-eq (a ∷ s) (b ∷ t) l p q e = elim (Bool-cases (a == 0)) [
  | inl z ↦
      let same : a ≡ b = ground arith in
      ap₂ (λ x xs. x ∷ xs) same
        (sym (IsText-zero a s (==→eq a 0 z) p)
          ∙ ap (λ (n : ℕ). replicate n 0) (omega arith)
          ∙ IsText-zero b t (sym same ∙ ==→eq a 0 z) q)
  | inr z ↦
      let same : a ≡ b = ground arith in
      let rest : strncmp s t ≡ equal = ground arith in
      ap₂ (λ x xs. x ∷ xs) same
        (strncmp-eq s t (omega arith) (IsText-tail a s (ground arith) p)
          (IsText-tail b t (ground arith) q) rest)
]

-- Two strings as `string_ctor` makes them compare as equal exactly when they have the same bytes.
pub string_cmp-eq_iff : (s t : List ℕ) → IsText s → IsText t → (string_cmp s t ≡ equal) ↔ (s ≡ t)
unfolding string_cmp
string_cmp-eq_iff s t p q = (forth, back)
  where
    forth : string_cmp s t ≡ equal → s ≡ t
    forth e = strncmp-eq s t (ground arith) p q (ground arith)

    back : s ≡ t → string_cmp s t ≡ equal
    back e = rw e (ground (arith, strncmp_refl t))
