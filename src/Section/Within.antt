-- ===== src/Section/Within.antt =====
-- What an operation of one section leaves of the rest of the file.
use nosql_gql_dbms.Base.{◌∙◌, ◌-◌, arith, length, words_bytes, ℕ, ◌+◌, ◌≤◌, ◌≡◌, ◌⊎◌, refl, List}
use nosql_gql_dbms.Stdio.{Stream, bytes}
use nosql_gql_dbms.Stdio.Laws.{Apart, IsSeekable, bytes-patch-Apart}
use nosql_gql_dbms.Section.Header.{Sect, SectHead, section_size, head_words}
use nosql_gql_dbms.Section.Header.Laws.{IsValid, Holds, stored, synced, moved, borders, length-head}
use nosql_gql_dbms.Section.Record.Laws.{pushed}

-- The bytes `cs` stand at `a` of the stream, inside the file.
pub record HoldsAt (f : Stream) (a : ℕ) (cs : List ℕ) : Type 0 where
  pub same : bytes f.byte a (length cs) ≡ cs
  pub inside : (length cs ≡ 0) ⊎ (a + length cs ≤ f.size)

pub HoldsAt-Holds :
    (s : Sect) (c : ℕ) (cs : List ℕ) → Holds s c cs → HoldsAt s.filp (s.header.file_offset + c) cs
HoldsAt-Holds s c cs h = record { same = h.same; inside = h.inside }

pub Holds-HoldsAt :
    (s : Sect) (c : ℕ) (cs : List ℕ) → HoldsAt s.filp (s.header.file_offset + c) cs → Holds s c cs
Holds-HoldsAt s c cs h = record { same = h.same; inside = h.inside }

-- The operation that leads from `s` to `t` writes inside the section only.
pub record Within (s t : Sect) : Type 0 where
  pub offset : t.header.file_offset ≡ s.header.file_offset
  pub seeks : IsSeekable s.filp → IsSeekable t.filp
  pub kept :
      (a : ℕ) (cs : List ℕ)
      → Apart a (length cs) s.header.file_offset section_size
      → HoldsAt s.filp a cs
      → HoldsAt t.filp a cs

pub Within-refl : (s : Sect) → Within s s
Within-refl s = record { offset = refl; seeks = λ p. p; kept = λ a cs p h. h }

pub Within-trans : (s t u : Sect) → Within s t → Within t u → Within s u
Within-trans s t u v w = record {
  offset = w.offset ∙ v.offset;
  seeks = λ p. w.seeks (v.seeks p);
  kept = λ a cs p h. w.kept a cs (omega (arith, p, v.offset)) (v.kept a cs p h);
}

-- Setting the header in memory writes nothing.
Within-set_header :
    (s : Sect) (h : SectHead)
    → h.file_offset ≡ s.header.file_offset
    → Within s (record s { header = h })
Within-set_header s h e = record { offset = e; seeks = λ p. p; kept = λ a cs p x. x }

pub Within-stored :
    (soff : ℕ) (ds : List ℕ) (s : Sect)
    → soff + length ds ≤ section_size
    → Within s (stored soff ds s)
unfolding stored
Within-stored soff ds s p = record {
  offset = refl;
  seeks = λ q. q;
  kept = λ a cs q h. record {
    same =
        bytes-patch-Apart s.filp.byte (s.header.file_offset + soff) ds a (length cs)
          (omega (arith, p, q))
        ∙ h.same;
    inside = ground (arith, h.inside);
  };
}

pub Within-synced : (s : Sect) → Within s (synced s)
unfolding synced
Within-synced s =
    Within-stored 0 (words_bytes (head_words s.header)) s (omega (arith, length-head s.header))

pub Within-moved : (lip frp : ℕ) (s : Sect) → Within s (moved lip frp s)
unfolding moved
Within-moved lip frp s =
    Within-trans s (record s { header = borders lip frp s.header }) (moved lip frp s)
      (Within-set_header s (borders lip frp s.header) refl)
      (Within-synced (record s { header = borders lip frp s.header }))

pub Within-pushed :
    (bs : List ℕ) (s : Sect) → IsValid s → length bs ≤ s.header.free_space → Within s (pushed bs s)
unfolding pushed
Within-pushed bs s v p =
    let t : Sect = moved s.header.lst_itm_ptr (s.header.fst_rec_ptr - length bs) s in
    Within-trans s t (pushed bs s)
      (Within-moved s.header.lst_itm_ptr (s.header.fst_rec_ptr - length bs) s)
      (Within-stored (s.header.fst_rec_ptr - length bs) bs t (omega (arith, v.balance, v.high, p)))
