-- ===== src/File/Put.antt =====
-- An operation on one section of a file: what it keeps of the other sections.
use nosql_gql_dbms.Base.{
  get_elem?-set_ne, ==→ne, get_elem?-set_self, ==→eq, ℕ, ◌≤◌, ◌≡◌, ◌≢◌, sym, ap, ◌∙◌, subst, inl,
  inr, List, some, arith, ◌==◌, Bool-cases, get_elem?, set,
}
use nosql_gql_dbms.Json.Entity.{Entity}
use nosql_gql_dbms.Json.{JsonHead}
use nosql_gql_dbms.Section.Header.{Sect, SectHead}
use nosql_gql_dbms.Section.Within.{Within}
use nosql_gql_dbms.Section.Extents.Slots.{Stores}
use nosql_gql_dbms.Section.Extents.Frame.{over, Spares, Spares-Within, Stores-Spares}
use nosql_gql_dbms.File.{File}
use nosql_gql_dbms.File.Layout.{IsLaidOut, Below-set, AllApart-set, Separate-AllApart, Below-at}
use nosql_gql_dbms.Base.{length-set}
use nosql_gql_dbms.File.WellFormed.{
  IsHead, IsWellFormed, NodeAt, Used, Grows, put_sect, IsHead-Spares,
}

module _ (i : ℕ) (f : File) (h : SectHead) (t : Sect) (wf : IsWellFormed f)
    (at : get_elem? f.f_extent i ≡ some h) (w : Within (over h f.filp) t) where
  spared : (k : ℕ) (x : SectHead) → i ≢ k → get_elem? f.f_extent k ≡ some x → Spares x f.filp t.filp
  spared k x n e =
      Spares-Within x (over h f.filp) t w
        (Separate-AllApart f.f_extent k i x h wf.laid.apart e at (λ p. n (sym p)))

  laid-put_sect : IsLaidOut (put_sect i t f)
  laid-put_sect = record {
    extents =
        Below-set t.header f.lst_sect_ptr f.f_extent i
          (omega (arith, w.offset, Below-at f.lst_sect_ptr h f.f_extent i wf.laid.extents at))
          wf.laid.extents;
    types = wf.laid.types;
    apart = AllApart-set t.header h f.f_extent i at w.offset wf.laid.apart;
    seekable = w.seeks wf.laid.seekable;
    reachable = wf.laid.reachable;
  }

  -- The sections keep their places, and those that the operation does not work on their contents.
  pub put_sect-IsWellFormed : IsHead t.filp t.header → IsWellFormed (put_sect i t f)
  put_sect-IsWellFormed v = record {
    laid = laid-put_sect;
    start = wf.start;
    room = omega (arith, wf.room, length-set f.f_extent i t.header);
    heads = go;
  }
    where
      go :
          (k : ℕ) (x : SectHead)
          → get_elem? (set f.f_extent i t.header) k ≡ some x
          → IsHead t.filp x
      go k x e = elim (Bool-cases (i == k)) [
        | inl y ↦
            let p : i ≡ k = ==→eq i k y in
            let q : t.header ≡ x = cc (get_elem?-set_self f.f_extent i h t.header at, p, e) in
            subst (λ (z : SectHead). IsHead t.filp z) q v
        | inr n ↦
            let p : i ≢ k = ==→ne i k n in
            let q : get_elem? f.f_extent k ≡ some x =
              sym (get_elem?-set_ne f.f_extent i k t.header p) ∙ e in
            IsHead-Spares x f.filp t.filp w.seeks (spared k x p q) (wf.heads k x q)
      ]

  -- A node stays if its section is another one, or if the operation keeps what is stored there.
  pub NodeAt-put_sect :
      (k soff foff : ℕ) (e : Entity) (val : List ℕ) (j : JsonHead)
      → (k ≡ i → Stores (over h f.filp) soff e j.key val → Stores t soff e j.key val)
      → NodeAt f k soff foff e val j
      → NodeAt (put_sect i t f) k soff foff e val j
  NodeAt-put_sect k soff foff e val j keeps n = elim (Bool-cases (i == k)) [
    | inl y ↦
        let p : i ≡ k = ==→eq i k y in
        let q : n.head ≡ h = cc (at, p, n.there) in
        record {
          head = t.header;
          there =
              subst (λ (m : ℕ). get_elem? (set f.f_extent i t.header) m ≡ some t.header) p
                (get_elem?-set_self f.f_extent i h t.header at);
          place = omega (arith, n.place, w.offset, ap (λ (z : SectHead). z.file_offset) q);
          stores =
              keeps (sym p)
                (subst (λ (z : SectHead). Stores (over z f.filp) soff e j.key val) q n.stores);
          fits = n.fits;
          same = n.same;
          grid = n.grid;
        }
    | inr d ↦
        let p : i ≢ k = ==→ne i k d in
        record {
          head = n.head;
          there = get_elem?-set_ne f.f_extent i k t.header p ∙ n.there;
          place = n.place;
          stores =
              Stores-Spares n.head f.filp t.filp soff e j.key val (spared k n.head p n.there)
                (wf.heads k n.head n.there).valid n.stores;
          fits = n.fits;
          same = n.same;
          grid = n.grid;
        }
  ]

  pub Used-put_sect :
      h.lst_itm_ptr ≤ t.header.lst_itm_ptr → (o : ℕ) → Used f o → Used (put_sect i t f) o
  Used-put_sect grows o u = elim (Bool-cases (i == u.sect)) [
    | inl y ↦
        let p : i ≡ u.sect = ==→eq i u.sect y in
        let q : u.head ≡ h = cc (at, p, u.there) in
        record {
          sect = i;
          head = t.header;
          soff = u.soff;
          there = get_elem?-set_self f.f_extent i h t.header at;
          place = omega (arith, u.place, w.offset, ap (λ (z : SectHead). z.file_offset) q);
          low = u.low;
          high = omega (arith, u.high, grows, ap (λ (z : SectHead). z.lst_itm_ptr) q);
        }
    | inr d ↦ record {
      sect = u.sect;
      head = u.head;
      soff = u.soff;
      there = get_elem?-set_ne f.f_extent i u.sect t.header (==→ne i u.sect d) ∙ u.there;
      place = u.place;
      low = u.low;
      high = u.high;
    }
  ]

  pub put_sect-Grows :
      ((soff : ℕ) (e : Entity) (k v : List ℕ)
        → Stores (over h f.filp) soff e k v
        → Stores t soff e k v)
      → h.lst_itm_ptr ≤ t.header.lst_itm_ptr
      → Grows f (put_sect i t f)
  put_sect-Grows keeps grows = record {
    kept = λ k soff foff e val j n.
        NodeAt-put_sect k soff foff e val j (λ _. keeps soff e j.key val) n;
    used = Used-put_sect grows;
  }
