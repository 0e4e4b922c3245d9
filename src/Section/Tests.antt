-- ===== src/Section/Tests.antt =====
-- Concrete sections, and the theorems at them.
use nosql_gql_dbms.Base.{◌↔◌, ◌≤◌, ◌-◌}
use nosql_gql_dbms.Section.Extents.Write.{write-fits_iff}
use nosql_gql_dbms.Base.{words_bytes, ℕ, ◌<◌, ◌+◌, inl, inr, failed, ◌≡◌, refl, [], ◌∷◌, arith, ok}
use nosql_gql_dbms.Stdio.{max_pos, bytes, fopen}
use nosql_gql_dbms.Json.{JsonHead, text, type_string}
use nosql_gql_dbms.Json.Entity.{entity_size, entity_init, Entity, Tplgy}
use nosql_gql_dbms.Section.Header.{head_size, head_words, cmprs_frp, Sect, new_header}
use nosql_gql_dbms.Section.Header.Laws.{
  Holds, borders, synced, stored, synced-IsValid, synced-IsSynced, header-synced, moved, IsValid,
}
use nosql_gql_dbms.Section.Extents.Delete.{Deleted, delete-Deleted, is_zero-entity_bytes}
use nosql_gql_dbms.Section.Header.Laws.{Holds_first}
use nosql_gql_dbms.Section.Extents.{delete, load, update, write, read}
use nosql_gql_dbms.Section.Extents.RoundTrip.{IsNode, as_text, entity_for, write-read}
use nosql_gql_dbms.Section.Header.Compress.{Gap, at_pos, cmprs_frp-ok}
use nosql_gql_dbms.Section.Extents.Write.{written, placed}
use nosql_gql_dbms.Section.Extents.Slots.{Wrote, write-Wrote, IsFor}
use nosql_gql_dbms.Section.Record.Laws.{pushed}
use nosql_gql_dbms.Section.Extents.Read.{FitsUnion}
use nosql_gql_dbms.Section.Extents.Cells.{
  Cell, Contents, cell_offsets, written-Contents, load-Contents,
}
use nosql_gql_dbms.Section.Extents.Update.{Updated, update-Updated, update-stale}
use nosql_gql_dbms.Section.Extents.Boundary.{Replaced, update-Replaced}
use nosql_gql_dbms.Text.{strncpy}

-- the first section of a file, as its constructor leaves the header
abbrev fresh : Sect
fresh = record { header = new_header 8; filp = fopen }

fresh-IsValid : IsValid fresh
unfolding fopen
fresh-IsValid = omega arith

abbrev city : JsonHead
city = record {
  key = b'a' ∷ b'b' ∷ [];
  type = type_string;
  value = text (b'x' ∷ b'y' ∷ b'z' ∷ []);
  foff = 0;
}

abbrev orphan : Tplgy
orphan = record { dad_ptr = 0; bro_ptr = 0; son_ptr = 0 }

city-IsNode : IsNode city (b'x' ∷ b'y' ∷ b'z' ∷ [])
unfolding strncpy
city-IsNode = record { key_text = refl; known = omega arith; value = as_text refl refl refl }

write-read_example :
    (e : Entity) × (t : Sect) × (write city.key
        (b'x' ∷ b'y' ∷ b'z' ∷ [])
        (entity_for city (b'x' ∷ b'y' ∷ b'z' ∷ []) orphan 8)
        fresh
      ≡ (ok (32, e), t))
    × (read 32 t ≡ (ok (e, city), t))
    × (e.fam_addr ≡ orphan)
    × (e.type_ptr ≡ 8)
write-read_example =
    write-read city (b'x' ∷ b'y' ∷ b'z' ∷ []) orphan 8 fresh fresh-IsValid city-IsNode (omega arith)
      (omega arith)

abbrev city_entity : Entity
city_entity = entity_for city (b'x' ∷ b'y' ∷ b'z' ∷ []) orphan 8

city_entity-IsFor : IsFor city_entity city.key (b'x' ∷ b'y' ∷ b'z' ∷ [])
unfolding entity_init
city_entity-IsFor = omega arith

write-Wrote_example :
    (t : Sect) × (write city.key (b'x' ∷ b'y' ∷ b'z' ∷ []) city_entity fresh
      ≡ (ok (32, placed city.key (b'x' ∷ b'y' ∷ b'z' ∷ []) city_entity fresh), t))
    × Wrote city.key (b'x' ∷ b'y' ∷ b'z' ∷ []) city_entity fresh t
write-Wrote_example =
    write-Wrote city.key (b'x' ∷ b'y' ∷ b'z' ∷ []) city_entity fresh fresh-IsValid city_entity-IsFor
      (omega arith)

-- a section with room for exactly this entity
abbrev tight : Sect
tight = record {
  header = record (new_header 8) { free_space = 85; lst_itm_ptr = 8192 - 85 };
  filp = fopen;
}

tight-IsValid : IsValid tight
unfolding fopen
tight-IsValid = omega arith

write-fits_iff_example :
    (((r : ℕ × Entity) × (u : Sect) × (write city.key (b'x' ∷ b'y' ∷ b'z' ∷ []) city_entity tight
          ≡ (ok r, u)))
      ↔ (85 ≤ 85))
    × (¬ (85 ≤ 85) → write city.key (b'x' ∷ b'y' ∷ b'z' ∷ []) city_entity tight ≡ (failed, tight))
write-fits_iff_example =
    write-fits_iff city.key (b'x' ∷ b'y' ∷ b'z' ∷ []) city_entity tight tight-IsValid (omega arith)

-- a section whose records are two bytes of zeros in a file of zeros
abbrev zeros : Sect
zeros = record {
  header = record (new_header 8) { free_space = 8158; fst_rec_ptr = 8190 };
  filp = record { byte = λ _. 0; size = 8200; pos = 0 };
}

zeros-IsValid : IsValid zeros
zeros-IsValid = omega arith

zeros-Gap : Gap zeros 8190 2
unfolding bytes
zeros-Gap = record {
  cleared = λ i h. record { same = refl; inside = inr (omega arith) };
  ends = inl refl;
}

cmprs_frp-ok_example :
    (p : ℕ) × (p < max_pos) × (cmprs_frp zeros ≡ (ok tt, moved 32 (8190 + 2) (at_pos p zeros)))
cmprs_frp-ok_example = cmprs_frp-ok 2 zeros zeros-IsValid (omega arith) zeros-Gap

fresh-Contents : Contents (synced fresh) []
unfolding fopen
fresh-Contents = record {
  valid = synced-IsValid fresh fresh-IsValid;
  in_file = synced-IsSynced fresh;
  cells = rw (header-synced fresh);
}

-- sections of one cell and of two
abbrev one : Sect
one = written city.key (b'x' ∷ b'y' ∷ b'z' ∷ []) city_entity (synced fresh)

abbrev two : Sect
two = written city.key (b'x' ∷ b'y' ∷ b'z' ∷ []) city_entity one

city_fits : FitsUnion city_entity
unfolding entity_init
city_fits = inl refl

abbrev city_cell : Sect → Cell
city_cell s = record {
  ent = placed city.key (b'x' ∷ b'y' ∷ b'z' ∷ []) city_entity s;
  key = city.key;
  val = b'x' ∷ b'y' ∷ b'z' ∷ [];
}

one-Contents : Contents one (city_cell (synced fresh) ∷ [])
unfolding synced stored
one-Contents =
    written-Contents city.key (b'x' ∷ b'y' ∷ b'z' ∷ []) city_entity (synced fresh) [] fresh-Contents
      city_entity-IsFor city_fits (omega arith)

two-Contents : Contents two (city_cell (synced fresh) ∷ city_cell one ∷ [])
unfolding synced stored moved pushed
two-Contents =
    written-Contents city.key (b'x' ∷ b'y' ∷ b'z' ∷ []) city_entity one
      (city_cell (synced fresh) ∷ []) one-Contents city_entity-IsFor city_fits (omega arith)

load-Contents_example :
    load two
    ≡ (ok (cell_offsets two.header head_size (city_cell (synced fresh) ∷ city_cell one ∷ [])), two)
load-Contents_example =
    load-Contents two (city_cell (synced fresh) ∷ city_cell one ∷ []) two-Contents

update-Updated_example :
    (e : Entity) × (t : Sect) × (update 32 city.key
        (b'u' ∷ [])
        (entity_for city (b'u' ∷ []) orphan 8)
        two
      ≡ (ok e, t))
    × Updated 32 (city_cell (synced fresh)).ent e city.key (b'u' ∷ []) two t
unfolding entity_init synced stored moved pushed
update-Updated_example =
    update-Updated 32 (city_cell (synced fresh)).ent (entity_for city (b'u' ∷ []) orphan 8) city.key
      (b'x' ∷ b'y' ∷ b'z' ∷ []) city.key (b'u' ∷ []) two two-Contents.valid two-Contents.cells.0
      (omega arith) (omega arith) (omega arith) (omega arith) (omega arith)

update-stale_example :
    (e : Entity) × (t : Sect) × (update 32 city.key
        (b'u' ∷ [])
        (entity_for city (b'u' ∷ []) orphan 8)
        two
      ≡ (ok e, t))
    × Holds t 0 (words_bytes (head_words (borders (32 + entity_size) (8192 - 2 - 1) two.header)))
unfolding entity_init synced stored moved pushed
update-stale_example =
    update-stale 32 (city_cell (synced fresh)).ent (entity_for city (b'u' ∷ []) orphan 8) city.key
      (b'x' ∷ b'y' ∷ b'z' ∷ []) city.key (b'u' ∷ []) two two-Contents.valid two-Contents.cells.0
      (omega arith) (omega arith) (omega arith) (omega arith) (omega arith)

update-Replaced_example :
    (e : Entity) × (t : Sect) × (update 112 city.key
        (b'u' ∷ [])
        (entity_for city (b'u' ∷ []) orphan 8)
        two
      ≡ (ok e, t))
    × Replaced 112
        (city_cell one).ent
        (entity_for city (b'u' ∷ []) orphan 8)
        e
        city.key
        (b'u' ∷ [])
        two
        t
unfolding entity_init synced stored moved pushed
update-Replaced_example =
    update-Replaced 112 (city_cell one).ent (entity_for city (b'u' ∷ []) orphan 8) city.key
      (b'x' ∷ b'y' ∷ b'z' ∷ []) city.key (b'u' ∷ []) two two-Contents.valid two-Contents.cells.2.0
      (omega arith) (omega arith) (omega arith) (omega arith) (omega arith)

delete-Deleted_example :
    (t : Sect) × (delete 32 two ≡ (ok (city_cell (synced fresh)).ent, t))
    × Deleted two t 32 (city_cell (synced fresh)).ent
unfolding entity_init synced stored moved pushed
delete-Deleted_example =
    delete-Deleted two 32 (city_cell (synced fresh)).ent city.key (b'x' ∷ b'y' ∷ b'z' ∷ [])
      two-Contents.valid two-Contents.cells.0 (city_cell one).ent city.key (b'x' ∷ b'y' ∷ b'z' ∷ [])
      b'x' two-Contents.cells.2.0 (is_zero-entity_bytes (city_cell one).ent (omega arith))
      (omega arith) (omega arith)
      (Holds_first two 8182 b'x' (b'y' ∷ b'z' ∷ []) two-Contents.cells.2.0.val_held) (omega arith)
      (omega arith)
