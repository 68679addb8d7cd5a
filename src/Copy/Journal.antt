-- ===== src/Copy/Journal.antt =====
-- The journal of `Open` in libdevcheck/copy.c: a byte for each sector, from which the unread zones are
-- made again, or which is filled with zeros.
mod Behind
pub mod Resume
pub mod Fill
use whdd_modify.Prelude.{
  ℕ, zero, suc, ◌+◌, ◌-◌, ◌*◌, ◌%◌, Bool, true, false, ◌&&◌, ◌||◌, Option, none, some, List, [],
  ◌∷◌, ◌++◌, ltb, leb, ◌==◌, if◌then◌else◌, ◌>>=◌, ◌>>◌, assert,
}
use whdd_modify.Copy.Zones.{Zone, zone_length}
use whdd_modify.Copy.Perform.{block_read_error, sector_read_error, unread, overwrite}

-- `sizeof(journal_chunk)` and `sizeof(filler)`
abbrev pub chunk_size : ℕ
chunk_size = 1 * 1024 * 1024

-- The variables of the loop over the sectors. `next_addr` is the allocator; the node of
-- `current_zone` is not of the list yet.
pub record Scan : Type 0 where
  pub zones : List Zone
  pub nb_zones : ℕ
  pub den : ℕ
  pub current_zone : Option Zone
  pub prev_sector_status : ℕ
  pub next_addr : ℕ

abbrev pub is_error : ℕ → Bool
is_error s = s == block_read_error || s == sector_read_error

-- The cases of the `switch` that end a zone.
abbrev pub is_read : ℕ → Bool
is_read s = s == 1 || is_error s

unfoldable pub append_zone : Scan → Zone → Scan
append_zone s z = record s { zones = s.zones ++ (z ∷ []); nb_zones = s.nb_zones + 1 }

unfoldable pub close_zone : Scan → Zone → ℕ → Bool → Scan
close_zone s z i defective =
    let z' = record z { end_lba = i; end_lba_defective = defective } in
    append_zone (record s { den = s.den + zone_length z'; current_zone = none }) z'

unfoldable pub open_zone : Scan → ℕ → Scan
open_zone s i = record s {
  current_zone = some (record {
    addr = s.next_addr;
    begin_lba = i;
    end_lba = 0;
    begin_lba_defective = ltb 0 i && is_error s.prev_sector_status;
    end_lba_defective = false;
  });
  next_addr = s.next_addr + 1;
}

-- The `switch` on the status of sector i. A byte that is no status takes no case.
unfoldable pub scan_status : Scan → ℕ → ℕ → Scan
scan_status s i status =
    if status == unread
    then (elim s.current_zone [ none ↦ open_zone s i | some z ↦ s ])
    else if is_read status
    then (elim s.current_zone [ none ↦ s | some z ↦ close_zone s z i (is_error status) ])
    else s

unfoldable pub scan_sector : Scan → ℕ → ℕ → Scan
scan_sector s i status = record (scan_status s i status) { prev_sector_status = status }

-- The loop, with `n` sectors left from sector i on. `reads i` tells whether the `read` of the chunk at
-- i returns the whole chunk; the chunks are read one after the other, so the byte of the buffer
-- at `i % chunk_size` is the byte at i of the file. `none` is `goto fail_journal_read`.
unfoldable pub scan_from : (ℕ → Bool) → (ℕ → ℕ) → ℕ → ℕ → Scan → Option Scan
scan_from reads journal zero i s = some s
scan_from reads journal (suc n) i s =
    let rest = scan_from reads journal n (i + 1) (scan_sector s i (journal i)) in
    if i % chunk_size == 0 && (if reads i then false else true) then none else rest

-- A zone finishing at the end of the disk.
unfoldable pub finish : Scan → ℕ → Scan
finish s end_lba = elim s.current_zone [ none ↦ s | some z ↦ close_zone s z end_lba false ]

-- `nb_zones`, `unread_zones` and `progress.den` are reset before.
unfoldable pub parse_journal : (ℕ → Bool) → (ℕ → ℕ) → ℕ → ℕ → Option Scan
parse_journal reads journal end_lba next_addr =
    scan_from reads journal end_lba 0 (record {
      zones = [];
      nb_zones = 0;
      den = 0;
      current_zone = none;
      prev_sector_status = 0;
      next_addr = next_addr;
    })
    >>= λ s. some (finish s end_lba)

-- A new journal is filled block by block; `fills i n` tells whether the `write` of n bytes at i is
-- complete, and `none` is the `assert` on it. Each round but the last moves i by `chunk_size`.
unfoldable pub fill_journal : (ℕ → ℕ → Bool) → ℕ → ℕ → ℕ → (ℕ → ℕ) → Option (ℕ → ℕ)
fill_journal fills end_lba zero i journal = some journal
fill_journal fills end_lba (suc fuel) i journal =
    let left = end_lba - i in
    let n = if ltb chunk_size left then chunk_size else left in
    let rest = fill_journal fills end_lba fuel (i + n) (overwrite journal i (λ _. 0) n) in
    if ltb i end_lba then assert (fills i n) >> rest else some journal
