-- ===== src/Render/WholeSpace/Opened.antt =====
-- The state in which `Open` of cui/whole_space_renderer.c leaves the renderer of a copy.
use whdd_modify.Prelude.{
  ℕ, zero, suc, ◌+◌, ◌*◌, ◌/◌, ◌%◌, ◌^◌, ◌<◌, ◌≡◌, refl, true, Option, some, List, [], arith, ◌==◌,
  if◌then◌else◌, replicate,
}
use whdd_modify.Render.WholeSpace.{
  WholeSpace, Shown, nb_blocks_of, journal_of, open_whole_space, Reading,
}
use whdd_modify.Render.WholeSpace.Loaded.{
  blocks_from, IsJournal, At, sectors_left, read_blocks-IsLoaded,
}

-- The renderer of a copy of a device with the journal on, blocks of 256 sectors of 512 bytes, and an
-- end LBA at the device's end.
abbrev pub shown : ℕ → ℕ → List ℕ → Shown
shown capacity den thresholds = record {
  fits_terminal = true;
  allocates = true;
  starts_thread = true;
  capacity = capacity;
  blk_size = 256 * 512;
  den = den;
  end_lba = capacity / 512;
  use_journal = true;
  thresholds = thresholds;
}

-- For a device of some whole sectors, and a journal file with a known status for each sector that
-- can be read, where the terminal is large enough, there is memory for the map and the render thread
-- starts: the renderer opens, its map shows the status of the first sector of each block, and
-- its three counters together are the sectors of the device, less a block of 256 sectors if the last
-- block is a whole one, since such a block is counted as empty.
pub open_whole_space-counts :
    (capacity den : ℕ) (thresholds : List ℕ) (file : ℕ → ℕ) (read : ℕ → ℕ → Option (ℕ → ℕ))
    → 0 < capacity
    → capacity < 2 ^ 62
    → capacity % 512 ≡ 0
    → ((p n : ℕ) → read p n ≡ some (λ k. file (p + k)))
    → ((i : ℕ) → file i < 4)
    → let x = shown capacity den thresholds in
      (w : WholeSpace) × (open_whole_space x read ≡ some w)
      × (w.blocks_map ≡ blocks_from file (nb_blocks_of x) 0)
      × (w.unread_count
            + w.read_ok_count
            + w.errors_count
            + (if capacity % 131072 == 0 then 256 else 0)
          ≡ capacity / 512)
unfolding open_whole_space
open_whole_space-counts capacity den thresholds file read some_bytes small whole reads known =
    let x = shown capacity den thresholds in
    let j = journal_of x read in
    let o : IsJournal j file = record {
      blocks = omega arith;
      inside = λ i l. inside_device capacity i whole l;
      reads = reads;
      statuses = known;
      last = omega arith;
      few = few_blocks capacity small;
    } in
    let start : Reading = record {
      position = 0;
      journal_chunk = λ k. 0;
      statuses = [];
      unread_count = 0;
      read_ok_count = 0;
      errors_count = 0;
    } in
    let a : At j file 0 start = record {
      due = λ d l. omega arith;
      chunk = λ d k. absurd (d (omega arith));
      next = λ d l. absurd (d (omega arith));
    } in
    let sectors = device_sectors (nb_blocks_of x) capacity refl some_bytes whole in
    let (u, e, us, uc) =
      read_blocks-IsLoaded j file o (nb_blocks_of x) 0 start (omega arith) a refl
        (omega (arith, sectors)) in
    (
      record {
        vis_thresholds = thresholds;
        blocks_map = u.statuses;
        sectors_per_block = 256;
        access_time_stats_accum = replicate 6 0;
        error_stats_accum = replicate 6 0;
        bytes_processed = 0;
        start_time = record { tv_sec = 0; tv_nsec = 0 };
        avg_processing_speed = 0;
        eta_time = 0;
        reports_handled = 0;
        cur_lba = 0;
        unread_count = u.unread_count;
        read_ok_count = u.read_ok_count;
        errors_count = u.errors_count;
      },
      rw (e, open_whole_space) refl,
      us,
      omega (arith, uc, sectors),
    )
  where
    inside_device :
        (c i : ℕ)
        → c % 512 ≡ 0
        → i < (if c % 131072 == 0 then c / 131072 else c / 131072 + 1)
        → i * 256 < c / 512
    inside_device c i w l = ground arith

    few_blocks :
        (c : ℕ) → c < 2 ^ 62 → (if c % 131072 == 0 then c / 131072 else c / 131072 + 1) < 2 ^ 48
    few_blocks c l = ground arith

    device_sectors :
        (n c : ℕ)
        → n ≡ (if c % 131072 == 0 then c / 131072 else c / 131072 + 1)
        → 0 < c
        → c % 512 ≡ 0
        → sectors_left (c % 131072 / 512) n + (if c % 131072 == 0 then 256 else 0) ≡ c / 512
    device_sectors zero c e p w = absurd (ground arith)
    device_sectors (suc n) c e p w = ground arith
