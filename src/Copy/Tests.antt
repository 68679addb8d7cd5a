-- ===== src/Copy/Tests.antt =====
-- The copy procedure on concrete disks.
use whdd_modify.Prelude.{
  ℕ, ◌+◌, ◌%◌, ◌*◌, ◌<◌, ◌≡◌, refl, ap, inl, inr, Bool, true, false, none, some, List, [], ◌∷◌, ltb,
  ◌==◌, if◌then◌else◌, arith,
}
use whdd_modify.Procedure.{ata, posix, BlockStatus}
use whdd_modify.Ata.{prepare_ata_command}
use whdd_modify.Scsi.{prepare_scsi_command_from_ata}
use whdd_modify.Scsi.Encoding.{cdb_lba}
use whdd_modify.Copy.Zones.{Zone, find, covers}
use whdd_modify.Copy.State.{CopyPriv, ReadStrategy}
use whdd_modify.Procedure.Loop.{Exit, loop}
use whdd_modify.Copy.Strategies.{Task, get_task, use_results}
use whdd_modify.Copy.Invariant.{IsValid, Offers, Gives}
use whdd_modify.Copy.Border.{Takes}
use whdd_modify.Copy.GetTask.{get_task-Gives}
use whdd_modify.Copy.UseResults.{use_results-Takes}
use whdd_modify.Copy.Perform.{Kernel, CopyCtx, perform, read_command}
use whdd_modify.Copy.Ready.{IsReady, Advances}
use whdd_modify.Copy.Progress.{perform-Advances}
use whdd_modify.Copy.Run.{Works, kernel_of, run, CopyEnded, run-CopyEnded}
use whdd_modify.Copy.Contents.{IsFaithful, IsCopied, CopiedAfter, perform-IsCopied}
use whdd_modify.Copy.Faithful.{Faithful, faithful_kernel, FaithfulEnded, run-FaithfulEnded}
use whdd_modify.Copy.Journal.{Scan, parse_journal, fill_journal}
use whdd_modify.Copy.Journal.Resume.{Resumed, parse_journal-Resumed}
use whdd_modify.Copy.Journal.Fill.{fill_journal-zeros}
use whdd_modify.Copy.Open.{Options, Device, Files, System, opened, open_copy}
use whdd_modify.Copy.Open.Opened.{IsUsable, IsOpened, open_copy-IsOpened}
use whdd_modify.Copy.Open.Resumes.{open_copy-resumes}

abbrev zone : ℕ → ℕ → ℕ → Bool → Bool → Zone
zone a lo hi b e = record {
  addr = a;
  begin_lba = lo;
  end_lba = hi;
  begin_lba_defective = b;
  end_lba_defective = e;
}

-- A disk of 3,000,000 sectors with an unread zone between two bad places: the strategy must jump.
abbrev between_defects : CopyPriv
between_defects = record {
  skip_blocks = 5000;
  api = posix;
  read_strategy = ReadStrategy.smart_no_reverse;
  use_journal = true;
  start_lba = 0;
  end_lba = 3000000;
  lba_to_process = 2600000;
  dst_file_end_lba = 0;
  blk_index = 9;
  unread_zones = zone 3 256 2000000 true true ∷ zone 4 2100000 2200000 true true ∷ [];
  nb_zones = 2;
  current_zone = none;
  current_zone_read_direction_reversive = false;
  stage = 0;
  next_addr = 7;
  allocates = true;
}

between_defects-IsValid : IsValid between_defects
unfolding find
between_defects-IsValid = record {
  ordered = ground arith;
  counted = refl;
  live = tt;
  forward = λ _. refl;
  jumps = inl refl;
  memory = refl;
}

get_task-Gives_example : Gives between_defects (get_task between_defects)
get_task-Gives_example = get_task-Gives between_defects between_defects-IsValid refl

-- The same zones while the first one is read backwards.
abbrev backwards : CopyPriv
backwards = record between_defects {
  read_strategy = ReadStrategy.smart;
  current_zone = some 3;
  current_zone_read_direction_reversive = true;
}

backwards-IsValid : IsValid backwards
unfolding find
backwards-IsValid = record {
  ordered = ground arith;
  counted = refl;
  live = (zone 3 256 2000000 true true, refl);
  forward = λ e. cc;
  jumps = inl refl;
  memory = refl;
}

abbrev last_block : Task
last_block = record { lba_to_read = 1999744; sectors_to_read = 256 }

last_block-Offers : Offers backwards last_block
unfolding find
last_block-Offers = record {
  addr = 3;
  zone = zone 3 256 2000000 true true;
  is_current = refl;
  found = refl;
  some_sectors = omega arith;
  one_block = omega arith;
  in_zone = omega arith;
  border = refl;
}

use_results-Takes_example :
    Takes backwards last_block BlockStatus.unc (use_results backwards last_block BlockStatus.unc)
use_results-Takes_example =
    use_results-Takes backwards last_block BlockStatus.unc backwards-IsValid last_block-Offers

-- A disk of 6 sectors.
abbrev source : ℕ → ℕ
source i = i % 251

-- A device whose sectors are in order, and reads and writes that succeed.
abbrev kernel : Kernel
kernel = record {
  ioctl = λ c. record {
    fails = false;
    command = c;
    data_read = λ i. source (512 * cdb_lba c.scsi_cmd + i);
  };
  read = λ offset n. record { ret = some n; data_read = λ i. source (offset + i) };
  write = λ offset n. some n;
  write_journal = λ lba n. some n;
  access_time = 40;
}

kernel-IsFaithful : IsFaithful source kernel
unfolding read_command prepare_scsi_command_from_ata prepare_ata_command
kernel-IsFaithful = record {
  reads = λ offset n i e l. refl;
  accepts = λ c. refl;
  transfers = λ t i near one a e l.
      let at : cdb_lba (read_command t).scsi_cmd ≡ t.lba_to_read = omega (arith, near, one) in
      ap (λ n. source (512 * n + i)) at;
  writes = λ offset n. refl;
  journals = λ lba n. refl;
}

-- Two of the sectors are copied, sector 4 could not be read.
abbrev interrupted : CopyCtx
interrupted = record {
  priv = record {
    skip_blocks = 5000;
    api = ata;
    read_strategy = ReadStrategy.smart;
    use_journal = true;
    start_lba = 0;
    end_lba = 6;
    lba_to_process = 3;
    dst_file_end_lba = 0;
    blk_index = 2;
    unread_zones = zone 0 2 4 false true ∷ zone 1 5 6 true false ∷ [];
    nb_zones = 2;
    current_zone = none;
    current_zone_read_direction_reversive = false;
    stage = 0;
    next_addr = 2;
    allocates = true;
  };
  progress = record { num = 3; den = 6 };
  report = record {
    lba = 4;
    sectors_processed = 1;
    blk_access_time = 40;
    blk_status = BlockStatus.error;
  };
  dst = λ i. if ltb i 1024 then source i else 0;
  journal = λ k. if ltb k 2 then 1 else if k == 4 then 3 else 0;
}

interrupted-IsReady : IsReady interrupted
unfolding find covers
interrupted-IsReady = record {
  valid = record {
    ordered = ground arith;
    counted = refl;
    live = tt;
    forward = λ _. refl;
    jumps = inl refl;
    memory = refl;
  };
  measured = refl;
  small = omega arith;
  recorded = λ _ k l. ground arith;
  statuses = λ _ k l. ground arith;
}

interrupted-IsCopied : IsCopied source interrupted
interrupted-IsCopied k m i l u = ground arith

perform-Advances_example : Advances interrupted (perform kernel interrupted)
perform-Advances_example =
    perform-Advances kernel interrupted interrupted-IsReady (λ lba n. refl) (omega arith)

-- A frontend that counts the calls.
abbrev count_calls : CopyCtx → ℕ → ℕ × ℕ
count_calls c n = (n + 1, 0)

abbrev rounds : List (Bool × Works)
rounds = let w : Bool × Works = (false, (kernel, λ lba n. refl)) in w ∷ w ∷ w ∷ w ∷ []

run-CopyEnded_example : CopyEnded interrupted (run kernel_of count_calls rounds interrupted 0)
run-CopyEnded_example =
    run-CopyEnded count_calls rounds interrupted 0 interrupted-IsReady (omega arith)

abbrev faithful_rounds : List (Bool × Faithful source)
faithful_rounds =
    let w : Bool × Faithful source = (false, (kernel, kernel-IsFaithful)) in w ∷ w ∷ w ∷ w ∷ []

run-FaithfulEnded_example :
    FaithfulEnded source interrupted (run faithful_kernel count_calls faithful_rounds interrupted 0)
run-FaithfulEnded_example =
    run-FaithfulEnded source count_calls faithful_rounds interrupted 0 refl (omega arith)
      interrupted-IsReady interrupted-IsCopied (omega arith)

perform-IsCopied_example : CopiedAfter source (perform kernel interrupted)
perform-IsCopied_example =
    perform-IsCopied source kernel kernel-IsFaithful interrupted interrupted-IsReady refl
      interrupted-IsCopied (omega arith) (omega arith)

parse_journal-Resumed_example :
    (s : Scan) × (parse_journal (λ _. true) interrupted.journal 6 9 ≡ some s)
    × Resumed interrupted.journal 6 s
parse_journal-Resumed_example =
    parse_journal-Resumed (λ _. true) interrupted.journal 6 9 (λ k l. ground arith) (λ k. refl)

fill_journal-zeros_example :
    (filled : ℕ → ℕ) × (fill_journal (λ i n. true) 6 6 0 (λ k. 7) ≡ some filled)
    × ((k : ℕ) → k < 6 → filled k ≡ 0)
fill_journal-zeros_example =
    fill_journal-zeros (λ i n. true) 6 6 0 (λ k. 7) (λ i n. refl) (omega arith)
      (λ k l. absurd (omega arith))

abbrev disk : Device
disk = record { ata_capable = false; capacity = 3072 }

abbrev options : Options
options = record {
  api = some posix;
  read_strategy = some ReadStrategy.skipfail;
  use_journal = true;
  skip_blocks = 5000;
}

abbrev files : Files
files = record {
  dst = interrupted.dst;
  dst_size = some 3072;
  journal = interrupted.journal;
  journal_size = some 6;
}

abbrev system : System
system = record {
  allocates = true;
  opens_src = true;
  opens_dst = true;
  stats_journal = true;
  opens_journal = true;
  reads = λ i. true;
  fills = λ i n. true;
}

system-IsUsable : IsUsable disk options files system
system-IsUsable = record {
  api = posix;
  read_strategy = ReadStrategy.skipfail;
  dst_size = 3072;
  known_api = refl;
  capable = λ e. cc;
  known_strategy = refl;
  jumps = inr (omega arith, omega arith);
  some_sectors = omega arith;
  not_large = omega arith;
  allocates = refl;
  opens_src = refl;
  opens_dst = refl;
  measured_dst = refl;
  stats_journal = refl;
  opens_journal = refl;
  reads = λ i. refl;
  fills = λ i n. refl;
  right_size = inr refl;
}

open_copy-IsOpened_example :
    (c : CopyCtx) × (open_copy disk options files system ≡ opened c) × IsOpened disk options files c
open_copy-IsOpened_example =
    open_copy-IsOpened disk options files system system-IsUsable (λ k l. ground arith)

-- One round, then an interrupt.
abbrev two_rounds : List (Bool × Works)
two_rounds =
    let w : Works = (kernel, λ lba n. refl) in (false, w) ∷ (true, w) ∷ (true, w) ∷ (true, w) ∷ []

abbrev stopped : CopyCtx
stopped = elim (perform kernel interrupted) [ none ↦ interrupted | some r ↦ r.0 ]

ran : run kernel_of count_calls two_rounds interrupted 0 ≡ some (stopped, 1, Exit.interrupted)
unfolding run loop perform get_task whdd_modify.Copy.Strategies.smart_get_task
    whdd_modify.Copy.Strategies.smart_set_first_processable_zone_current
    whdd_modify.Copy.Strategies.first_processable
    whdd_modify.Copy.Strategies.give_task_proceeding_current_zone
    whdd_modify.Copy.Strategies.smart_update_zones whdd_modify.Copy.Strategies.common_update_zones
    whdd_modify.Copy.Strategies.drop_if_empty whdd_modify.Copy.Strategies.moved find
    whdd_modify.Copy.Perform.perform_task whdd_modify.Copy.Perform.write_journal
    whdd_modify.Copy.Perform.write_block whdd_modify.Copy.Perform.act
    whdd_modify.Copy.Perform.conclude whdd_modify.Copy.Perform.sector_status
    whdd_modify.Scsi.scsi_ata_check_return_status read_command prepare_scsi_command_from_ata
    prepare_ata_command use_results whdd_modify.Copy.Zones.splice whdd_modify.Copy.Zones.store
    whdd_modify.Copy.Zones.unlink
ran = refl

abbrev left_files : Files
left_files = record files { journal = stopped.journal }

open_copy-resumes_example :
    (c : CopyCtx) × (open_copy disk options left_files system ≡ opened c)
    × IsReady c
    × ((k : ℕ)
        → k < 6
        → (covers c.priv.unread_zones k ≡ covers stopped.priv.unread_zones k)
          × (covers c.priv.unread_zones k ≡ true → covers interrupted.priv.unread_zones k ≡ true))
open_copy-resumes_example =
    open_copy-resumes count_calls two_rounds interrupted stopped 0 1 Exit.interrupted disk options
      left_files system interrupted-IsReady refl refl (omega arith) ran
      (record {
        api = posix;
        read_strategy = ReadStrategy.skipfail;
        dst_size = 3072;
        known_api = refl;
        capable = λ e. cc;
        known_strategy = refl;
        jumps = inr (omega arith, omega arith);
        some_sectors = omega arith;
        not_large = omega arith;
        allocates = refl;
        opens_src = refl;
        opens_dst = refl;
        measured_dst = refl;
        stats_journal = refl;
        opens_journal = refl;
        reads = λ i. refl;
        fills = λ i n. refl;
        right_size = inr refl;
      })
      refl refl (λ k l. refl)
