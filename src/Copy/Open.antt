-- ===== src/Copy/Open.antt =====
-- `Open` of libdevcheck/copy.c.
pub mod Opened
pub mod Resumes
use whdd_modify.Prelude.{
  ℕ, ◌/◌, Bool, true, false, not, ◌&&◌, Option, none, some, [], ◌∷◌, ◌==◌, if◌then◌else◌,
}
use whdd_modify.Procedure.{Api, ata, posix, BlockStatus}
use whdd_modify.Copy.State.{CopyPriv, ReadStrategy}
use whdd_modify.Copy.Perform.{CopyCtx}
use whdd_modify.Copy.Journal.{parse_journal, fill_journal}

-- The options; `api` and `read_strategy` are `none` where the string is not one that `Open` knows.
pub record Options : Type 0 where
  pub api : Option Api
  pub read_strategy : Option ReadStrategy
  pub use_journal : Bool
  pub skip_blocks : ℕ

-- What `Open` reads of a `DC_Dev`.
pub record Device : Type 0 where
  pub ata_capable : Bool
  pub capacity : ℕ

-- The files. `dst_size` is the value of `lseek`, `none` for -1; a journal of no size does not exist.
pub record Files : Type 0 where
  pub dst : ℕ → ℕ
  pub dst_size : Option ℕ
  pub journal : ℕ → ℕ
  pub journal_size : Option ℕ

-- Whether the calls succeed. `reads` and `fills` are about the journal.
pub record System : Type 0 where
  pub allocates : Bool
  pub opens_src : Bool
  pub opens_dst : Bool
  pub stats_journal : Bool
  pub opens_journal : Bool
  pub reads : ℕ → Bool
  pub fills : ℕ → ℕ → Bool

-- The return value 1, an `assert` that fails, or the context.
pub data Opening : Type 0 where
  refused aborted : Opening
  opened : CopyCtx → Opening

abbrev pub is_ata : Api → Bool
is_ata ata = true
is_ata posix = false

-- The context before the journal is read: one zone for all sectors.
unfoldable pub set_up : Device → Options → Files → System → Api → ReadStrategy → ℕ → CopyCtx
set_up d o f y api rs dst_size =
    let end_lba = d.capacity / 512 in
    record {
      priv = record {
        skip_blocks = o.skip_blocks;
        api = api;
        read_strategy = rs;
        use_journal = o.use_journal;
        start_lba = 0;
        end_lba = end_lba;
        lba_to_process = end_lba;
        dst_file_end_lba = dst_size / 512;
        blk_index = 0;
        unread_zones =
            record {
              addr = 0;
              begin_lba = 0;
              end_lba = end_lba;
              begin_lba_defective = false;
              end_lba_defective = false;
            }
            ∷ [];
        nb_zones = 1;
        current_zone = none;
        current_zone_read_direction_reversive = false;
        stage = 0;
        next_addr = 1;
        allocates = y.allocates;
      };
      progress = record { num = 0; den = end_lba };
      report = record {
        lba = 0;
        sectors_processed = 0;
        blk_access_time = 0;
        blk_status = BlockStatus.ok;
      };
      dst = f.dst;
      journal = f.journal;
    }

unfoldable pub new_journal : System → CopyCtx → Opening
new_journal y c = elim (fill_journal y.fills c.priv.end_lba c.priv.end_lba 0 c.journal) [
  | none ↦ aborted
  | some journal ↦ opened (record c { journal = journal })
]

unfoldable pub old_journal : System → CopyCtx → Opening
old_journal y c = elim (parse_journal y.reads c.journal c.priv.end_lba c.priv.next_addr) [
  | none ↦ refused
  | some s ↦ opened (record c {
    priv = record (c.priv) {
      unread_zones = s.zones;
      nb_zones = s.nb_zones;
      next_addr = s.next_addr;
    };
    progress = record (c.progress) { den = s.den };
  })
]

unfoldable pub open_journal : System → Files → CopyCtx → Opening
open_journal y f c =
    if not c.priv.use_journal
    then opened c
    else if not y.stats_journal
    then refused
    else elim (f.journal_size) [
      | none ↦ if not y.opens_journal then refused else new_journal y c
      | some size ↦
          if not (size == c.priv.end_lba)
          then refused
          else if not y.opens_journal
          then refused
          else old_journal y c
    ]

unfoldable pub open_files : Device → Options → Files → System → Api → ReadStrategy → Opening
open_files d o f y api rs =
    if not y.allocates
    then refused
    else if not y.opens_src
    then refused
    else if not y.opens_dst
    then aborted
    else elim (f.dst_size) [
      | none ↦ refused
      | some size ↦ open_journal y f (set_up d o f y api rs size)
    ]

unfoldable pub open_copy : Device → Options → Files → System → Opening
open_copy d o f y = elim (o.api) [
  | none ↦ refused
  | some api ↦
      if is_ata api && not d.ata_capable
      then refused
      else elim (o.read_strategy) [ none ↦ refused | some rs ↦ open_files d o f y api rs ]
]
