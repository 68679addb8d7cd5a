-- ===== src/Copy/Written.antt =====
-- What `write_block` and `write_journal` leave of a round.
use whdd_modify.Prelude.{
  ℕ, ◌<◌, ◌≡◌, refl, ◌∙◌, ap, inl, inr, true, false, some, arith, if◌then◌else◌, Bool-cases, ==_iff,
  ◌≤◌,
}
use whdd_modify.Prelude.Words.{add64}
use whdd_modify.Copy.Zones.{covers}
use whdd_modify.Copy.Zones.Coverage.{covers-find}
use whdd_modify.Copy.Zones.Order.{find_in_order}
use whdd_modify.Copy.State.{CopyPriv}
use whdd_modify.Copy.Strategies.{Task}
use whdd_modify.Copy.Invariant.{IsValid, Offers}
use whdd_modify.Copy.Border.{in_task, task_in_zone}
use whdd_modify.Copy.Perform.{
  Kernel, CopyCtx, Outcome, overwrite, begin_report, write_block, sector_status, write_journal,
}

pub in_task_covered :
    (q : CopyPriv) (t : Task) (k : ℕ)
    → IsValid q
    → Offers q t
    → in_task t k ≡ true
    → covers q.unread_zones k ≡ true
in_task_covered q t k v o h = covers-find o.addr q.unread_zones k {z = o.zone} o.found (
    ground (
      arith,
      task_in_zone q.current_zone_read_direction_reversive t o.zone o.border o.in_zone lies,
    ))
  where
    lies : o.zone.begin_lba < o.zone.end_lba
    lies =
        (find_in_order q.next_addr q.start_lba q.end_lba o.addr q.unread_zones {z = o.zone}
          v.ordered o.found).3

-- What the writes to the files leave of a round.
pub record Written (c : CopyCtx) (q : CopyPriv) (t : Task) (x : CopyCtx) : Type 0 where
  pub priv : x.priv ≡ record q { blk_index = add64 q.blk_index 1 }
  pub progress : x.progress ≡ c.progress
  pub lba : x.report.lba ≡ t.lba_to_read
  pub sectors : x.report.sectors_processed ≡ t.sectors_to_read
  pub mark : ℕ
  pub marked : 0 < mark
  pub known : mark ≤ 3
  pub journal :
      q.use_journal ≡ true → (i : ℕ) → x.journal i ≡ (if in_task t i then mark else c.journal i)

pub write_on :
    (k : Kernel) (t : Task) (out : Outcome) (x : CopyCtx)
    → x.priv.use_journal ≡ true
    → k.write_journal t.lba_to_read t.sectors_to_read ≡ some t.sectors_to_read
    → write_journal k t out x
      ≡ some (record x {
        journal = overwrite x.journal t.lba_to_read (λ _. sector_status t out) t.sectors_to_read;
      })
unfolding write_journal
write_on k t out x e w = simp (e, w, (==_iff t.sectors_to_read t.sectors_to_read).1 refl)

write_off :
    (k : Kernel) (t : Task) (out : Outcome) (x : CopyCtx)
    → x.priv.use_journal ≡ false
    → write_journal k t out x ≡ some x
unfolding write_journal
write_off k t out x e = simp e

module _ (k : Kernel) (c : CopyCtx) (q : CopyPriv) (t : Task)
    (journal_works : (lba n : ℕ) → k.write_journal lba n ≡ some n) (out : Outcome) where
  abbrev block_written : CopyCtx
  block_written = write_block k t out (begin_report c q t k.access_time)

  block_lem :
      (block_written.priv ≡ record q { blk_index = add64 q.blk_index 1 })
      × (block_written.progress ≡ c.progress)
      × (block_written.report.lba ≡ t.lba_to_read)
      × (block_written.report.sectors_processed ≡ t.sectors_to_read)
      × (block_written.journal ≡ c.journal)
  unfolding write_block
  block_lem = elim (Bool-cases out.error_flag) [
    | inl e ↦ rw e (refl, refl, refl, refl, refl)
    | inr e ↦ rw e (refl, refl, refl, refl, refl)
  ]

  abbrev journaled : CopyCtx
  journaled = record block_written {
    journal =
        overwrite block_written.journal t.lba_to_read (λ _. sector_status t out) t.sectors_to_read;
  }

  status_pos : (0 < sector_status t out) × (sector_status t out ≤ 3)
  unfolding sector_status
  status_pos = (ground arith, ground arith)

  uses : block_written.priv.use_journal ≡ q.use_journal
  uses = ap (λ (p : CopyPriv). p.use_journal) block_lem.0

  pub written : (x : CopyCtx) × (write_journal k t out block_written ≡ some x) × Written c q t x
  written = elim (Bool-cases q.use_journal) [
    | inl e ↦ (
      journaled,
      write_on k t out block_written (uses ∙ e) (journal_works _ _),
      record {
        priv = block_lem.0;
        progress = block_lem.1;
        lba = block_lem.2;
        sectors = block_lem.3;
        mark = sector_status t out;
        marked = status_pos.0;
        known = status_pos.1;
        journal = λ _ i.
            ap
              (λ (f : ℕ → ℕ).
                overwrite f t.lba_to_read (λ _. sector_status t out) t.sectors_to_read i)
              block_lem.4;
      },
    )
    | inr e ↦ (
      block_written,
      write_off k t out block_written (uses ∙ e),
      record {
        priv = block_lem.0;
        progress = block_lem.1;
        lba = block_lem.2;
        sectors = block_lem.3;
        mark = 1;
        marked = omega arith;
        known = omega arith;
        journal = λ h i. cc;
      },
    )
  ]
