-- ===== src/Copy/Contents.antt =====
-- The destination's contents under `Perform` of libdevcheck/copy.c.
use whdd_modify.Copy.GetTask.{get_task-Gives}
use whdd_modify.Copy.Progress.{unread_left, perform-Advances}
use whdd_modify.Copy.Ready.{IsReady, Advances}
use whdd_modify.Copy.Invariant.{Gives, IsValid, AtBorder}
use whdd_modify.Copy.Zones.{Zone, find, zone_length}
use whdd_modify.Copy.Zones.Order.{find_in_order}
use whdd_modify.Prelude.{
  ℕ, ◌+◌, ◌-◌, ◌*◌, ◌^◌, ◌≤◌, ◌<◌, ◌≡◌, refl, sym, ◌∙◌, ap, inl, inr, Bool, true, false, not, ◌&&◌,
  Option, none, some, ltb, leb, ◌==◌, if◌then◌else◌, ◌>>=◌, arith, Bool-cases, Option-cases, subst,
}
use whdd_modify.Procedure.{Api, ata, posix, BlockStatus, failed}
use whdd_modify.Scsi.{ScsiCommand, scsi_ata_check_return_status}
use whdd_modify.Copy.State.{CopyPriv}
use whdd_modify.Copy.Strategies.{Task, Answer, given, refused, get_task, use_results}
use whdd_modify.Copy.Perform.{
  Kernel, CopyCtx, Outcome, act, read_command, overwrite, is_exactly, read_ok, begin_report,
  write_block, sector_status, write_journal, conclude, perform_task, perform,
}
use whdd_modify.Copy.Written.{write_on}

-- A kernel that hands out the bytes of the source whenever it reports success, accepts every SG_IO
-- request, and writes what it is asked to.
pub record IsFaithful (src : ℕ → ℕ) (k : Kernel) : Type 0 where
  pub reads :
      (offset n i : ℕ)
      → (k.read offset n).ret ≡ some n
      → i < n
      → (k.read offset n).data_read i ≡ src (offset + i)
  pub accepts : (c : ScsiCommand) → (k.ioctl c).fails ≡ false
  pub transfers :
      (t : Task) (i : ℕ)
      → t.lba_to_read + t.sectors_to_read ≤ 2 ^ 48
      → t.sectors_to_read ≤ 256
      → (k.ioctl (read_command t)).fails ≡ false
      → scsi_ata_check_return_status (k.ioctl (read_command t)).command ≡ BlockStatus.ok
      → i < t.sectors_to_read * 512
      → (k.ioctl (read_command t)).data_read i ≡ src (512 * t.lba_to_read + i)
  pub writes : (offset n : ℕ) → k.write offset n ≡ some n
  pub journals : (lba n : ℕ) → k.write_journal lba n ≡ some n

-- Every sector that the journal marks as read is in the destination.
abbrev pub IsCopied : (ℕ → ℕ) → CopyCtx → Type 0
IsCopied src c =
    (k : ℕ) → (c.journal k ≡ read_ok) → (i : ℕ) → 512 * k ≤ i → i < 512 * (k + 1) → c.dst i ≡ src i

-- A round that does not abort and leaves such a destination.
abbrev pub CopiedAfter : (ℕ → ℕ) → Option (CopyCtx × ℕ) → Type 0
CopiedAfter src none = ⊥
CopiedAfter src (some (c, r)) = IsCopied src c

not_failed : (s : BlockStatus) → failed s ≡ false → s ≡ BlockStatus.ok
not_failed s h = ground arith

exactly : (o : Option ℕ) (n : ℕ) → is_exactly o n ≡ true → o ≡ some n
exactly o n h = ground arith

true_of_not : (b : Bool) → not b ≡ false → b ≡ true
true_of_not b h = ground arith

act_lem :
    (src : ℕ → ℕ) (k : Kernel) (api : Api) (t : Task) (i : ℕ)
    → IsFaithful src k
    → t.lba_to_read + t.sectors_to_read ≤ 2 ^ 48
    → t.sectors_to_read ≤ 256
    → (act api k t).error_flag ≡ false
    → i < t.sectors_to_read * 512
    → (act api k t).buf i ≡ src (512 * t.lba_to_read + i)
unfolding act
act_lem src k ata t i f near one e l = f.transfers t i near one (f.accepts _) (not_failed _ e) l
act_lem src k posix t i f near one e l =
    f.reads (512 * t.lba_to_read) (t.sectors_to_read * 512) i (exactly _ _ (true_of_not _ e)) l

not_some : {A : Type 0} (a : A) → none ≡ some a → ⊥
not_some a h = cc

same_first : {a b : CopyCtx × ℕ} → ◌≡◌ {A = Option (CopyCtx × ℕ)} (some a) (some b) → a.0 ≡ b.0
same_first h = cc

conclude_files :
    (t : Task) (o : Outcome) (x c : CopyCtx) (r : ℕ)
    → conclude t o x ≡ some (c, r)
    → (c.dst ≡ x.dst) × (c.journal ≡ x.journal)
unfolding conclude
conclude_files t o x c r e = elim (Option-cases (use_results x.priv t x.report.blk_status)) [
  | inl n ↦ let h = simp (n, conclude) at e in absurd (not_some (c, r) h)
  | inr (q, u) ↦
      let h = simp (u, conclude) at e in
      let w = same_first h in
      (sym (ap (λ (z : CopyCtx). z.dst) w), sym (ap (λ (z : CopyCtx). z.journal) w))
]

module _ (src : ℕ → ℕ) (k : Kernel) (f : IsFaithful src k) (c : CopyCtx) (p : CopyPriv) (t : Task)
    (uses : p.use_journal ≡ true) (w : IsCopied src c)
    (near : t.lba_to_read + t.sectors_to_read ≤ 2 ^ 48) (one : t.sectors_to_read ≤ 256) where
  abbrev out : Outcome
  out = act p.api k t

  abbrev written : CopyCtx
  written = write_block k t out (begin_report c p t k.access_time)

  written_lem :
      (written.priv.use_journal ≡ true)
      × (written.journal ≡ c.journal)
      × (written.dst ≡ (
          if out.error_flag
          then c.dst
          else overwrite c.dst (512 * t.lba_to_read) out.buf (t.sectors_to_read * 512)))
  unfolding write_block
  written_lem = elim (Bool-cases out.error_flag) [
    | inl e ↦ simp e (uses, refl, refl)
    | inr e ↦ simp (e, f.writes) (uses, refl, refl)
  ]

  journaled : ℕ → ℕ
  journaled = overwrite c.journal t.lba_to_read (λ _. sector_status t out) t.sectors_to_read

  module _ (dst buf : ℕ → ℕ) (j i : ℕ) where
    inside_lem :
        (leb t.lba_to_read j && ltb j (t.lba_to_read + t.sectors_to_read)) ≡ true
        → 512 * j ≤ i
        → i < 512 * (j + 1)
        → overwrite dst (512 * t.lba_to_read) buf (t.sectors_to_read * 512) i
          ≡ buf (i - 512 * t.lba_to_read)
    inside_lem e l u = ground arith

    outside_lem :
        (leb t.lba_to_read j && ltb j (t.lba_to_read + t.sectors_to_read)) ≡ false
        → 512 * j ≤ i
        → i < 512 * (j + 1)
        → overwrite dst (512 * t.lba_to_read) buf (t.sectors_to_read * 512) i ≡ dst i
    outside_lem e l u = ground arith

  outside_journal :
      (j : ℕ)
      → (leb t.lba_to_read j && ltb j (t.lba_to_read + t.sectors_to_read)) ≡ false
      → overwrite c.journal t.lba_to_read (λ _. sector_status t out) t.sectors_to_read j ≡ read_ok
      → c.journal j ≡ read_ok
  outside_journal j e m = ground arith

  -- The destination and the journal after the writes.
  files_IsCopied :
      (j : ℕ) (i : ℕ)
      → overwrite c.journal t.lba_to_read (λ _. sector_status t out) t.sectors_to_read j ≡ read_ok
      → 512 * j ≤ i
      → i < 512 * (j + 1)
      → (if out.error_flag
            then c.dst
            else overwrite c.dst (512 * t.lba_to_read) out.buf (t.sectors_to_read * 512))
          i
        ≡ src i
  unfolding sector_status
  files_IsCopied j i m l u = elim (Bool-cases out.error_flag) [
    | inl e ↦ rw e (w j (ground (arith, e, m)) i l u)
    | inr e ↦
        rw e (elim (Bool-cases (leb t.lba_to_read j && ltb j (t.lba_to_read + t.sectors_to_read))) [
          | inl inside ↦
              inside_lem c.dst out.buf j i inside l u
              ∙ act_lem src k p.api t (i - 512 * t.lba_to_read) f near one e (ground arith)
              ∙ ap src (ground arith)
          | inr outside ↦
              outside_lem c.dst out.buf j i outside l u ∙ w j (outside_journal j outside m) i l u
        ])
  ]

  abbrev recorded : CopyCtx
  recorded = record written {
    journal = overwrite written.journal t.lba_to_read (λ _. sector_status t out) t.sectors_to_read;
  }

  recorded-IsCopied : IsCopied src recorded
  recorded-IsCopied j m i l u = ap (λ (g : ℕ → ℕ). g i) written_lem.2 ∙ files_IsCopied j i same l u
    where
      same :
          overwrite c.journal t.lba_to_read (λ _. sector_status t out) t.sectors_to_read j ≡ read_ok
      same =
          ap
            (λ (g : ℕ → ℕ).
              overwrite g t.lba_to_read (λ _. sector_status t out) t.sectors_to_read j)
            (sym written_lem.1)
          ∙ m

  same_files :
      (x c' : CopyCtx) → c'.dst ≡ x.dst → c'.journal ≡ x.journal → IsCopied src x → IsCopied src c'
  same_files x c' d g z j m i l u =
      ap (λ (h : ℕ → ℕ). h i) d ∙ z j (ap (λ (h : ℕ → ℕ). h j) (sym g) ∙ m) i l u

  concluded-IsCopied :
      (c' : CopyCtx) (r : ℕ)
      → (write_journal k t out written >>= λ x. conclude t out x) ≡ some (c', r)
      → IsCopied src c'
  concluded-IsCopied c' r e =
      let h =
        subst (λ o. (o >>= λ x. conclude t out x) ≡ some (c', r))
          (write_on k t out written written_lem.0 (f.journals _ _)) e in
      let s = conclude_files t out recorded c' r h in
      same_files recorded c' s.0 s.1 recorded-IsCopied

  perform_task-IsCopied :
      (c' : CopyCtx) (r : ℕ) → perform_task k c p t ≡ some (c', r) → IsCopied src c'
  unfolding perform_task
  perform_task-IsCopied c' r e =
      elim (Bool-cases (
        not (p.dst_file_end_lba == 0)
        && ltb p.dst_file_end_lba (t.lba_to_read + t.sectors_to_read))) [
          | inl behind ↦
              let h = simp (behind, perform_task) at e in subst (IsCopied src) (same_first h) w
          | inr inside ↦ concluded-IsCopied c' r (simp (inside, perform_task) at e)
        ]

module _ (src : ℕ → ℕ) (k : Kernel) (f : IsFaithful src k) (c : CopyCtx) (ready : IsReady c)
    (uses : c.priv.use_journal ≡ true) (w : IsCopied src c) (more : c.progress.num < c.progress.den)
    (end : c.priv.end_lba ≤ 2 ^ 48) where
  -- The task is one block of the disk.
  abbrev IsNear : Answer → Type 0
  IsNear (given t) = (t.lba_to_read + t.sectors_to_read ≤ 2 ^ 48) × (t.sectors_to_read ≤ 256)
  IsNear refused = Unit {0}

  answer-IsCopied :
      (q : CopyPriv) (a : Answer) (c' : CopyCtx) (r : ℕ)
      → get_task c.priv ≡ some (q, a)
      → q.use_journal ≡ true
      → IsNear a
      → perform k c ≡ some (c', r)
      → IsCopied src c'
  unfolding perform
  answer-IsCopied q (given t) c' r g u (near, one) e =
      perform_task-IsCopied src k f c q t u w near one c' r (simp (g, perform) at e)
  answer-IsCopied q refused c' r g u near e =
      let h = simp (g, perform) at e in subst (IsCopied src) (same_first h) w

  result-IsCopied : (c' : CopyCtx) (r : ℕ) → perform k c ≡ some (c', r) → IsCopied src c'
  result-IsCopied c' r e = elim (Option-cases (get_task c.priv)) [
    | inl n ↦ absurd (subst (Gives c.priv) n gives)
    | inr ((q, a), g) ↦
        let h = subst (Gives c.priv) g gives in
        answer-IsCopied q a c' r g (kept q a h) (near_lem q a h) e
  ]
    where
      gives : Gives c.priv (get_task c.priv)
      gives = get_task-Gives c.priv ready.valid (unread_left c ready more)

      kept : (q : CopyPriv) (a : Answer) → Gives c.priv (some (q, a)) → q.use_journal ≡ true
      kept q (given t) g = g.0.settings.use_journal ∙ uses
      kept q refused g = g.0.settings.use_journal ∙ uses

      placed :
          (q : CopyPriv) (a : ℕ) (z : Zone)
          → find a q.unread_zones ≡ some z
          → IsValid q
          → z.end_lba ≤ q.end_lba
      placed q a z e v = ground (
        arith,
        find_in_order q.next_addr q.start_lba q.end_lba a q.unread_zones {z = z} v.ordered,
      )

      behind :
          (back : Bool) (z : Zone) (t : Task)
          → AtBorder back z t
          → t.sectors_to_read ≤ zone_length z
          → (m : ℕ) → z.end_lba ≤ m
          → m ≡ c.priv.end_lba
          → 0 < t.sectors_to_read
          → t.lba_to_read + t.sectors_to_read ≤ 2 ^ 48
      behind true z t b i m l e s = omega (arith, b, end)
      behind false z t b i m l e s = omega (arith, b, end)

      near_lem : (q : CopyPriv) (a : Answer) → Gives c.priv (some (q, a)) → IsNear a
      near_lem q refused g = tt
      near_lem q (given t) (g, o) = (
        behind q.current_zone_read_direction_reversive o.zone t o.border o.in_zone q.end_lba
            (placed q o.addr o.zone o.found g.valid) g.settings.end_lba o.some_sectors,
        o.one_block,
      )

  not_aborted : (o : Option (CopyCtx × ℕ)) → perform k c ≡ o → Advances c o → CopiedAfter src o
  not_aborted none e a = a
  not_aborted (some (c', r)) e a = result-IsCopied c' r e

  -- From a ready state with a journal and sectors left, on a disk of at most 2 ^ 48 sectors, and on a
  -- kernel that accepts every SG_IO request, hands out the source's bytes when it reports success and
  -- writes what it is asked to, `Perform` does not abort: if every sector that the journal marks as
  -- read is in the destination before the round, it is after it.
  pub perform-IsCopied : CopiedAfter src (perform k c)
  perform-IsCopied = not_aborted (perform k c) refl (perform-Advances k c ready f.journals more)
