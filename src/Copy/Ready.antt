-- ===== src/Copy/Ready.antt =====
-- The state between two rounds of `Perform` in libdevcheck/copy.c, and what a round may do.
use whdd_modify.Prelude.{
  ℕ, ◌+◌, ◌^◌, ◌≤◌, ◌<◌, ◌≡◌, ◌⊎◌, Bool, true, not, ◌&&◌, Option, none, some, ◌==◌,
}
use whdd_modify.Copy.Zones.{total, within, covers}
use whdd_modify.Copy.State.{sectors_at_once}
use whdd_modify.Copy.Invariant.{IsValid, SameSettings}
use whdd_modify.Copy.Perform.{CopyCtx}

-- The state between two rounds. The journal, where there is one, marks as unread exactly the
-- sectors that are still to be read, and every byte of it is a status.
pub record IsReady (c : CopyCtx) : Type 0 where
  pub valid : IsValid c.priv
  pub measured : c.progress.num + total c.priv.unread_zones ≡ c.progress.den
  pub small : c.progress.den < 2 ^ 63
  pub recorded :
      c.priv.use_journal ≡ true
      → (k : ℕ) → k < c.priv.end_lba
      → covers c.priv.unread_zones k ≡ (c.journal k == 0)
  pub statuses : c.priv.use_journal ≡ true → (k : ℕ) → k < c.priv.end_lba → c.journal k ≤ 3

abbrev pub reported : CopyCtx → ℕ → Bool
reported c k = within c.report.lba (c.report.lba + c.report.sectors_processed) k

-- A round that has tried the sectors of its report.
pub record Tried (c c' : CopyCtx) : Type 0 where
  pub ready : IsReady c'
  pub was_unread : (k : ℕ) → reported c' k ≡ true → covers c.priv.unread_zones k ≡ true
  pub now_read :
      (k : ℕ)
      → covers c'.priv.unread_zones k ≡ (covers c.priv.unread_zones k && not (reported c' k))
  pub counted : c'.progress.num ≡ c.progress.num + c'.report.sectors_processed
  pub some_sectors : 0 < c'.report.sectors_processed
  pub one_block : c'.report.sectors_processed ≤ sectors_at_once
  pub same_den : c'.progress.den ≡ c.progress.den
  pub settings : SameSettings c.priv c'.priv

-- A round that has tried nothing.
pub record Stopped (c c' : CopyCtx) : Type 0 where
  pub ready : IsReady c'
  pub unchanged : (k : ℕ) → covers c'.priv.unread_zones k ≡ covers c.priv.unread_zones k
  pub same_progress : c'.progress ≡ c.progress
  pub settings : SameSettings c.priv c'.priv

abbrev pub Advances : CopyCtx → Option (CopyCtx × ℕ) → Type 0
Advances c none = ⊥
Advances c (some (c', ret)) = Tried c c' ⊎ (Stopped c c' × (ret ≡ 1))
