-- ===== src/Procedure.antt =====
-- libdevcheck/procedure.h: what every test procedure shares with the frontends.
pub mod Loop
pub mod Interrupt
pub mod Registry
pub mod Settings
use whdd_modify.Prelude.{ℕ, Bool, true, false}

pub data Api : Type 0 where
  ata posix : Api

pub data BlockStatus : Type 0 where
  ok error timeout unc idnf abrt amnf : BlockStatus

-- The status as the condition of an `if`: only `DC_BlockStatus_eOk` is 0.
abbrev pub failed : BlockStatus → Bool
failed BlockStatus.ok = false
failed BlockStatus.error = true
failed BlockStatus.timeout = true
failed BlockStatus.unc = true
failed BlockStatus.idnf = true
failed BlockStatus.abrt = true
failed BlockStatus.amnf = true

-- `DC_Rational`
pub record Progress : Type 0 where
  pub num : ℕ
  pub den : ℕ

pub record BlockReport : Type 0 where
  pub lba : ℕ
  pub sectors_processed : ℕ
  pub blk_access_time : ℕ
  pub blk_status : BlockStatus
