-- ===== src/WriteZeros/Open.antt =====
-- `Open` of libdevcheck/posix_write_zeros.c.
use whdd_modify.Prelude.{
  ℕ, ◌/◌, ◌^◌, ◌≤◌, ◌<◌, ◌≡◌, refl, Bool, true, false, ◌&&◌, Option, none, some, arith,
}
use whdd_modify.WriteZeros.{ZerosCtx, sectors_to_write, open_write_zeros}
use whdd_modify.WriteZeros.Round.{IsReady}

-- What `Open` leaves: a ready state for a start LBA on the device. It does not refuse another one; then
-- the first write would be of 2 ^ 63 sectors or more.
abbrev pub Opened : ℕ → ℕ → (ℕ → ℕ) → Bool → Option ZerosCtx → Type 0
Opened capacity start_lba device possible none = possible ≡ false
Opened capacity start_lba device possible (some c) =
    (possible ≡ true)
    × (start_lba ≤ capacity / 512
        → IsReady c
          × (c.progress.num ≡ 0)
          × (c.priv.start_lba ≡ start_lba)
          × (c.priv.end_lba ≡ capacity / 512)
          × ((k : ℕ) → c.device k ≡ device k))
    × (capacity / 512 < start_lba → 2 ^ 63 ≤ sectors_to_write c.priv)

-- For a device of less than 2 ^ 54 sectors and a start LBA that is not negative: `Open` succeeds
-- where the buffer and the device are to be had. For a start LBA up to the end of the device it
-- leaves a ready state with nothing written; for one behind the end, a state in which the first
-- write is of 2 ^ 63 sectors or more.
pub open_write_zeros-Opened :
    (capacity start_lba : ℕ) (device : ℕ → ℕ) (allocates opens : Bool)
    → capacity / 512 < 2 ^ 54
    → start_lba < 2 ^ 63
    → Opened capacity start_lba device
        (allocates && opens)
        (open_write_zeros capacity start_lba device allocates opens)
unfolding open_write_zeros sectors_to_write
open_write_zeros-Opened capacity start_lba device false opens c s = refl
open_write_zeros-Opened capacity start_lba device true false c s = refl
open_write_zeros-Opened capacity start_lba device true true c s = (
  refl,
  λ l. (
    record {
      small = c;
      started = l;
      enough = ground arith;
      no_more = ground arith;
      index = refl;
      in_bounds = omega arith;
      left = λ m. ground arith;
      none_left = λ z. ground arith;
      synchronized = λ m. ground arith;
    },
    refl,
    refl,
    refl,
    λ k. refl,
  ),
  λ behind. ground arith,
)
