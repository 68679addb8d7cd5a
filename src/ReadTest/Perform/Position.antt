-- ===== src/ReadTest/Perform/Position.antt =====
-- Where the reads of the POSIX API take place, by `Perform` of libdevcheck/read_test.c.
use whdd_modify.Prelude.{
  ℕ, ◌+◌, ◌*◌, ◌^◌, ◌≤◌, ◌<◌, ◌≡◌, true, false, some, arith, Option-cases, inl, inr,
}
use whdd_modify.Procedure.{posix, failed}
use whdd_modify.ReadTest.Perform.{ReadPriv, ReadCtx, System, sectors_to_read, act, perform}
use whdd_modify.ReadTest.Perform.Round.{IsReady, sectors_lem, perform-Tried}

module _ (y : System) (p : ReadPriv) (sectors position : ℕ) (l : p.current_lba < 2 ^ 54)
    (w : position < 2 ^ 63) (few : sectors < 2 ^ 22)
    (bounded : (n : ℕ) → y.read position (sectors * 512) ≡ some n → n ≤ sectors * 512) where
  act_lem :
      p.api ≡ posix
      → let a = act y p sectors position in
        (failed a.0 ≡ false → a.2 ≡ position + sectors * 512)
        × (failed a.0 ≡ true → a.2 ≡ 512 * p.current_lba)
  unfolding act
  act_lem e = elim (Option-cases (y.read position (sectors * 512))) [
    | inl none_read ↦ simp (e, act, none_read) (λ h. cc, λ _. ground arith)
    | inr (n, some_read) ↦
        simp (e, act, some_read)
          (λ h. ground (arith, bounded n some_read), λ h. ground (arith, bounded n some_read))
  ]

module _ (y : System) (c : ReadCtx) (r : IsReady c) (e : c.priv.api ≡ posix)
    (few : c.priv.sectors_at_once < 2 ^ 22) (w : c.position < 2 ^ 63)
    (bounded : (offset bytes n : ℕ) → y.read offset bytes ≡ some n → n ≤ bytes)
    (works : y.realloc_works ≡ true) (more : c.progress.num < c.progress.den) where
  -- A round of the POSIX API in a ready state with rounds left, with fewer than 2 ^ 22 sectors at once
  -- and a file offset below 2 ^ 63, where `realloc` succeeds and the kernel reads no more than it is
  -- asked for: after a block that was read, the file offset has moved as far as the LBA that is
  -- reported next; after one that was not, the offset is that of the failed block again, while the LBA
  -- that is reported next is behind it.
  pub perform-position :
      let c' = (perform y c).0 in
      (failed c'.report.blk_status ≡ false
        → c'.position + 512 * c.priv.current_lba ≡ c.position + 512 * c'.priv.current_lba)
      × (failed c'.report.blk_status ≡ true
          → (c'.position ≡ 512 * c'.report.lba)
            × (c'.position + 512 * c'.report.sectors_processed ≡ 512 * c'.priv.current_lba))
  unfolding perform
  perform-position =
      let s = sectors_lem y c r more in
      let t = perform-Tried y c r works more in
      let a =
        act_lem y c.priv (sectors_to_read c.priv) c.position (omega (arith, r.left, r.small)) w
          (omega (arith, s.1, few)) (λ n. bounded c.position (sectors_to_read c.priv * 512) n) e in
      (λ h. omega (arith, a.0 h, t.moved), λ h. (a.1 h, omega (arith, a.1 h, t.moved)))
