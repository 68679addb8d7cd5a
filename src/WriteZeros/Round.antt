-- ===== src/WriteZeros/Round.antt =====
-- A round of the zero filling in a state that `Open` or another round has left.
use whdd_modify.Prelude.{
  ℕ, ◌+◌, ◌-◌, ◌*◌, ◌^◌, ◌≤◌, ◌<◌, ◌≡◌, refl, inl, inr, true, false, Option, none, some, ltb,
  if◌then◌else◌, Option-cases, arith, ◌⊎◌, subst, sym, ◌∙◌,
}
use whdd_modify.Prelude.Words.{add64, sub64, mul64}
use whdd_modify.Procedure.{BlockStatus}
use whdd_modify.Copy.Zones.{within}
use whdd_modify.Copy.Perform.{overwrite, or_zero, is_exactly}
use whdd_modify.WriteZeros.{ZerosCtx, System, sectors_at_once, sectors_to_write, perform}

-- The LBA of the next block.
abbrev pub next_lba : ZerosCtx → ℕ
next_lba c = c.priv.start_lba + sectors_at_once * c.priv.blk_index

-- The LBA up to which all blocks have had their turn.
abbrev pub reached : ZerosCtx → ℕ
reached c = if ltb (next_lba c) c.priv.end_lba then next_lba c else c.priv.end_lba

-- The state between two rounds: the file offset is that of the next block.
pub record IsReady (c : ZerosCtx) : Type 0 where
  pub small : c.priv.end_lba < 2 ^ 54
  pub started : c.priv.start_lba ≤ c.priv.end_lba
  pub enough : c.priv.end_lba ≤ c.priv.start_lba + sectors_at_once * c.progress.den
  pub no_more :
      c.priv.start_lba + sectors_at_once * c.progress.den < c.priv.end_lba + sectors_at_once
  pub index : c.priv.blk_index ≡ c.progress.num
  pub in_bounds : c.progress.num ≤ c.progress.den
  pub left : c.progress.num < c.progress.den → next_lba c + c.priv.lba_to_process ≡ c.priv.end_lba
  pub none_left : c.progress.num ≡ c.progress.den → c.priv.lba_to_process ≡ 0
  pub synchronized : c.progress.num < c.progress.den → c.position ≡ 512 * next_lba c

-- What a round has done.
pub record Written (c c' : ZerosCtx) : Type 0 where
  pub ready : IsReady c'
  pub at_next : c'.report.lba ≡ next_lba c
  pub some_sectors : 0 < c'.report.sectors_processed
  pub one_block : c'.report.sectors_processed ≤ sectors_at_once
  pub from_reached : c'.report.lba ≡ reached c
  pub up_to : c'.report.lba + c'.report.sectors_processed ≡ reached c'
  pub on_device : c'.report.lba + c'.report.sectors_processed ≤ c.priv.end_lba
  pub counted : c'.progress.num ≡ c.progress.num + 1
  pub same_den : c'.progress.den ≡ c.progress.den
  pub same_range : (c'.priv.start_lba ≡ c.priv.start_lba) × (c'.priv.end_lba ≡ c.priv.end_lba)
  pub zeroed :
      c'.report.blk_status ≡ BlockStatus.ok
      → (k : ℕ)
      → c'.device k ≡ (
          if within (512 * c'.report.lba) (512 * (c'.report.lba + c'.report.sectors_processed)) k
          then 0
          else c.device k)
  pub others_same :
      (k : ℕ)
      → within (512 * c'.report.lba) (512 * (c'.report.lba + c'.report.sectors_processed)) k ≡ false
      → c'.device k ≡ c.device k

module _ (y : System) (c : ZerosCtx) (r : IsReady c)
    (bounded : (offset bytes n : ℕ) → y.write offset bytes ≡ some n → n ≤ bytes)
    (more : c.progress.num < c.progress.den) where
  abbrev sectors : ℕ
  sectors = sectors_to_write c.priv

  sectors_lem :
      (0 < sectors)
      × (sectors ≤ sectors_at_once)
      × (sectors ≤ c.priv.lba_to_process)
      × ((sectors ≡ sectors_at_once) ⊎ (sectors ≡ c.priv.lba_to_process))
      × (c.priv.lba_to_process < 2 ^ 54)
  unfolding sectors_to_write
  sectors_lem = ground (arith, r.left, r.small, r.enough, r.no_more, r.index)

  report_lem : add64 c.priv.start_lba (mul64 sectors_at_once c.priv.blk_index) ≡ next_lba c
  report_lem = omega (arith, sectors_lem, r.left, r.small)

  index_lem :
      (add64 c.progress.num 1 ≡ c.progress.num + 1)
      × (add64 c.priv.blk_index 1 ≡ c.progress.num + 1)
      × (sub64 c.priv.lba_to_process sectors ≡ c.priv.lba_to_process - sectors)
      × (next_lba c < 2 ^ 54)
  index_lem = omega (arith, sectors_lem, r.left, r.small, r.no_more, r.index)

  left_lem :
      c.progress.num + 1 < c.progress.den
      → next_lba c + sectors_at_once + (c.priv.lba_to_process - sectors) ≡ c.priv.end_lba
  left_lem m = omega (arith, sectors_lem, r.left, r.enough, r.no_more, r.index)

  none_left_lem : c.progress.num + 1 ≡ c.progress.den → c.priv.lba_to_process - sectors ≡ 0
  none_left_lem m = omega (arith, sectors_lem, r.left, r.enough, r.no_more, r.index)

  whole_lem : c.progress.num + 1 < c.progress.den → sectors ≡ sectors_at_once
  whole_lem m = omega (arith, sectors_lem, r.left, r.enough, r.no_more, r.index)

  up_to_lem :
      ((next_lba c + sectors ≡ next_lba c + sectors_at_once)
        × (next_lba c + sectors_at_once < c.priv.end_lba))
      ⊎ ((next_lba c + sectors ≡ c.priv.end_lba) × (c.priv.end_lba ≤ next_lba c + sectors_at_once))
  up_to_lem =
      ground (arith, sectors_lem, r.left more, left_lem, none_left_lem, whole_lem, r.in_bounds)

  abbrev ret : Option ℕ
  ret = y.write c.position (sectors * 512)

  not_none : (n : ℕ) → is_exactly none n ≡ true → ⊥
  not_none n h = cc

  zeroed_lem :
      is_exactly ret (sectors * 512) ≡ true
      → (k : ℕ)
      → overwrite c.device c.position (λ _. 0) (or_zero ret) k
        ≡ (if within (512 * next_lba c) (512 * (next_lba c + sectors)) k then 0 else c.device k)
  zeroed_lem good k = elim (Option-cases ret) [
    | inl e ↦
        absurd (not_none (sectors * 512) (subst (λ o. is_exactly o (sectors * 512) ≡ true) e good))
    | inr (n, e) ↦ rw e (
        ground
          (arith, r.synchronized more, subst (λ o. is_exactly o (sectors * 512) ≡ true) e good))
  ]

  others_lem :
      (k : ℕ)
      → within (512 * next_lba c) (512 * (next_lba c + sectors)) k ≡ false
      → overwrite c.device c.position (λ _. 0) (or_zero ret) k ≡ c.device k
  others_lem k out = elim (Option-cases ret) [
    | inl e ↦ rw e (ground arith)
    | inr (n, e) ↦ rw e (ground (arith, r.synchronized more, bounded _ _ n e))
  ]

  -- In a ready state with blocks left, a round writes to the sectors of the next block, which are on the
  -- device, whatever `write` returns (no more than it is asked for). Where it reports success these
  -- sectors are zero; no other byte changes; and the next block goes to its own place even
  -- after a block that failed.
  pub perform-Written : Written c (perform y c).0
  unfolding perform
  perform-Written = record {
    ready = record {
      small = r.small;
      started = r.started;
      enough = r.enough;
      no_more = r.no_more;
      index = omega (arith, r.index);
      in_bounds = omega arith;
      left = λ m. omega (arith, index_lem, left_lem (omega (arith, index_lem, m)), r.index);
      none_left = λ m. index_lem.2 ∙ none_left_lem (sym index_lem.0 ∙ m);
      synchronized = λ m. ground (
        arith,
        index_lem,
        whole_lem (omega (arith, index_lem, m)),
        r.synchronized more,
        r.index,
        r.small,
      );
    };
    at_next = report_lem;
    some_sectors = sectors_lem.0;
    one_block = sectors_lem.1;
    from_reached = report_lem ∙ ground (arith, r.left more, sectors_lem);
    up_to = ground (arith, report_lem, index_lem, up_to_lem, r.index, r.no_more);
    on_device = omega (arith, report_lem, r.left, sectors_lem);
    counted = index_lem.0;
    same_den = refl;
    same_range = (refl, refl);
    zeroed = λ g k. rw report_lem (zeroed_lem (ground arith) k);
    others_same = λ k out. others_lem k (rw⁻¹ report_lem out);
  }
