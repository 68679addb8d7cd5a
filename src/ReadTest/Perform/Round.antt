-- ===== src/ReadTest/Perform/Round.antt =====
-- A round of the read test in a state that `Open` or another round has left.
use whdd_modify.Prelude.{
  ℕ, ◌+◌, ◌-◌, ◌*◌, ◌^◌, ◌≤◌, ◌<◌, ◌≡◌, ◌≢◌, refl, sym, ◌∙◌, ap, true, if◌then◌else◌, arith, subst,
}
use whdd_modify.Prelude.Words.{add64, sub64, slt64-eq-ltb}
use whdd_modify.Procedure.{BlockStatus, BlockReport}
use whdd_modify.Copy.Zones.{within}
use whdd_modify.ReadTest.Intervals.{dg_interval_update}
use whdd_modify.ReadTest.Intervals.Marks.{mark, IsChain, Marks, dg_interval_update-Marks}
use whdd_modify.ReadTest.Stats.{Stats, defect_type, accumulate, last_lba}
use whdd_modify.ReadTest.Stats.Tiers.{IsCounted, Adds, accumulate-IsCounted}
use whdd_modify.ReadTest.Perform.{ReadCtx, System, sectors_to_read, report_of, act, perform}
use whdd_modify.ReadTest.Perform.Request.{Requested, act-Requested}

-- The state between two rounds. `progress` counts blocks, of which the last may be a short one.
pub record IsReady (c : ReadCtx) : Type 0 where
  pub at_once : 0 < c.priv.sectors_at_once
  pub at_once_small : c.priv.sectors_at_once < 2 ^ 31
  pub left : c.priv.current_lba + c.priv.lba_to_process ≡ c.priv.end_lba
  pub small : c.priv.end_lba < 2 ^ 54
  pub started : c.priv.start_lba ≤ c.priv.current_lba
  pub rounds_left :
      c.priv.lba_to_process ≤ (c.progress.den - c.progress.num) * c.priv.sectors_at_once
  pub last_round :
      c.progress.num < c.progress.den
      → (c.progress.den - c.progress.num - 1) * c.priv.sectors_at_once < c.priv.lba_to_process
  pub in_bounds : c.progress.num ≤ c.progress.den
  pub few_rounds : c.progress.den < 2 ^ 54
  pub counted : IsCounted c.priv.stats
  pub processed : c.priv.stats.blocks_processed ≡ c.progress.num
  pub chained : IsChain c.priv.current_lba c.priv.intervals

-- What a round has done: it has asked for the next sectors, counted the answer, and marked them by it.
pub record Tried (y : System) (c c' : ReadCtx) : Type 0 where
  pub ready : IsReady c'
  pub at_current : c'.report.lba ≡ c.priv.current_lba
  pub asked :
      Requested c.priv.api y c.position c.priv.current_lba c'.report.sectors_processed
        c'.report.blk_status
  pub adds : Adds c.priv.stats c'.report c'.priv.stats
  pub moved : c'.priv.current_lba ≡ c.priv.current_lba + c'.report.sectors_processed
  pub some_sectors : 0 < c'.report.sectors_processed
  pub one_block : c'.report.sectors_processed ≤ c.priv.sectors_at_once
  pub same_end : c'.priv.end_lba ≡ c.priv.end_lba
  pub same_api : c'.priv.api ≡ c.priv.api
  pub same_at_once : c'.priv.sectors_at_once ≡ c.priv.sectors_at_once
  pub same_thresholds : c'.priv.stats.vis_thresholds ≡ c.priv.stats.vis_thresholds
  pub same_den : c'.progress.den ≡ c.progress.den
  pub counted : c'.progress.num ≡ c.progress.num + 1
  pub marks :
      (k : ℕ)
      → mark c'.priv.intervals k ≡ (
          if within c'.report.lba (c'.report.lba + c'.report.sectors_processed) k
          then defect_type c.priv.stats.vis_thresholds c'.report
          else mark c.priv.intervals k)

left_bound :
    (m lba at_once sectors : ℕ)
    → lba ≤ (m + 1) * at_once
    → sectors ≤ at_once
    → sectors ≤ lba
    → (sectors ≢ at_once → sectors ≡ lba)
    → lba - sectors ≤ m * at_once
left_bound m lba at_once sectors u s t e = grind arith

still_left :
    (m lba at_once sectors : ℕ)
    → (m + 1) * at_once < lba
    → sectors ≤ at_once
    → sectors ≤ lba
    → (sectors ≢ at_once → sectors ≡ lba)
    → m * at_once < lba - sectors
still_left m lba at_once sectors l s t e = grind arith

-- What the counts of rounds come to after one.
round_lem :
    (den num lba at_once sectors : ℕ)
    → num < den
    → lba ≤ (den - num) * at_once
    → (den - num - 1) * at_once < lba
    → sectors ≤ at_once
    → sectors ≤ lba
    → (sectors ≢ at_once → sectors ≡ lba)
    → (lba - sectors ≤ (den - (num + 1)) * at_once)
      × (num + 1 < den → (den - (num + 1) - 1) * at_once < lba - sectors)
round_lem den num lba at_once sectors m u l s t e = (
  left_bound (den - (num + 1)) lba at_once sectors (subst (λ x. lba ≤ x * at_once) this u) s t e,
  λ more.
      still_left (den - (num + 1) - 1) lba at_once sectors
        (subst (λ x. x * at_once < lba) (next more) l) s t e,
)
  where
    this : den - num ≡ den - (num + 1) + 1
    this = omega arith

    next : num + 1 < den → den - num - 1 ≡ den - (num + 1) - 1 + 1
    next more = omega arith

thresholds_lem : (s : Stats) (r : BlockReport) → (accumulate s r).vis_thresholds ≡ s.vis_thresholds
unfolding accumulate
thresholds_lem s r = ground arith

module _ (y : System) (c : ReadCtx) (r : IsReady c) where
  abbrev sectors : ℕ
  sectors = sectors_to_read c.priv

  pub sectors_lem :
      c.progress.num < c.progress.den
      → (0 < sectors)
        × (sectors ≤ c.priv.sectors_at_once)
        × (sectors ≤ c.priv.lba_to_process)
        × (sectors ≢ c.priv.sectors_at_once → sectors ≡ c.priv.lba_to_process)
  unfolding sectors_to_read
  sectors_lem more = ground (
    arith,
    slt64-eq-ltb c.priv.lba_to_process c.priv.sectors_at_once,
    r.at_once,
    r.at_once_small,
    r.left,
    r.small,
    r.last_round,
  )

  module _ (works : y.realloc_works ≡ true) (more : c.progress.num < c.progress.den) where
    abbrev answer : BlockStatus × ℕ × ℕ
    answer = act y c.priv sectors c.position

    abbrev report : BlockReport
    report = report_of y c.priv sectors answer.0

    abbrev type : ℕ
    type = defect_type c.priv.stats.vis_thresholds report

    last_lem : last_lba report + 1 ≡ c.priv.current_lba + sectors
    last_lem = omega (arith, sectors_lem more, r.left, r.small)

    moved_lem : add64 c.priv.current_lba sectors ≡ c.priv.current_lba + sectors
    moved_lem = omega (arith, sectors_lem more, r.left, r.small)

    left_lem : sub64 c.priv.lba_to_process sectors ≡ c.priv.lba_to_process - sectors
    left_lem = omega (arith, sectors_lem more, r.left, r.small)

    num_lem : add64 c.progress.num 1 ≡ c.progress.num + 1
    num_lem = omega (arith, r.few_rounds)

    updated :
        (k : ℕ)
        → Marks c.priv.intervals c.priv.current_lba (last_lba report) type k (
            dg_interval_update y.realloc_works c.priv.intervals c.priv.current_lba
              (last_lba report)
              type)
    updated k =
        subst
          (λ b.
            Marks c.priv.intervals c.priv.current_lba (last_lba report) type k
              (dg_interval_update b c.priv.intervals c.priv.current_lba (last_lba report) type))
          (sym works)
          (dg_interval_update-Marks c.priv.intervals c.priv.current_lba c.priv.current_lba
            (last_lba report) type k r.chained (omega arith)
            (omega (arith, last_lem, sectors_lem more))
            (omega (arith, last_lem, sectors_lem more, r.left, r.small)))

    rounds :
        (c.priv.lba_to_process - sectors
          ≤ (c.progress.den - (c.progress.num + 1)) * c.priv.sectors_at_once)
        × (c.progress.num + 1 < c.progress.den
            → (c.progress.den - (c.progress.num + 1) - 1) * c.priv.sectors_at_once
              < c.priv.lba_to_process - sectors)
    rounds =
        let s = sectors_lem more in
        round_lem c.progress.den c.progress.num c.priv.lba_to_process c.priv.sectors_at_once sectors
          more r.rounds_left (r.last_round more) s.1 s.2 s.3

    block-IsCounted :
        IsCounted (accumulate c.priv.stats report)
        × Adds c.priv.stats report (accumulate c.priv.stats report)
    block-IsCounted =
        accumulate-IsCounted c.priv.stats report r.counted
          (omega (arith, r.processed, r.few_rounds))

    -- In a ready state with rounds left, and where `realloc` succeeds, a round reports on exactly the
    -- next sectors, between 1 and `sectors_at_once`, whatever the device answers. The status is by the
    -- answer to the request it makes: by the ATA API a READ VERIFY EXT of these sectors, as far as 48
    -- bits of LBA and 16 of count tell; by the POSIX API a read of so many sectors at the file offset,
    -- which is good if the number of bytes is that asked for, on 32 bits. The block is counted once, in
    -- the one counter for it; exactly its sectors get its defect type; and the state stays ready.
    pub perform-Tried : Tried y c (perform y c).0
    unfolding perform
    perform-Tried = record {
      ready = record {
        at_once = r.at_once;
        at_once_small = r.at_once_small;
        left = omega (arith, sectors_lem more, r.left, r.small);
        small = r.small;
        started = omega (arith, sectors_lem more, r.left, r.small, r.started);
        rounds_left = rw (left_lem, num_lem) rounds.0;
        last_round = rw (left_lem, num_lem) rounds.1;
        in_bounds = omega (arith, r.few_rounds);
        few_rounds = r.few_rounds;
        counted = block-IsCounted.0;
        processed = block-IsCounted.1.blocks ∙ omega (arith, r.processed, num_lem);
        chained =
            subst (λ n. IsChain n (perform y c).0.priv.intervals) (last_lem ∙ sym moved_lem)
              (updated 0).0;
      };
      at_current = refl;
      moved = omega (arith, sectors_lem more, r.left, r.small);
      some_sectors = (sectors_lem more).0;
      one_block = (sectors_lem more).1;
      asked = act-Requested y c.priv sectors c.position;
      adds = block-IsCounted.1;
      same_api = refl;
      same_at_once = refl;
      same_thresholds = thresholds_lem c.priv.stats report;
      same_end = refl;
      same_den = refl;
      counted = omega (arith, r.few_rounds);
      marks = λ k.
          (updated k).1
          ∙ ap (λ e. if within c.priv.current_lba e k then type else mark c.priv.intervals k)
              last_lem;
    }
