-- ===== src/ReadTest/Open/Guards.antt =====
-- What `Open` of libdevcheck/read_test.c accepts, and the state that it leaves.
use whdd_modify.Prelude.{
  ℕ, ◌+◌, ◌-◌, ◌*◌, ◌/◌, ◌%◌, ◌^◌, ◌≤◌, ◌<◌, ◌≡◌, refl, inl, inr, Bool, true, false, Option, none,
  some, ◌==◌, if◌then◌else◌, arith, Bool-cases, Option-cases, subst, zero, suc, sym,
}
use whdd_modify.Prelude.Words.{sub64}
use native.Mathlib.Nat.{mod-lt, mod-add-div'}
use whdd_modify.Procedure.{Api}
use whdd_modify.ReadTest.Perform.{ReadCtx}
use whdd_modify.ReadTest.Perform.Round.{IsReady}
use whdd_modify.ReadTest.Stats.{dc_get_vis_thresholds}
use whdd_modify.ReadTest.Open.{Options, Device, is_ata, set_up, open_read_test}

-- The conditions under which a scan can be made.
pub record Accepts (d : Device) (o : Options) (allocates opens : Bool) (api : Api) : Type 0 where
  pub known : o.api ≡ some api
  pub capable : (is_ata api ≡ true) → d.ata_capable ≡ true
  pub at_once : 0 < o.sectors_at_once
  pub not_empty : o.start_lba < o.end_lba
  pub on_device : o.end_lba ≤ d.capacity / 512
  pub buffer : (is_ata api ≡ false) → allocates ≡ true
  pub opened : opens ≡ true

-- `Open` refuses only what does not meet the conditions, and else leaves a state to scan from the
-- start, with a block for all sectors.
abbrev pub Opened : Device → Options → Bool → Bool → Option ReadCtx → Type 0
Opened d o a b none = (api : Api) → Accepts d o a b api → ⊥
Opened d o a b (some c) =
    Accepts d o a b c.priv.api
    × IsReady c
    × (c.priv.current_lba ≡ o.start_lba)
    × (c.priv.end_lba ≡ o.end_lba)
    × (c.progress.num ≡ 0)
    × (c.position ≡ 512 * o.start_lba)

minus_zero : (n : ℕ) → n ≡ n - 0
minus_zero n = omega arith

last_whole : (q n s : ℕ) → 0 < s → 0 < n → q * s ≡ n → (q + 0 - 1) * s < n
last_whole zero n s p l e = ground arith
last_whole (suc q) n s p l e = subst (λ m. m * s < n) same (grind arith)
  where
    same : q ≡ suc q + 0 - 1
    same = omega arith

one_less : (q : ℕ) → q ≡ q + 1 - 1
one_less q = omega arith

rounded_up :
    (n q r s : ℕ)
    → 0 < s
    → 0 < n
    → r < s
    → r + q * s ≡ n
    → let den = q + (if r == 0 then 0 else 1) in (n ≤ den * s) × ((den - 1) * s < n) × (den ≤ n)
rounded_up n q r s p l b e = elim (Bool-cases (r == 0)) [
  | inl whole ↦ rw whole (grind arith, last_whole q n s p l (ground (arith, e)), grind arith)
  | inr short ↦
      rw short (grind arith, subst (λ m. m * s < n) (one_less q) (ground (arith, e)), grind arith)
]

-- The number of blocks for some sectors, rounded up.
blocks_lem :
    (n s : ℕ)
    → 0 < s
    → 0 < n
    → let den = n / s + (if n % s == 0 then 0 else 1) in
      (n ≤ den * s) × ((den - 1) * s < n) × (den ≤ n)
blocks_lem n s p q = rounded_up n (n / s) (n % s) s p q (mod-lt n p) (mod-add-div' n s)

set_up-IsReady :
    (api : Api) (o : Options)
    → 0 < o.sectors_at_once
    → o.sectors_at_once < 2 ^ 31
    → o.start_lba < o.end_lba
    → o.end_lba < 2 ^ 54
    → IsReady (set_up api o)
unfolding set_up dc_get_vis_thresholds
set_up-IsReady api o p q l b = record {
  at_once = p;
  at_once_small = q;
  left = omega arith;
  small = b;
  started = omega arith;
  rounds_left = subst (λ d. to_process ≤ d * o.sectors_at_once) (minus_zero _) blocks.0;
  last_round = λ _. subst (λ d. (d - 1) * o.sectors_at_once < to_process) (minus_zero _) blocks.1;
  in_bounds = omega arith;
  few_rounds = omega (arith, blocks.2);
  counted = record {
    tiers = refl;
    errors = refl;
    all_blocks = refl;
    bad_blocks = refl;
    small = omega arith;
  };
  processed = refl;
  chained = record {
    lo = 0;
    prev = 0;
    chain = (refl, refl);
    below = omega arith;
    open_next = λ z. absurd (z refl);
    open_below = λ z. absurd (z refl);
    gap = λ _. inl refl;
  };
}
  where
    to_process : ℕ
    to_process = sub64 o.end_lba o.start_lba

    blocks :
        let n = sub64 o.end_lba o.start_lba in
        let den = n / o.sectors_at_once + (if n % o.sectors_at_once == 0 then 0 else 1) in
        (n ≤ den * o.sectors_at_once) × ((den - 1) * o.sectors_at_once < n) × (den ≤ n)
    blocks = blocks_lem (sub64 o.end_lba o.start_lba) o.sectors_at_once p (omega arith)

module _ (d : Device) (o : Options) (allocates opens : Bool) (c : d.capacity / 512 < 2 ^ 54)
    (s : o.start_lba < 2 ^ 63) (e : o.end_lba < 2 ^ 63) (q : o.sectors_at_once < 2 ^ 31) where
  accepts_lem :
      (api : Api)
      → Accepts d o allocates opens api
      → open_read_test d o allocates opens ≡ some (set_up api o)
  unfolding open_read_test
  accepts_lem api h =
      simp (h.known, open_read_test, h.opened)
        (ground (arith, h.capable, h.at_once, h.not_empty, h.on_device, h.buffer))

  accepted_lem :
      (api : Api) (r : ReadCtx)
      → o.api ≡ some api
      → open_read_test d o allocates opens ≡ some r
      → Accepts d o allocates opens api × (r ≡ set_up api o)
  unfolding open_read_test
  accepted_lem api r k h =
      let h' = simp (k, open_read_test) at h in
      (
        record {
          known = k;
          capable = ground arith;
          at_once = ground arith;
          not_empty = ground arith;
          on_device = ground arith;
          buffer = ground arith;
          opened = ground arith;
        },
        ground arith,
      )

  position_lem : o.start_lba < 2 ^ 54 → (api : Api) → (set_up api o).position ≡ 512 * o.start_lba
  unfolding set_up
  position_lem l api = ground arith

  set_up_lem :
      (api : Api)
      → Accepts d o allocates opens api
      → Opened d o allocates opens (some (set_up api o))
  unfolding set_up
  set_up_lem api a = (
    a,
    set_up-IsReady api o a.at_once q a.not_empty (omega (arith, a.on_device)),
    refl,
    refl,
    refl,
    position_lem (omega (arith, a.not_empty, a.on_device)) api,
  )

  opened_lem :
      (api : Api)
      → o.api ≡ some api
      → (r : ReadCtx) → open_read_test d o allocates opens ≡ some r
      → Opened d o allocates opens (some r)
  opened_lem api k r h =
      let (a, w) = accepted_lem api r k h in
      subst (λ r. Opened d o allocates opens (some r)) (sym w) (set_up_lem api a)

  unknown : {x : ReadCtx} → o.api ≡ none → open_read_test d o allocates opens ≡ some x → ⊥
  unfolding open_read_test
  unknown u e = let h = simp (u, open_read_test) at e in cc

  -- For a device of less than 2 ^ 54 sectors, LBAs that are not negative, and fewer than 2 ^ 31
  -- sectors at once: `Open` succeeds exactly where the API is known and the device has it, there is
  -- a sector to read in each block and in the whole, all sectors are on the device, and the buffer
  -- and the device are to be had. Then it leaves a ready state at the start LBA.
  pub open_read_test-Opened : Opened d o allocates opens (open_read_test d o allocates opens)
  open_read_test-Opened = elim (Option-cases (open_read_test d o allocates opens)) [
    | inl e ↦ subst (Opened d o allocates opens) (sym e) (λ api h. refused (accepts_lem api h) e)
    | inr (r, e) ↦ elim (Option-cases o.api) [
      | inl u ↦ absurd (unknown u e)
      | inr (api, k) ↦ subst (Opened d o allocates opens) (sym e) (opened_lem api k r e)
    ]
  ]
    where
      refused :
          {x : ReadCtx}
          → open_read_test d o allocates opens ≡ some x
          → open_read_test d o allocates opens ≡ none
          → ⊥
      refused h e = cc
