-- ===== src/Copy/Open/Opened.antt =====
-- The state that `Open` of libdevcheck/copy.c leaves, and how it goes on where a run was interrupted.
use whdd_modify.Copy.Zones.Order.{total_bound}
use whdd_modify.Prelude.{
  ℕ, ◌*◌, ◌/◌, ◌^◌, ◌≤◌, ◌<◌, ◌≡◌, refl, ◌∙◌, ◌⊎◌, inl, inr, Bool, true, false, not, none, some,
  ◌==◌, ==_iff, if◌then◌else◌, arith, Bool-cases, ◌&&◌,
}
use whdd_modify.Procedure.{Api}
use whdd_modify.Copy.Zones.{covers, find}
use whdd_modify.Copy.State.{ReadStrategy}
use whdd_modify.Copy.Invariant.{is_skipfail, IsValid}
use whdd_modify.Copy.Perform.{CopyCtx}
use whdd_modify.Copy.Ready.{IsReady}
use whdd_modify.Copy.Journal.{Scan, fill_journal}
use whdd_modify.Copy.Journal.Resume.{Resumed, parse_journal-Resumed}
use whdd_modify.Copy.Journal.Fill.{fill_journal-zeros}
use whdd_modify.Copy.Open.{
  Options, Device, Files, System, Opening, refused, opened, is_ata, set_up, new_journal,
  old_journal, open_journal, open_files, open_copy,
}

-- The conditions under which `Open` has all that it needs.
pub record IsUsable (d : Device) (o : Options) (f : Files) (y : System) : Type 0 where
  pub api : Api
  pub read_strategy : ReadStrategy
  pub dst_size : ℕ
  pub known_api : o.api ≡ some api
  pub capable : is_ata api ≡ true → d.ata_capable ≡ true
  pub known_strategy : o.read_strategy ≡ some read_strategy
  pub jumps :
      (is_skipfail read_strategy ≡ false) ⊎ ((0 < o.skip_blocks) × (o.skip_blocks * 256 < 2 ^ 31))
  pub some_sectors : 0 < d.capacity / 512
  pub not_large : d.capacity / 512 < 2 ^ 54
  pub allocates : y.allocates ≡ true
  pub opens_src : y.opens_src ≡ true
  pub opens_dst : y.opens_dst ≡ true
  pub measured_dst : f.dst_size ≡ some dst_size
  pub stats_journal : y.stats_journal ≡ true
  pub opens_journal : y.opens_journal ≡ true
  pub reads : (i : ℕ) → y.reads i ≡ true
  pub fills : (i n : ℕ) → y.fills i n ≡ true
  pub right_size : (f.journal_size ≡ none) ⊎ (f.journal_size ≡ some (d.capacity / 512))

-- Whether sector k is to be read: all are, unless an old journal says otherwise.
abbrev pub to_read : Options → Files → ℕ → Bool
to_read o f k =
    if o.use_journal
    then elim (f.journal_size) [ none ↦ true | some _ ↦ f.journal k == 0 ]
    else true

-- What `Open` leaves.
pub record IsOpened (d : Device) (o : Options) (f : Files) (c : CopyCtx) : Type 0 where
  pub ready : IsReady c
  pub at_start : c.progress.num ≡ 0
  pub whole : c.priv.end_lba ≡ d.capacity / 512
  pub uses : c.priv.use_journal ≡ o.use_journal
  pub unread : (k : ℕ) → k < d.capacity / 512 → covers c.priv.unread_zones k ≡ to_read o f k

module _ (y : System) (f : Files) (c : CopyCtx) (stats : y.stats_journal ≡ true)
    (opens : y.opens_journal ≡ true) where
  takes_new :
      c.priv.use_journal ≡ true → f.journal_size ≡ none → open_journal y f c ≡ new_journal y c
  unfolding open_journal
  takes_new u e = simp (u, stats, opens, e, open_journal) refl

  takes_old :
      c.priv.use_journal ≡ true
      → f.journal_size ≡ some c.priv.end_lba
      → open_journal y f c ≡ old_journal y c
  unfolding open_journal
  takes_old u e =
      simp (u, stats, opens, e, open_journal, (==_iff c.priv.end_lba c.priv.end_lba).1 refl) refl

  takes_none : c.priv.use_journal ≡ false → open_journal y f c ≡ opened c
  unfolding open_journal
  takes_none u = simp (u, open_journal) refl

module _ (d : Device) (o : Options) (f : Files) (y : System) (h : IsUsable d o f y)
    (v : (k : ℕ) → k < d.capacity / 512 → f.journal k ≤ 3) where
  abbrev fresh : CopyCtx
  fresh = set_up d o f y h.api h.read_strategy h.dst_size

  fresh-IsValid : IsValid fresh.priv
  unfolding set_up find
  fresh-IsValid = record {
    ordered = (omega arith, h.some_sectors, omega arith, refl, omega arith);
    counted = refl;
    live = tt;
    forward = λ _. refl;
    jumps = h.jumps;
    memory = h.allocates;
  }

  unused : o.use_journal ≡ false → IsOpened d o f fresh
  unfolding set_up covers
  unused e = record {
    ready = record {
      valid = fresh-IsValid;
      measured = omega arith;
      small = omega (arith, h.not_large);
      recorded = λ u. absurd (clash e u);
      statuses = λ u. absurd (clash e u);
    };
    at_start = refl;
    whole = refl;
    uses = refl;
    unread = λ k l. ground (arith, e);
  }
    where
      clash : o.use_journal ≡ false → o.use_journal ≡ true → ⊥
      clash e u = cc

  abbrev filled_in : (ℕ → ℕ) → CopyCtx
  filled_in j = record fresh { journal = j }

  filled_lem :
      (j : ℕ → ℕ)
      → f.journal_size ≡ none
      → ((k : ℕ) → k < d.capacity / 512 → j k ≡ 0)
      → IsOpened d o f (filled_in j)
  unfolding set_up covers
  filled_lem j e z = record {
    ready = record {
      valid = record {
        ordered = fresh-IsValid.ordered;
        counted = fresh-IsValid.counted;
        live = fresh-IsValid.live;
        forward = fresh-IsValid.forward;
        jumps = fresh-IsValid.jumps;
        memory = fresh-IsValid.memory;
      };
      measured = omega arith;
      small = omega (arith, h.not_large);
      recorded = λ u k l. ground (arith, z k l);
      statuses = λ u k l. omega (arith, z k l);
    };
    at_start = refl;
    whole = refl;
    uses = refl;
    unread = λ k l. ground (arith, e);
  }

  abbrev resumed : Scan → CopyCtx
  resumed s = record fresh {
    priv = record (fresh.priv) {
      unread_zones = s.zones;
      nb_zones = s.nb_zones;
      next_addr = s.next_addr;
    };
    progress = record (fresh.progress) { den = s.den };
  }

  resumed_lem :
      (s : Scan) (n : ℕ)
      → f.journal_size ≡ some n
      → o.use_journal ≡ true
      → Resumed f.journal (d.capacity / 512) s
      → IsOpened d o f (resumed s)
  unfolding set_up
  resumed_lem s n e u r = record {
    ready = record {
      valid = record {
        ordered = r.ordered;
        counted = r.counted;
        live = tt;
        forward = λ _. refl;
        jumps = h.jumps;
        memory = h.allocates;
      };
      measured = omega (arith, r.measured);
      small = omega (
        arith,
        r.measured,
        h.not_large,
        total_bound s.next_addr 0 (d.capacity / 512) s.zones r.ordered,
      );
      recorded = λ _ k l. r.marked k l;
      statuses = λ _ k l. v k l;
    };
    at_start = refl;
    whole = refl;
    uses = refl;
    unread = λ k l. ground (arith, r.marked k l, e, u);
  }

  -- What `Open` comes to with a journal, by whether it exists.
  with_journal :
      o.use_journal ≡ true → (c : CopyCtx) × (open_journal y f fresh ≡ opened c) × IsOpened d o f c
  unfolding new_journal old_journal set_up
  with_journal u = elim h.right_size [
    | inl none_there ↦
        let (j, e, z) : (j : ℕ → ℕ) × (fill_journal y.fills (d.capacity / 512) (d.capacity / 512) 0
                f.journal
              ≡ some j)
            × ((k : ℕ) → k < d.capacity / 512 → j k ≡ 0) =
          fill_journal-zeros y.fills (d.capacity / 512) (d.capacity / 512) 0 f.journal h.fills
            (omega arith) (λ k l. absurd (omega arith)) in
        (
          filled_in j,
          takes_new y f fresh h.stats_journal h.opens_journal u none_there
              ∙ simp (e, new_journal) refl,
          filled_lem j none_there z,
        )
    | inr there ↦
        let (s, e, r) = parse_journal-Resumed y.reads f.journal (d.capacity / 512) 1 v h.reads in
        (
          resumed s,
          takes_old y f fresh h.stats_journal h.opens_journal u there ∙ simp (e, old_journal) refl,
          resumed_lem s (d.capacity / 512) there u r,
        )
  ]

  journal_opened : (c : CopyCtx) × (open_journal y f fresh ≡ opened c) × IsOpened d o f c
  unfolding set_up
  journal_opened = elim (Bool-cases o.use_journal) [
    | inl u ↦ with_journal u
    | inr n ↦ (fresh, takes_none y f fresh h.stats_journal h.opens_journal n, unused n)
  ]

  files_lem : open_files d o f y h.api h.read_strategy ≡ open_journal y f fresh
  unfolding open_files
  files_lem = simp (h.allocates, h.opens_src, h.opens_dst, h.measured_dst, open_files) refl

  open_lem : open_copy d o f y ≡ open_journal y f fresh
  unfolding open_copy
  open_lem = simp (h.known_api, h.known_strategy, open_copy) (capable_lem h.capable ∙ files_lem)
    where
      capable_lem :
          {x : Opening}
          → (is_ata h.api ≡ true → d.ata_capable ≡ true)
          → (if is_ata h.api && not d.ata_capable then refused else x) ≡ x
      capable_lem c = ground arith

  -- Where `Open` has all that it needs, with a skipfail strategy also a jump of some blocks that
  -- fits an int in sectors, and every byte of an old journal is a status, it succeeds. It leaves
  -- a ready state over the whole device, whose unread sectors are all sectors, or those that an
  -- old journal marks as unread where one is used.
  pub open_copy-IsOpened : (c : CopyCtx) × (open_copy d o f y ≡ opened c) × IsOpened d o f c
  open_copy-IsOpened = let (c, e, w) = journal_opened in (c, open_lem ∙ e, w)
