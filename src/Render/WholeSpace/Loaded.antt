-- ===== src/Render/WholeSpace/Loaded.antt =====
-- What the renderer of cui/whole_space_renderer.c takes from the journal of a copy.
use whdd_modify.Prelude.{
  ℕ, zero, suc, ◌+◌, ◌-◌, ◌*◌, ◌/◌, ◌%◌, ◌^◌, ◌<◌, ◌≤◌, ◌≡◌, ◌≢◌, refl, sym, ◌∙◌, ap, subst, true,
  false, some, List, [], ◌∷◌, inl, inr, arith, ltb, ◌==◌, ◌||◌, if◌then◌else◌, Bool-cases,
}
use whdd_modify.Render.WholeSpace.{
  Reading, Journal, fetch, count_block, sectors_in_block, read_blocks, chunk_size,
}

abbrev pub counted : Reading → ℕ
counted s = s.unread_count + s.read_ok_count + s.errors_count

-- The journal's bytes of some blocks of 256 sectors, from block i on.
pub blocks_from : (ℕ → ℕ) → ℕ → ℕ → List ℕ
blocks_from file zero i = []
blocks_from file (suc left) i = file (i * 256) ∷ blocks_from file left (i + 1)

count_block-counted :
    (status sectors : ℕ) (s : Reading)
    → status < 4
    → counted s + sectors < 2 ^ 64
    → (counted (count_block status sectors s) ≡ counted s + sectors)
      × ((count_block status sectors s).statuses ≡ s.statuses)
      × ((count_block status sectors s).position ≡ s.position)
      × ((count_block status sectors s).journal_chunk ≡ s.journal_chunk)
unfolding count_block
count_block-counted status sectors s l b = elim (Bool-cases (status == 0)) [
  | inl e ↦ rw e (omega arith, refl, refl, refl)
  | inr e ↦ rw e (elim (Bool-cases (status == 1)) [
    | inl f ↦ rw f (omega arith, refl, refl, refl)
    | inr f ↦ rw f (elim (Bool-cases (status == 2 || status == 3)) [
      | inl g ↦ rw g (omega arith, refl, refl, refl)
      | inr g ↦ absurd (ground arith)
    ])
  ])
]

-- The sectors of the blocks that are left, if the last one has so many.
abbrev pub sectors_left : ℕ → ℕ → ℕ
sectors_left last zero = 0
sectors_left last (suc left) = left * 256 + last

-- The file `journal` of a copy with blocks of 256 sectors, all of which begin before the end.
pub record IsJournal (j : Journal) (file : ℕ → ℕ) : Type 0 where
  pub blocks : j.sectors_per_block ≡ 256
  pub inside : (i : ℕ) → i < j.nb_blocks → i * 256 < j.end_lba
  pub reads : (p n : ℕ) → j.read p n ≡ some (λ k. file (p + k))
  pub statuses : (i : ℕ) → file i < 4
  pub last : j.sectors_in_last ≤ 256
  pub few : j.nb_blocks < 2 ^ 48

-- The file's position and the chunk in memory before block i.
pub record At (j : Journal) (file : ℕ → ℕ) (i : ℕ) (s : Reading) : Type 0 where
  pub due : i % 4096 ≡ 0 → i < j.nb_blocks → s.position ≡ i * 256
  pub chunk : i % 4096 ≢ 0 → (k : ℕ) → s.journal_chunk k ≡ file (i / 4096 * 2 ^ 20 + k)
  pub next :
      i % 4096 ≢ 0 → (i / 4096 + 1) * 2 ^ 20 ≤ j.end_lba → s.position ≡ (i / 4096 + 1) * 2 ^ 20

-- The same after the chunk of block i is there.
record Fetched (j : Journal) (file : ℕ → ℕ) (i : ℕ) (s t : Reading) : Type 0 where
  chunk : (k : ℕ) → t.journal_chunk k ≡ file (i / 4096 * 2 ^ 20 + k)
  next : (i / 4096 + 1) * 2 ^ 20 ≤ j.end_lba → t.position ≡ (i / 4096 + 1) * 2 ^ 20
  same : counted t ≡ counted s
  statuses : t.statuses ≡ s.statuses

module _ (j : Journal) (file : ℕ → ℕ) (o : IsJournal j file) where
  fetch-Fetched :
      (i : ℕ) (s : Reading)
      → i < j.nb_blocks
      → At j file i s
      → (t : Reading) × (fetch j (i * 256) s ≡ some t) × Fetched j file i s t
  unfolding fetch
  fetch-Fetched i s l a = elim (Bool-cases (i * 256 % chunk_size == 0)) [
    | inl due ↦
        let there = a.due (ground arith) l in
        let n = if ltb (j.end_lba - i * 256) chunk_size then j.end_lba - i * 256 else chunk_size in
        let t = record s {
          position = s.position + n;
          journal_chunk = λ k. file (s.position + k);
        } in
        (
          t,
          rw (due, o.reads s.position n, fetch) refl,
          record {
            chunk = λ k. ap file (start i s.position k (ground arith) there);
            next = λ e. length_of i s.position j.end_lba (ground arith) there e;
            same = refl;
            statuses = refl;
          },
        )
    | inr old ↦ (
      s,
      rw (old, fetch) refl,
      record {
        chunk = a.chunk (ground arith);
        next = a.next (ground arith);
        same = refl;
        statuses = refl;
      },
    )
  ]
    where
      start : (i p k : ℕ) → i * 256 % chunk_size ≡ 0 → p ≡ i * 256 → p + k ≡ i / 4096 * 2 ^ 20 + k
      start i p k d h = omega arith

      length_of :
          (i p e : ℕ)
          → i * 256 % chunk_size ≡ 0
          → p ≡ i * 256
          → (i / 4096 + 1) * 2 ^ 20 ≤ e
          → p + (if ltb (e - i * 256) chunk_size then e - i * 256 else chunk_size)
            ≡ (i / 4096 + 1) * 2 ^ 20
      length_of i p e d h g = ground arith

  -- Before the next block.
  At-suc :
      (i : ℕ) (s t u : Reading)
      → i < j.nb_blocks
      → Fetched j file i s t
      → u.position ≡ t.position
      → u.journal_chunk ≡ t.journal_chunk
      → At j file (i + 1) u
  At-suc i s t u l f p c = record {
    due = λ d m. let inside = o.inside (i + 1) m in p ∙ f.next (omega arith) ∙ omega arith;
    chunk = λ d k.
        let same : i / 4096 * 2 ^ 20 + k ≡ (i + 1) / 4096 * 2 ^ 20 + k = omega arith in
        ap (λ (g : ℕ → ℕ). g k) c ∙ f.chunk k ∙ ap file same;
    next = λ d m. p ∙ f.next (omega arith) ∙ omega arith;
  }

  -- The first of the blocks that are left, and the others.
  block_sectors :
      (left i : ℕ)
      → i + suc left ≡ j.nb_blocks
      → sectors_in_block j i + sectors_left j.sectors_in_last left
        ≡ sectors_left j.sectors_in_last (suc left)
  block_sectors zero i e =
      let only : (i + 1 == j.nb_blocks) ≡ true = ground arith in rw only (omega arith)
  block_sectors (suc left) i e =
      let more : (i + 1 == j.nb_blocks) ≡ false = ground arith in
      let size = o.blocks in rw more (omega arith)

  -- A round that goes well, for blocks of n sectors.
  abbrev RoundGoes : ℕ → ℕ → Reading → Reading → Reading → ℕ → Type 0
  RoundGoes left i s t u n =
      fetch j (i * n) s ≡ some t
      → read_blocks j left (i + 1)
          (count_block (t.journal_chunk (i * n % chunk_size)) (sectors_in_block j i) t)
        ≡ some u
      → read_blocks j (suc left) i s
        ≡ some (record u { statuses = t.journal_chunk (i * n % chunk_size) ∷ u.statuses })

  own_step : (left i : ℕ) (s t u : Reading) → RoundGoes left i s t u j.sectors_per_block
  unfolding read_blocks
  own_step left i s t u e r = rw (e, r, read_blocks) refl

  read_step : (left i : ℕ) (s t u : Reading) → RoundGoes left i s t u 256
  read_step left i s t u = subst (RoundGoes left i s t u) o.blocks (own_step left i s t u)

  pub read_blocks-IsLoaded :
      (left i : ℕ) (s : Reading)
      → i + left ≡ j.nb_blocks
      → At j file i s
      → s.statuses ≡ []
      → counted s + sectors_left j.sectors_in_last left < 2 ^ 64
      → (u : Reading) × (read_blocks j left i s ≡ some u)
        × (u.statuses ≡ blocks_from file left i)
        × (counted u ≡ counted s + sectors_left j.sectors_in_last left)
  unfolding read_blocks blocks_from
  read_blocks-IsLoaded zero i s e a n b = (s, refl, n, omega arith)
  read_blocks-IsLoaded (suc left) i s e a n b =
      let (t, fetched, f) = fetch-Fetched i s (omega arith) a in
      let here : file (i / 4096 * 2 ^ 20 + i * 256 % chunk_size) ≡ file (i * 256) =
        ap file (within i) in
      let status : t.journal_chunk (i * 256 % chunk_size) ≡ file (i * 256) = f.chunk _ ∙ here in
      let v = count_block (t.journal_chunk (i * 256 % chunk_size)) (sectors_in_block j i) t in
      let c =
        count_block-counted (t.journal_chunk (i * 256 % chunk_size)) (sectors_in_block j i) t
          (subst (λ x. x < 4) (sym status) (o.statuses (i * 256)))
          (omega (arith, f.same, block_sectors left i e)) in
      let (u, went, us, uc) =
        read_blocks-IsLoaded left (i + 1) v (omega arith) (At-suc i s t v (omega arith) f c.2 c.3)
          (c.1 ∙ f.statuses ∙ n) (omega (arith, c.0, f.same, block_sectors left i e)) in
      (
        record u { statuses = t.journal_chunk (i * 256 % chunk_size) ∷ u.statuses },
        read_step left i s t u fetched went,
        ap2 status us,
        uc ∙ omega (arith, c.0, f.same, block_sectors left i e),
      )
    where
      ap2 : {x y : ℕ} {xs ys : List ℕ} → x ≡ y → xs ≡ ys → x ∷ xs ≡ y ∷ ys
      ap2 p q = cc

      within : (i : ℕ) → i / 4096 * 2 ^ 20 + i * 256 % chunk_size ≡ i * 256
      within i = omega arith
