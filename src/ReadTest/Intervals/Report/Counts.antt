-- ===== src/ReadTest/Intervals/Report/Counts.antt =====
-- The defect list says how many sectors have which type.
use whdd_modify.Prelude.{
  ℕ, zero, suc, ◌+◌, ◌-◌, ◌^◌, ◌≤◌, ◌<◌, ◌≡◌, ◌≢◌, refl, sym, ◌∙◌, inl, inr, true, List, [], ◌∷◌,
  ◌==◌, ==_iff, if◌then◌else◌, arith, Bool-cases, ltb, subst,
}
use whdd_modify.ReadTest.Intervals.{Interval, Intervals, flush, dg_interval_update}
use whdd_modify.ReadTest.Intervals.Marks.{
  has, type_at, mark, Chain, IsChain, Chain-le, flushed, flushed-mark, flushed-Chain,
}
use whdd_modify.ReadTest.Intervals.Report.{interval_sectors, count_sectors, flush_open}

-- The number of sectors below `hi` with a type, counted one by one.
unfoldable pub sectors_of : (ℕ → ℕ) → ℕ → ℕ → ℕ
sectors_of types type zero = 0
sectors_of types type (suc hi) =
    let rest = sectors_of types type hi in if types hi == type then rest + 1 else rest

-- The sectors of a chain from `lo` on.
abbrev pub in_list : List Interval → ℕ → ℕ → ℕ
in_list xs type hi = sectors_of (type_at xs) type hi

same_types :
    (f g : ℕ → ℕ) (type hi : ℕ)
    → ((k : ℕ) → k < hi → f k ≡ g k)
    → sectors_of f type hi ≡ sectors_of g type hi
unfolding sectors_of
same_types f g type zero h = refl
same_types f g type (suc hi) h =
    ground (arith, h hi, same_types f g type hi (λ k l. h k (omega arith)))

none_before :
    (lo prev hi last : ℕ) (xs : List Interval) (k : ℕ)
    → Chain lo prev xs hi last
    → k < lo
    → type_at xs k ≡ 0
unfolding type_at
none_before lo prev hi last [] k c l = refl
none_before lo prev hi last (x ∷ xs) k c l =
    ground (arith, none_before (x.end_lba + 1) x.type hi last xs k c.1 (omega arith))

sectors_of-le : (f : ℕ → ℕ) (type hi : ℕ) → sectors_of f type hi ≤ hi
unfolding sectors_of
sectors_of-le f type zero = omega arith
sectors_of-le f type (suc hi) = ground (arith, sectors_of-le f type hi)

-- The sectors of an interval below `hi`.
reach : Interval → ℕ → ℕ
reach x hi = if ltb x.end_lba hi then x.end_lba + 1 - x.begin_lba else hi - x.begin_lba

-- An interval over sectors without a type adds its own.
insert_lem :
    (x : Interval) (g : ℕ → ℕ) (type hi : ℕ)
    → ((k : ℕ) → has x k ≡ true → g k ≡ 0)
    → type ≢ 0
    → x.begin_lba ≤ x.end_lba
    → sectors_of (λ k. if has x k then x.type else g k) type hi
      ≡ sectors_of g type hi + (if x.type == type then reach x hi else 0)
unfolding sectors_of reach
insert_lem x g type zero h n l = ground arith
insert_lem x g type (suc hi) h n l = ground (arith, h hi, insert_lem x g type hi h n l)

no_types : (type top : ℕ) → type ≢ 0 → sectors_of (type_at []) type top ≡ 0
unfolding sectors_of type_at
no_types type zero n = refl
no_types type (suc top) n = ground (arith, no_types type top n)

reach_lem :
    (x : Interval) (top : ℕ)
    → x.begin_lba ≤ x.end_lba
    → x.end_lba < top
    → top < 2 ^ 63
    → (reach x top ≡ x.end_lba + 1 - x.begin_lba)
      × (interval_sectors x ≡ x.end_lba + 1 - x.begin_lba)
unfolding reach
reach_lem x top l t b = (ground arith, omega arith)

-- The sum in one round does not wrap around.
added :
    (x : Interval) (xs : List Interval) (type top : ℕ)
    → x.begin_lba ≤ x.end_lba
    → x.end_lba < top
    → top < 2 ^ 63
    → sectors_of (type_at xs) type top ≡ count_sectors type xs
    → sectors_of (type_at xs) type top + (if x.type == type then reach x top else 0)
      ≡ count_sectors type (x ∷ xs)
unfolding count_sectors
added x xs type top l t b e =
    ground (arith, reach_lem x top l t b, sectors_of-le (type_at xs) type top)

Chain-count :
    (lo prev hi last type top : ℕ) (xs : List Interval)
    → Chain lo prev xs hi last
    → hi ≤ top
    → top < 2 ^ 63
    → type ≢ 0
    → sectors_of (type_at xs) type top ≡ count_sectors type xs
unfolding type_at count_sectors
Chain-count lo prev hi last type top [] c t b n = no_types type top n
Chain-count lo prev hi last type top (x ∷ xs) c t b n =
    insert_lem x (type_at xs) type top
      (λ k h. none_before (x.end_lba + 1) x.type hi last xs k c.1 (ground arith)) n c.0.1
    ∙ added x xs type top c.0.1 (omega (arith, Chain-le (x.end_lba + 1) x.type hi last xs c.1)) b
        (Chain-count (x.end_lba + 1) x.type hi last type top xs c.1 t b n)

mark_closed : (v : Intervals) (k : ℕ) → v.dg_cur_type ≡ 0 → mark v k ≡ type_at v.dg_intervals k
unfolding mark
mark_closed v k e = ground arith

flush_lem : (v : Intervals) → v.dg_cur_type ≢ 0 → flush_open true v ≡ flushed v
unfolding flush_open dg_interval_update flush
flush_lem v o = ground arith

no_flush : (v : Intervals) → v.dg_cur_type ≡ 0 → flush_open true v ≡ v
unfolding flush_open
no_flush v e = ground arith

-- Where `realloc` succeeds, the count that the defect list gives for a type is the number of sectors
-- that the scan has marked with this type, with the interval that was open at its end.
pub count_sectors-marks :
    (v : Intervals) (hi type : ℕ)
    → IsChain hi v
    → hi < 2 ^ 63
    → type ≢ 0
    → count_sectors type (flush_open true v).dg_intervals ≡ sectors_of (mark v) type hi
count_sectors-marks v hi type c b n = elim (Bool-cases (v.dg_cur_type == 0)) [
  | inl e ↦
      let z = (==_iff v.dg_cur_type 0).0 e in
      subst (λ w. count_sectors type w.dg_intervals ≡ sectors_of (mark v) type hi)
        (sym (no_flush v z))
        (sym (Chain-count 0 0 c.lo c.prev type hi v.dg_intervals c.chain c.below b n)
          ∙ sym (same_types (mark v) (type_at v.dg_intervals) type hi (λ k l. mark_closed v k z)))
  | inr e ↦
      let o : v.dg_cur_type ≢ 0 = λ z. ground (arith, e) in
      subst (λ w. count_sectors type w.dg_intervals ≡ sectors_of (mark v) type hi)
        (sym (flush_lem v o))
        (sym (
            Chain-count 0 0 (v.dg_cur_end + 1) v.dg_cur_type type hi (flushed v).dg_intervals
              (flushed-Chain v hi c o) (omega (arith, c.open_below o)) b n)
          ∙ sym (
              same_types (mark v) (type_at (flushed v).dg_intervals) type hi
                (λ k l. sym (flushed-mark v hi k c o) ∙ mark_closed (flushed v) k refl)))
]
