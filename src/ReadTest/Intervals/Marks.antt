-- ===== src/ReadTest/Intervals/Marks.antt =====
-- The defect intervals against the map from sectors to types that they stand for.
use whdd_modify.Prelude.Words.{add64}
use whdd_modify.Prelude.{
  ℕ, ◌+◌, ◌≤◌, ◌<◌, ◌^◌, ◌≡◌, ◌≢◌, refl, sym, ◌∙◌, ap, inl, inr, Bool, true, false, ◌&&◌, List, [],
  ◌∷◌, ◌++◌, ◌==◌, ==_iff, if◌then◌else◌, Bool-cases, arith, ◌⊎◌,
}
use whdd_modify.Copy.Zones.{within}
use whdd_modify.ReadTest.Intervals.{
  Interval, Intervals, cur, begin_interval, flush, dg_interval_update,
}

abbrev pub has : Interval → ℕ → Bool
has x k = within x.begin_lba (x.end_lba + 1) k

-- The type of a sector, 0 outside every interval.
unfoldable pub type_at : List Interval → ℕ → ℕ
type_at [] k = 0
type_at (x ∷ xs) k = if has x k then x.type else type_at xs k

-- The type of a sector, the interval that is open included.
unfoldable pub mark : Intervals → ℕ → ℕ
mark v k =
    if has (cur v) k && (if v.dg_cur_type == 0 then false else true)
    then v.dg_cur_type
    else type_at v.dg_intervals k

-- An interval behind sector `lo`; where it touches an interval of type `prev`, its type is another.
abbrev pub Next : ℕ → ℕ → Interval → Type 0
Next lo prev x =
    (lo ≤ x.begin_lba)
    × (x.begin_lba ≤ x.end_lba)
    × (x.type ≢ 0)
    × (x.begin_lba ≡ lo → x.type ≢ prev)

-- Ascending intervals, from sector `lo` and type `prev` to `hi` and `last`.
abbrev pub Chain : ℕ → ℕ → List Interval → ℕ → ℕ → Type 0
Chain lo prev [] hi last = (lo ≡ hi) × (prev ≡ last)
Chain lo prev (x ∷ xs) hi last = Next lo prev x × Chain (x.end_lba + 1) x.type xs hi last

-- The intervals ascend, do not overlap, and are as long as they can be, and all end before `hi`.
pub record IsChain (hi : ℕ) (v : Intervals) : Type 0 where
  pub lo : ℕ
  pub prev : ℕ
  pub chain : Chain 0 0 v.dg_intervals lo prev
  pub below : lo ≤ hi
  pub open_next : v.dg_cur_type ≢ 0 → Next lo prev (cur v)
  pub open_below : v.dg_cur_type ≢ 0 → v.dg_cur_end < hi
  pub gap : v.dg_cur_type ≡ 0 → (prev ≡ 0) ⊎ (lo < hi)

Chain-append :
    (lo prev hi last : ℕ) (xs : List Interval) (x : Interval)
    → Chain lo prev xs hi last
    → Next hi last x
    → Chain lo prev (xs ++ (x ∷ [])) (x.end_lba + 1) x.type
Chain-append lo prev hi last [] x c n = ground arith
Chain-append lo prev hi last (y ∷ ys) x c n =
    (c.0, Chain-append (y.end_lba + 1) y.type hi last ys x c.1 n)

pub Chain-le : (lo prev hi last : ℕ) (xs : List Interval) → Chain lo prev xs hi last → lo ≤ hi
Chain-le lo prev hi last [] c = omega arith
Chain-le lo prev hi last (x ∷ xs) c = omega (arith, Chain-le (x.end_lba + 1) x.type hi last xs c.1)

type_at-append :
    (lo prev hi last : ℕ) (xs : List Interval) (x : Interval) (k : ℕ)
    → Chain lo prev xs hi last
    → Next hi last x
    → type_at (xs ++ (x ∷ [])) k ≡ (if has x k then x.type else type_at xs k)
unfolding type_at
type_at-append lo prev hi last [] x k c n = refl
type_at-append lo prev hi last (y ∷ ys) x k c n = ground (
  arith,
  type_at-append (y.end_lba + 1) y.type hi last ys x k c.1 n,
  Chain-le (y.end_lba + 1) y.type hi last ys c.1,
)

type_at_behind :
    (lo prev hi last : ℕ) (xs : List Interval) (k : ℕ)
    → Chain lo prev xs hi last
    → hi ≤ k
    → type_at xs k ≡ 0
unfolding type_at
type_at_behind lo prev hi last [] k c h = refl
type_at_behind lo prev hi last (x ∷ xs) k c h = ground (
  arith,
  type_at_behind (x.end_lba + 1) x.type hi last xs k c.1 h,
  Chain-le (x.end_lba + 1) x.type hi last xs c.1,
)

mark_behind : (v : Intervals) (hi k : ℕ) → IsChain hi v → hi ≤ k → mark v k ≡ 0
unfolding mark
mark_behind v hi k c h =
    ground (arith, c.open_below, c.below, type_at_behind 0 0 c.lo c.prev v.dg_intervals k c.chain)

IsChain-raise : (v : Intervals) (hi hi' : ℕ) → IsChain hi v → hi < hi' → IsChain hi' v
IsChain-raise v hi hi' c h = record {
  lo = c.lo;
  prev = c.prev;
  chain = c.chain;
  below = omega (arith, c.below);
  open_next = c.open_next;
  open_below = λ o. omega (arith, c.open_below o);
  gap = λ _. inr (omega (arith, c.below));
}

-- The open interval is put behind the others.
abbrev pub flushed : Intervals → Intervals
flushed v = record v { dg_intervals = v.dg_intervals ++ (cur v ∷ []); dg_cur_type = 0 }

pub flushed-Chain :
    (v : Intervals) (hi : ℕ) (c : IsChain hi v)
    → v.dg_cur_type ≢ 0
    → Chain 0 0 (flushed v).dg_intervals (v.dg_cur_end + 1) v.dg_cur_type
flushed-Chain v hi c o = Chain-append 0 0 c.lo c.prev v.dg_intervals (cur v) c.chain (c.open_next o)

pub flushed-mark :
    (v : Intervals) (hi k : ℕ) → IsChain hi v → v.dg_cur_type ≢ 0 → mark (flushed v) k ≡ mark v k
unfolding mark
flushed-mark v hi k c o =
    ground (arith, type_at-append 0 0 c.lo c.prev v.dg_intervals (cur v) k c.chain (c.open_next o))

begin_lem :
    (v : Intervals) (lo prev lba end_lba type k : ℕ)
    → v.dg_cur_type ≡ 0
    → Chain 0 0 v.dg_intervals lo prev
    → Next lo prev (record { begin_lba = lba; end_lba = end_lba; type = type })
    → IsChain (end_lba + 1) (begin_interval v lba end_lba type)
      × (mark (begin_interval v lba end_lba type) k
          ≡ (if within lba (end_lba + 1) k then type else mark v k))
unfolding begin_interval mark
begin_lem v lo prev lba end_lba type k z c n = (
  record {
    lo = lo;
    prev = prev;
    chain = c;
    below = omega (arith, n.0, n.1);
    open_next = λ _. n;
    open_below = λ _. omega arith;
    gap = λ e. absurd (n.2 e);
  },
  ground (arith, n.2),
)

-- What an update to `w` comes to at sector k.
abbrev pub Marks : Intervals → ℕ → ℕ → ℕ → ℕ → Intervals → Type 0
Marks v lba end_lba type k w =
    IsChain (end_lba + 1) w × (mark w k ≡ (if within lba (end_lba + 1) k then type else mark v k))

module _ (v : Intervals) (hi lba end_lba type k : ℕ) (c : IsChain hi v) (h : hi ≤ lba)
    (l : lba ≤ end_lba) where
  idle_lem : type ≡ 0 → Marks v lba end_lba type k v
  idle_lem e =
      (IsChain-raise v hi (end_lba + 1) c (omega arith), ground (arith, mark_behind v hi k c))

  close_lem : type ≡ 0 → v.dg_cur_type ≢ 0 → Marks v lba end_lba type k (flushed v)
  close_lem e o = (
    record {
      lo = v.dg_cur_end + 1;
      prev = v.dg_cur_type;
      chain = flushed-Chain v hi c o;
      below = omega (arith, c.open_below o);
      open_next = λ z. absurd (z refl);
      open_below = λ z. absurd (z refl);
      gap = λ _. inr (omega (arith, c.open_below o));
    },
    flushed-mark v hi k c o ∙ (idle_lem e).1,
  )

  extend_lem :
      type ≢ 0
      → v.dg_cur_type ≡ type
      → lba ≡ v.dg_cur_end + 1
      → Marks v lba end_lba type k (record v { dg_cur_end = end_lba })
  unfolding mark
  extend_lem e t a = (
    record {
      lo = c.lo;
      prev = c.prev;
      chain = c.chain;
      below = omega (arith, c.below);
      open_next = λ o. ground (arith, c.open_next);
      open_below = λ o. omega arith;
      gap = λ z. absurd (e (sym t ∙ z));
    },
    ground (arith, c.open_next),
  )

  start_lem :
      type ≢ 0 → v.dg_cur_type ≡ 0 → Marks v lba end_lba type k (begin_interval v lba end_lba type)
  start_lem e z =
      begin_lem v c.lo c.prev lba end_lba type k z c.chain
        (omega (arith, c.below), l, e, λ a. ground (arith, c.gap z))

  switch_lem :
      type ≢ 0
      → v.dg_cur_type ≢ 0
      → ((lba ≡ v.dg_cur_end + 1) → type ≢ v.dg_cur_type)
      → Marks v lba end_lba type k (begin_interval (flushed v) lba end_lba type)
  switch_lem e o a =
      let (w, m) =
        begin_lem (flushed v) (v.dg_cur_end + 1) v.dg_cur_type lba end_lba type k refl
          (flushed-Chain v hi c o) (omega (arith, c.open_below o), l, e, a) in
      (w, m ∙ ap (λ y. if within lba (end_lba + 1) k then type else y) (flushed-mark v hi k c o))

  -- Where `realloc` succeeds, an update of intervals that end before sector `lba` gives exactly the
  -- sectors of the new block the new type. The intervals stay ascending, disjoint and as
  -- long as they can be.
  pub dg_interval_update-Marks :
      end_lba < 2 ^ 63 → Marks v lba end_lba type k (dg_interval_update true v lba end_lba type)
  unfolding dg_interval_update flush
  dg_interval_update-Marks b = elim (Bool-cases (type == 0)) [
    | inl none_new ↦ rw none_new (elim (Bool-cases (v.dg_cur_type == 0)) [
      | inl none_open ↦ rw none_open (idle_lem ((==_iff _ _).0 none_new))
      | inr some_open ↦ rw some_open (close_lem ((==_iff _ _).0 none_new) (ground arith))
    ])
    | inr new ↦ rw new (elim (Bool-cases (v.dg_cur_type == type && lba == add64 v.dg_cur_end 1)) [
      | inl same ↦ rw same (extend_lem (ground arith) (ground arith) (ground (arith, c.open_below)))
      | inr other ↦ rw other (elim (Bool-cases (v.dg_cur_type == 0)) [
        | inl none_open ↦ rw none_open (start_lem (ground arith) (ground arith))
        | inr some_open ↦
            rw some_open
              (switch_lem (ground arith) (ground arith) (λ a t. ground (arith, c.open_below)))
      ])
    ])
  ]
