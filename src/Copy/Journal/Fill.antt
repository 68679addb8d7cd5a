-- ===== src/Copy/Journal/Fill.antt =====
-- A new journal marks every sector as unread.
use whdd_modify.Prelude.{
  ℕ, zero, suc, ◌+◌, ◌-◌, ◌≤◌, ◌<◌, ◌≡◌, refl, Bool, true, some, ltb, if◌then◌else◌, arith,
  Bool-cases, inl, inr,
}
use whdd_modify.Copy.Perform.{overwrite}
use whdd_modify.Copy.Journal.{chunk_size, fill_journal}

-- Where every `write` is complete, as many rounds as there are sectors fill the journal to the end
-- with zeros.
pub fill_journal-zeros :
    (fills : ℕ → ℕ → Bool) (end_lba fuel i : ℕ) (journal : ℕ → ℕ)
    → ((i n : ℕ) → fills i n ≡ true)
    → end_lba - i ≤ fuel
    → ((k : ℕ) → k < i → journal k ≡ 0)
    → (filled : ℕ → ℕ) × (fill_journal fills end_lba fuel i journal ≡ some filled)
      × ((k : ℕ) → k < end_lba → filled k ≡ 0)
unfolding fill_journal
fill_journal-zeros fills end_lba zero i journal w l z = (journal, refl, λ k h. z k (omega arith))
fill_journal-zeros fills end_lba (suc fuel) i journal w l z = elim (Bool-cases (ltb i end_lba)) [
  | inl more ↦
      let n = if ltb chunk_size (end_lba - i) then chunk_size else end_lba - i in
      let (filled, e, all) =
        fill_journal-zeros fills end_lba fuel (i + n) (overwrite journal i (λ _. 0) n) w
          (ground arith) (λ k h. ground (arith, z k)) in
      (filled, rw (more, w i n) e, all)
  | inr done ↦ (journal, rw done refl, λ k h. z k (ground arith))
]
