-- ===== src/Copy/Run.antt =====
-- The whole copying: `Perform` of libdevcheck/copy.c under the loop of libdevcheck/procedure.c.
use whdd_modify.Procedure.{Progress}
use whdd_modify.Prelude.{
  ℕ, ◌-◌, ◌<◌, ◌≡◌, ◌≢◌, refl, sym, ◌∙◌, ap, inl, inr, Bool, true, false, Option, none, some, List,
  [], ◌∷◌, arith, length, ==_iff,
}
use whdd_modify.Procedure.Loop.{Exit, completed, running, loop}
use whdd_modify.Procedure.Loop.Ends.{Ended, Keeps, loop-Ended}
use whdd_modify.Copy.Zones.{Zone, total, covers, IsOrdered}
use whdd_modify.Copy.Perform.{Kernel, CopyCtx, perform}
use whdd_modify.Copy.Ready.{IsReady, Advances}
use whdd_modify.Copy.Progress.{perform-Advances}

-- What one round meets: the interrupt flag, and a kernel that can write the journal file.
abbrev pub Works : Type 0
Works = (k : Kernel) × ((lba n : ℕ) → k.write_journal lba n ≡ some n)

-- The loop, with a kernel for each round.
unfoldable pub run :
    {U I : Type 0}
    → (I → Kernel)
    → (CopyCtx → U → U × ℕ)
    → List (Bool × I)
    → CopyCtx
    → U
    → Option (CopyCtx × U × Exit)
run kernel callback =
    loop (λ c. c.progress.num) (λ c. c.progress.den) (λ c i. perform (kernel i) c) callback

abbrev pub kernel_of : Works → Kernel
kernel_of w = w.0

-- The state of a run that began in `c`.
pub record Follows (c s : CopyCtx) : Type 0 where
  pub ready : IsReady s
  pub no_new : (k : ℕ) → covers s.priv.unread_zones k ≡ true → covers c.priv.unread_zones k ≡ true
  pub same_end : s.priv.end_lba ≡ c.priv.end_lba
  pub same_journal : s.priv.use_journal ≡ c.priv.use_journal

abbrev pub FollowsKeeps : CopyCtx → CopyCtx → Option (CopyCtx × ℕ) → Type 0
FollowsKeeps c = Keeps (λ s. s.progress.num) (λ s. s.progress.den) (Follows c)

pub advance_keeps :
    (c s : CopyCtx) → Follows c s → (o : Option (CopyCtx × ℕ)) → Advances s o → FollowsKeeps c s o
advance_keeps c s f none a = a
advance_keeps c s f (some (s', r)) (inl t) = (
  record {
    ready = t.ready;
    no_new = λ k h. f.no_new k (ground (arith, t.now_read k));
    same_end = t.settings.end_lba ∙ f.same_end;
    same_journal = t.settings.use_journal ∙ f.same_journal;
  },
  t.same_den,
  λ _. omega (arith, t.counted, t.some_sectors),
)
advance_keeps c s f (some (s', r)) (inr (t, e)) = (
  record {
    ready = t.ready;
    no_new = λ k h. f.no_new k (sym (t.unchanged k) ∙ h);
    same_end = t.settings.end_lba ∙ f.same_end;
    same_journal = t.settings.use_journal ∙ f.same_journal;
  },
  ap (λ (g : Progress). g.den) t.same_progress,
  λ z. absurd (omega arith),
)

none_left :
    (next lo hi : ℕ) (zs : List Zone)
    → IsOrdered next lo hi zs
    → total zs ≡ 0
    → (k : ℕ) → covers zs k ≡ false
unfolding covers
none_left next lo hi [] o e k = refl
none_left next lo hi (z ∷ zs) o e k = absurd (omega arith)

-- A run that has ended, and what a completed one has done.
abbrev pub CopyEnded : {U : Type 0} → CopyCtx → Option (CopyCtx × U × Exit) → Type 0
CopyEnded c none = ⊥
CopyEnded c (some (s, u, e)) =
    (e ≢ running)
    × IsReady s
    × ((k : ℕ) → covers s.priv.unread_zones k ≡ true → covers c.priv.unread_zones k ≡ true)
    × (e ≡ completed → (k : ℕ) → covers s.priv.unread_zones k ≡ false)
    × (e ≡ completed → c.priv.use_journal ≡ true → (k : ℕ) → k < c.priv.end_lba → s.journal k ≢ 0)

module _ {U : Type 0} (callback : CopyCtx → U → U × ℕ) (rounds : List (Bool × Works)) (c : CopyCtx)
    (u : U) where
  -- Every state of a run follows the first one.
  pub run-Follows :
      IsReady c
      → c.progress.den - c.progress.num < length rounds
      → Ended
          (λ s. s.progress.num)
          (λ s. s.progress.den)
          (Follows c)
          (run kernel_of callback rounds c u)
  unfolding run
  run-Follows r l =
      loop-Ended _ _ _ callback (Follows c)
        (λ s w f more.
          advance_keeps c s f (perform w.0 s) (perform-Advances w.0 s f.ready w.1 more))
        rounds c u (record { ready = r; no_new = λ k h. h; same_end = refl; same_journal = refl }) l

  pub ended_lem :
      (o : Option (CopyCtx × U × Exit))
      → Ended (λ s. s.progress.num) (λ s. s.progress.den) (Follows c) o
      → CopyEnded c o
  ended_lem none h = h
  ended_lem (some (s, u, e)) (f, n, d, _, _) =
      (n, f.ready, f.no_new, λ done. gone done, λ done j k l. marked done j k l)
    where
      gone : e ≡ completed → (k : ℕ) → covers s.priv.unread_zones k ≡ false
      gone done =
          none_left s.priv.next_addr s.priv.start_lba s.priv.end_lba s.priv.unread_zones
            f.ready.valid.ordered (omega (arith, d done, f.ready.measured))

      marked :
          e ≡ completed → c.priv.use_journal ≡ true → (k : ℕ) → k < c.priv.end_lba → s.journal k ≢ 0
      marked done j k l z = cc (
        f.ready.recorded (f.same_journal ∙ j) k (rw f.same_end l),
        gone done k,
        (==_iff (s.journal k) 0).1 z,
      )

  -- From a ready state, with kernels that can write the journal file, and with more rounds than
  -- there are sectors left, the copying ends, whatever the device and the destination answer and
  -- the frontend does. (A ready state has memory for the zones that the strategies split, and its
  -- jump over `skip_blocks` blocks, where its strategy has one, fits an `int`.) It leaves a ready state, and adds no unread sector. Where it ends completed,
  -- no sector is unread, and the journal, where there is one, marks none as unread.
  pub run-CopyEnded :
      IsReady c
      → c.progress.den - c.progress.num < length rounds
      → CopyEnded c (run kernel_of callback rounds c u)
  run-CopyEnded r l = ended_lem _ (run-Follows r l)
