-- ===== src/Copy/Faithful.antt =====
-- A whole copying on a faithful kernel: libdevcheck/copy.c under the loop of libdevcheck/procedure.c.
use whdd_modify.Prelude.{
  ℕ, ◌-◌, ◌^◌, ◌≤◌, ◌<◌, ◌≡◌, ◌≢◌, refl, Bool, true, Option, none, some, List, length, arith, ◌∙◌,
  [], subst,
}
use whdd_modify.Procedure.Loop.{Exit, completed, running}
use whdd_modify.Procedure.Loop.Ends.{Ended, Keeps, loop-Ended}
use whdd_modify.Copy.Perform.{Kernel, CopyCtx, read_ok, perform}
use whdd_modify.Copy.Ready.{IsReady}
use whdd_modify.Copy.Progress.{perform-Advances}
use whdd_modify.Copy.Run.{run, Follows, advance_keeps, ended_lem}
use whdd_modify.Copy.Contents.{IsFaithful, IsCopied, CopiedAfter, perform-IsCopied}

-- A kernel that is faithful to the source.
abbrev pub Faithful : (ℕ → ℕ) → Type 0
Faithful src = (k : Kernel) × IsFaithful src k

abbrev pub faithful_kernel : {src : ℕ → ℕ} → Faithful src → Kernel
faithful_kernel w = w.0

-- A run that has ended: what the journal marks as read is copied, and a completed run has
-- given every sector a mark, of which the others are those of read errors.
abbrev pub FaithfulEnded : {U : Type 0} → (ℕ → ℕ) → CopyCtx → Option (CopyCtx × U × Exit) → Type 0
FaithfulEnded src c none = ⊥
FaithfulEnded src c (some (s, u, e)) =
    (e ≢ running)
    × IsCopied src s
    × (e ≡ completed
        → (k : ℕ) → k < c.priv.end_lba
        → (s.journal k ≢ read_ok)
        → (2 ≤ s.journal k) × (s.journal k ≤ 3))

record FollowsFaithfully (src : ℕ → ℕ) (c s : CopyCtx) : Type 0 where
  follows : Follows c s
  copied : IsCopied src s

module _ {U : Type 0} (src : ℕ → ℕ) (callback : CopyCtx → U → U × ℕ)
    (rounds : List (Bool × Faithful src)) (c : CopyCtx) (u : U) (uses : c.priv.use_journal ≡ true)
    (near : c.priv.end_lba ≤ 2 ^ 48) where
  abbrev RoundKeeps : CopyCtx → Option (CopyCtx × ℕ) → Type 0
  RoundKeeps = Keeps (λ s. s.progress.num) (λ s. s.progress.den) (FollowsFaithfully src c)

  round_keeps :
      (s : CopyCtx) (w : Faithful src)
      → FollowsFaithfully src c s
      → s.progress.num < s.progress.den
      → (o : Option (CopyCtx × ℕ)) → perform w.0 s ≡ o
      → Keeps (λ s. s.progress.num) (λ s. s.progress.den) (Follows c) s o
      → RoundKeeps s o
  round_keeps s w f more none e h = h
  round_keeps s w f more (some (s', r)) e (h, d, p) = (
    record {
      follows = h;
      copied = subst (CopiedAfter src) e (
          perform-IsCopied src w.0 w.1 s f.follows.ready (f.follows.same_journal ∙ uses) f.copied
            more (rw f.follows.same_end near));
    },
    d,
    p,
  )

  keeps :
      (s : CopyCtx) (w : Faithful src)
      → FollowsFaithfully src c s
      → s.progress.num < s.progress.den
      → RoundKeeps s (perform w.0 s)
  keeps s w f more = round_keeps s w f more (perform w.0 s) refl (
      advance_keeps c s f.follows (perform w.0 s)
        (perform-Advances w.0 s f.follows.ready w.1.journals more))

  finished_lem :
      (o : Option (CopyCtx × U × Exit))
      → Ended (λ s. s.progress.num) (λ s. s.progress.den) (FollowsFaithfully src c) o
      → FaithfulEnded src c o
  finished_lem none h = h
  finished_lem (some (s, u, e)) (f, n, d, a, b) = (
    n,
    f.copied,
    λ done k l no. ground (
      arith,
      f.follows.ready.statuses (f.follows.same_journal ∙ uses) k,
      f.follows.same_end,
      marked done k l,
      no,
    ),
  )
    where
      marked : e ≡ completed → (k : ℕ) → k < c.priv.end_lba → s.journal k ≢ 0
      marked done k l =
          (ended_lem callback [] c u (some (s, u, e)) (f.follows, n, d, a, b)).4 done uses k l

  -- From a ready state with a journal that is right about the destination, on a disk of at most
  -- 2 ^ 48 sectors and kernels that accept every SG_IO request, hand out the source's bytes when they
  -- report success and write what they are asked to, and with more rounds than there are sectors
  -- left: the copying ends. Every sector that the journal then marks as read is in the destination,
  -- byte by byte; and if the run was completed, every other sector is marked as one that could not be
  -- read. (A ready state has memory for the zones that the strategies split, and its jump over
  -- `skip_blocks` blocks, where its strategy has one, fits an `int`.)
  pub run-FaithfulEnded :
      IsReady c
      → IsCopied src c
      → c.progress.den - c.progress.num < length rounds
      → FaithfulEnded src c (run faithful_kernel callback rounds c u)
  unfolding run
  run-FaithfulEnded r w l = finished_lem _ (
      loop-Ended _ _ _ callback (FollowsFaithfully src c) keeps rounds c u
        (record {
          follows = record { ready = r; no_new = λ k h. h; same_end = refl; same_journal = refl };
          copied = w;
        })
        l)
