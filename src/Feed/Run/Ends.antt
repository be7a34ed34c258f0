-- ===== src/Feed/Run/Ends.antt =====
-- How a run ends: the lock is released.
use follow_the_money.Base.{
  none, some, ◌*◌, ◌<◌, true, false, [], ◌∷◌, ◌≡◌, ◌⊎◌, refl, In, ok, err, arith,
}
use follow_the_money.Base.Time.{Instant, hour, floor_ms}
use follow_the_money.Canonical.{Encoding}
use follow_the_money.Feed.Plan.{zoned}
use follow_the_money.Feed.Checkpoint.{Texts, FeedCheckpoint}
use follow_the_money.Feed.Run.{
  uncaught, locked, unlocked, Parts, Run, effects_then, open_checkpoint, with_cutoff, coordinates,
  run_feed,
}

module _ (t : Texts) (e : Encoding) (p : Parts t e) where
  -- The three exceptions that a run does not catch: of `now_fn`, of the conversion of the cutoff,
  -- and of the plan, whose lookback reaches over the first instant of `datetime`.
  pub data Escapes : Type 0 where
    no_clock : p.cutoff ≡ none → Escapes
    out_of_range : (c : Instant) → p.cutoff ≡ some (zoned c) → p.cutoff_in_range ≡ false → Escapes
    overflows :
        (c : Instant) (checkpoint : FeedCheckpoint)
        → p.cutoff ≡ some (zoned c)
        → (open_checkpoint t e p true).0 ≡ ok checkpoint
        → floor_ms c < p.bootstrap_lookback_hours * hour
        → Escapes

  -- The lock is released, or one of the three exceptions leaves it.
  abbrev pub Ends : Run t e → Type 0
  Ends r = In unlocked r.1 ⊎ ((¬ In unlocked r.1) × (r.0 ≡ err uncaught) × Escapes)

  pub not_dry : p.dry_run ≡ false → coordinates t e p ≡ true
  unfolding coordinates
  not_dry d = rw d refl

  pub run_feed-locked :
      p.distinct_roots ≡ true
      → p.product_root_made ≡ true
      → coordinates t e p ≡ true
      → p.lock_acquired ≡ true
      → run_feed t e p ≡ effects_then t e (locked ∷ []) (with_cutoff t e p true p.cutoff)
  unfolding run_feed
  run_feed-locked u v w y = ground arith
