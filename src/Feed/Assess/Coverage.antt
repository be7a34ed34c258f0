-- ===== src/Feed/Assess/Coverage.antt =====
-- The status of a run and the coverage rows.
use follow_the_money.Base.{
  ◌+◌, ◌≤◌, ◌≡◌, ◌≢◌, inl, inr, true, false, arith, List, [], ◌∷◌, Bool-cases, count, is_empty, In,
}
use follow_the_money.Base.Order.{Str, str_order}
use follow_the_money.Base.Table.{Table}
use follow_the_money.Config.{ProviderEntry, CoverageRow}
use follow_the_money.Feed.Outcome.{ProviderOutcome}
use follow_the_money.Feed.Assess.{
  failure, Verdict, provider_table, verdicts, planned, decide, deficient, is_deficient,
  blocked_member, complete_member, assess_pipeline, plan_counts, duplicate_ids,
}

-- The verdicts of a run.
abbrev pub run_verdicts :
    List ProviderEntry → List CoverageRow → List Str → Table Str ProviderOutcome → Table Str Verdict
run_verdicts providers rows ids outcomes =
    verdicts rows (provider_table [] providers) outcomes (planned ids)

decide-deficient :
    (duplicates : List Str) (vs : Table Str Verdict) (short : List Str)
    → decide duplicates vs short ≢ failure
    → is_empty short ≡ true
unfolding decide
decide-deficient duplicates vs short h = ground arith

deficient-row :
    (vs : Table Str Verdict) (rows : List CoverageRow) (row : CoverageRow)
    → is_empty (deficient vs rows) ≡ true
    → In row rows
    → is_deficient vs row ≡ false
unfolding deficient
deficient-row vs [] row h m = absurd m
deficient-row vs (r ∷ rows) row h (inl e) =
    rw (← e) (elim (Bool-cases (is_deficient vs r)) [ inl t ↦ ground arith | inr f ↦ f ])
deficient-row vs (r ∷ rows) row h (inr m) =
    deficient-row vs rows row
      (elim (Bool-cases (is_deficient vs r)) [ inl t ↦ ground arith | inr f ↦ ground arith ]) m

is_deficient-minimum :
    (vs : Table Str Verdict) (row : CoverageRow)
    → is_deficient vs row ≡ false
    → row.optional ≡ false
    → row.minimum ≤ count (complete_member vs) row.members + count (blocked_member vs) row.members
unfolding is_deficient
is_deficient-minimum vs row h k = ground arith

-- If a run is not a failure, every mandatory row has at least its minimum of members that are
-- complete or exempt as blocked.
pub assess_pipeline-minimum :
    (providers : List ProviderEntry) (rows : List CoverageRow) (ids : List Str)
    (outcomes : Table Str ProviderOutcome) (row : CoverageRow)
    → (assess_pipeline providers rows ids outcomes).0 ≢ failure
    → In row rows
    → row.optional ≡ false
    → row.minimum
      ≤ count (complete_member (run_verdicts providers rows ids outcomes)) row.members
        + count (blocked_member (run_verdicts providers rows ids outcomes)) row.members
unfolding assess_pipeline
assess_pipeline-minimum providers rows ids outcomes row h m k =
    let vs = run_verdicts providers rows ids outcomes in
    is_deficient-minimum vs row
      (deficient-row vs rows row
        (decide-deficient (duplicate_ids (plan_counts [] ids)) vs (deficient vs rows) h) m)
      k
