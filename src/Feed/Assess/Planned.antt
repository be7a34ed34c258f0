-- ===== src/Feed/Assess/Planned.antt =====
-- The status of a run and the outcomes of the planned Providers.
use follow_the_money.Base.{
  ℕ, ◌+◌, ◌≡◌, refl, ◌≢◌, ◌⊎◌, inl, inr, true, false, Option, none, some, arith, List, [], ◌∷◌,
  ◌&&◌, not, Bool-cases, any, select, In,
}
use follow_the_money.Base.Order.{Str, str_order, same, same→eq}
use follow_the_money.Base.Sort.Members.{In-sort_by, sort_by-In, select-In}
use follow_the_money.Base.Table.{Table, lookup, insert, get_or, keys}
use follow_the_money.Base.Table.Entries.{lookup-In, In-keys-insert, In-keys-insert_self}
use follow_the_money.Base.Table.Perm.{IsDict}
use follow_the_money.Config.{ProviderEntry, CoverageRow}
use follow_the_money.Feed.Outcome.{ProviderOutcome, blocked_exempt, contributes_to_coverage}
use follow_the_money.Feed.Assess.{
  failure, Verdict, provider_table, candidates, judge, verdict, verdicts, planned,
  configured_groups, plan_counts, duplicate_ids, deficient, decide, assess_pipeline,
}

-- The one candidate that a settled Provider has.
abbrev IsOnly : Str → Option ProviderEntry → Table Str ProviderOutcome → Type 0
IsOnly k provider cs =
    (o : ProviderOutcome) × (cs ≡ (k, o) ∷ [])
    × (((p : ProviderEntry) × (provider ≡ some p)
          × (contributes_to_coverage o p.empty_valid_for_window ≡ true))
        ⊎ (blocked_exempt o ≡ true))

-- What `judge` says of a Provider that it takes as complete or exempt.
abbrev Passes : Verdict → Type 0
Passes v = not v.complete && not v.blocked ≡ false

module _ (k : Str) (groups : List Str) (fallback : Option ProviderOutcome) where
  judge_no_contract : (cs : Table Str ProviderOutcome) → ¬ Passes (judge k groups none cs fallback)
  unfolding judge
  judge_no_contract cs h = cc

  judge_no_candidate : (p : ProviderEntry) → ¬ Passes (judge k groups (some p) [] fallback)
  unfolding judge
  judge_no_candidate p h = ground arith

  judge_ambiguous :
      (p : ProviderEntry) (c d : Str × ProviderOutcome) (cs : Table Str ProviderOutcome)
      → ¬ Passes (judge k groups (some p) (c ∷ d ∷ cs) fallback)
  unfolding judge
  judge_ambiguous p c d cs h = ground arith

  judge_key :
      (p : ProviderEntry) (c : Str × ProviderOutcome)
      → Passes (judge k groups (some p) (c ∷ []) fallback)
      → same c.0 k ≡ true
  unfolding judge
  judge_key p c h = ground arith

  judge_contributes :
      (p : ProviderEntry) (c : Str × ProviderOutcome)
      → Passes (judge k groups (some p) (c ∷ []) fallback)
      → blocked_exempt c.1 ≡ false
      → contributes_to_coverage c.1 p.empty_valid_for_window ≡ true
  unfolding judge
  judge_contributes p c h e = ground arith

  judge-IsOnly :
      (provider : Option ProviderEntry) (cs : Table Str ProviderOutcome)
      → Passes (judge k groups provider cs fallback)
      → IsOnly k provider cs
  judge-IsOnly none cs h = absurd (judge_no_contract cs h)
  judge-IsOnly (some p) [] h = absurd (judge_no_candidate p h)
  judge-IsOnly (some p) (c ∷ d ∷ cs) h = absurd (judge_ambiguous p c d cs h)
  judge-IsOnly (some p) (c ∷ []) h = (
    c.1,
    rw (← same→eq c.0 k (judge_key p c h)) refl,
    elim (Bool-cases (blocked_exempt c.1)) [
      | inl exempt ↦ inr exempt
      | inr counted ↦ inl (p, refl, judge_contributes p c h counted)
    ],
  )

-- The outcome that the table holds under the Provider's own id covers the window, under the
-- Provider's contract, or is exempt.
abbrev pub IsSettled : List ProviderEntry → Table Str ProviderOutcome → Str → Type 0
IsSettled providers outcomes k =
    (o : ProviderOutcome) × (lookup k outcomes ≡ some o)
    × (((p : ProviderEntry) × (lookup k (provider_table [] providers) ≡ some p)
          × (contributes_to_coverage o p.empty_valid_for_window ≡ true))
        ⊎ (blocked_exempt o ≡ true))

module _ (providers : List ProviderEntry) (rows : List CoverageRow)
    (outcomes : Table Str ProviderOutcome) (dict : IsDict outcomes) where
  candidate-In :
      (k : Str) (o : ProviderOutcome) → candidates k outcomes ≡ (k, o) ∷ [] → In (k, o) outcomes
  unfolding candidates
  candidate-In k o e =
      select-In (λ e. same e.1.provider_id k) (k, o) outcomes
        (sort_by-In (λ e. e.0) (k, o) (select (λ e. same e.1.provider_id k) outcomes)
          (rw e (inl refl)))

  verdict-IsSettled :
      (k : Str)
      → Passes (verdict rows (provider_table [] providers) outcomes k)
      → IsSettled providers outcomes k
  unfolding verdict
  verdict-IsSettled k h =
      let (o, e, settled) =
        judge-IsOnly k (configured_groups rows k) (lookup k outcomes)
          (lookup k (provider_table [] providers)) (candidates k outcomes) h in
      (o, lookup-In (k, o) outcomes dict (candidate-In k o e), settled)

  verdicts-IsSettled :
      (ks : List Str) (k : Str)
      → any
          (λ e. not e.1.complete && not e.1.blocked)
          (verdicts rows (provider_table [] providers) outcomes ks)
        ≡ false
      → In k ks
      → IsSettled providers outcomes k
  unfolding verdicts
  verdicts-IsSettled [] k h m = absurd m
  verdicts-IsSettled (j ∷ ks) k h (inl e) = rw (← e) (verdict-IsSettled j (ground arith))
  verdicts-IsSettled (j ∷ ks) k h (inr m) = verdicts-IsSettled ks k (ground arith) m

In-plan_counts :
    (k : Str) (table : Table Str ℕ) (ids : List Str)
    → In k ids ⊎ In k (keys table)
    → In k (keys (plan_counts table ids))
unfolding plan_counts
In-plan_counts k table [] (inl m) = absurd m
In-plan_counts k table [] (inr m) = m
In-plan_counts k table (i ∷ ids) (inl (inl e)) =
    In-plan_counts k (insert i (get_or table i 0 + 1) table) ids
      (inr (rw (← e) (In-keys-insert_self i (get_or table i 0 + 1) table)))
In-plan_counts k table (i ∷ ids) (inl (inr m)) =
    In-plan_counts k (insert i (get_or table i 0 + 1) table) ids (inl m)
In-plan_counts k table (i ∷ ids) (inr m) =
    In-plan_counts k (insert i (get_or table i 0 + 1) table) ids
      (inr (In-keys-insert k i (get_or table i 0 + 1) table m))

In-planned : (k : Str) (ids : List Str) → In k ids → In k (planned ids)
unfolding planned
In-planned k ids m =
    In-sort_by (λ j. j) k (keys (plan_counts [] ids)) (In-plan_counts k [] ids (inl m))

decide_settles :
    (duplicates : List Str) (vs : Table Str Verdict) (short : List Str)
    → decide duplicates vs short ≢ failure
    → any (λ e. not e.1.complete && not e.1.blocked) vs ≡ false
unfolding decide
decide_settles duplicates vs short h = ground arith

-- If a run is not a failure, the outcome under the id of every planned Provider covers the window
-- under its contract, or is exempt as blocked. The outcomes hold no id twice.
pub assess_pipeline-IsSettled :
    (providers : List ProviderEntry) (rows : List CoverageRow) (ids : List Str)
    (outcomes : Table Str ProviderOutcome) (k : Str)
    → IsDict outcomes
    → (assess_pipeline providers rows ids outcomes).0 ≢ failure
    → In k ids
    → IsSettled providers outcomes k
unfolding assess_pipeline
assess_pipeline-IsSettled providers rows ids outcomes k dict h m =
    verdicts-IsSettled providers rows outcomes dict (planned ids) k
      (decide_settles (duplicate_ids (plan_counts [] ids))
        (verdicts rows (provider_table [] providers) outcomes (planned ids))
        (deficient (verdicts rows (provider_table [] providers) outcomes (planned ids)) rows) h)
      (In-planned k ids m)
