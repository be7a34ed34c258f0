-- ===== src/Feed/Assess/Order.antt =====
-- The assessment and the order in which the Providers completed.
use mathlib.Core.List.{Permᴰ}
use follow_the_money.Base.{◌≡◌, refl, ap, List, [], ◌∷◌, select}
use follow_the_money.Base.Order.{Str, str_order, same}
use follow_the_money.Base.Sort.{sort_by-eq_of_permᴰ}
use follow_the_money.Base.Table.{Table}
use follow_the_money.Base.Table.Perm.{IsDict, lookup-perm}
use follow_the_money.Base.Table.Entries.{IsDict-keyed, IsDict-select, select-perm}
use follow_the_money.Config.{ProviderEntry, CoverageRow}
use follow_the_money.Feed.Outcome.{ProviderOutcome}
use follow_the_money.Feed.Assess.{
  candidates, verdict, verdicts, report, duplicate_ids, plan_counts, planned, provider_table,
  assess_pipeline,
}

module _ {d e : Table Str ProviderOutcome} (p : Permᴰ d e) (dict : IsDict d) where
  candidates-perm : (k : Str) → candidates k d ≡ candidates k e
  unfolding candidates
  candidates-perm k =
      sort_by-eq_of_permᴰ (λ e. e.0) (select-perm (λ e. same e.1.provider_id k) p)
        (λ x y mx my.
          IsDict-keyed (select (λ e. same e.1.provider_id k) d) x y
            (IsDict-select (λ e. same e.1.provider_id k) d dict) mx my)

  verdict-perm :
      (rows : List CoverageRow) (table : Table Str ProviderEntry) (k : Str)
      → verdict rows table d k ≡ verdict rows table e k
  unfolding verdict
  verdict-perm rows table k = rw (candidates-perm k, lookup-perm k p dict)

  verdicts-perm :
      (rows : List CoverageRow) (table : Table Str ProviderEntry) (ks : List Str)
      → verdicts rows table d ks ≡ verdicts rows table e ks
  unfolding verdicts
  verdicts-perm rows table [] = refl
  verdicts-perm rows table (k ∷ ks) = rw (verdict-perm rows table k, verdicts-perm rows table ks)

-- The status and the warnings are the same for any order of the entries of the outcome table.
pub assess_pipeline-perm :
    {d e : Table Str ProviderOutcome} (providers : List ProviderEntry) (rows : List CoverageRow)
    (ids : List Str)
    → Permᴰ d e
    → IsDict d
    → assess_pipeline providers rows ids d ≡ assess_pipeline providers rows ids e
unfolding assess_pipeline
assess_pipeline-perm providers rows ids p dict =
    ap (report (duplicate_ids (plan_counts [] ids)) rows)
      (verdicts-perm p dict rows (provider_table [] providers) (planned ids))
