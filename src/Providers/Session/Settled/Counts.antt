-- ===== src/Providers/Session/Settled/Counts.antt =====
-- How often each event occurs, and the invariant of the local variables of `_send`.
use follow_the_money.Providers.Rate.State.{ScopeState}
use follow_the_money.Base.{
  ℕ, ◌≤◌, Option, none, some, ◌+◌, ◌≡◌, refl, Bool, true, false, List, [], ◌∷◌, ◌++◌,
}
use follow_the_money.Providers.Session.Send.{
  Event, locked, unlocked, global_taken, global_released, host_taken, host_released, sent, debited,
  refunded, reconciled, write_failed, Progress,
}

pub record Counts : Type 0 where
  pub locks : ℕ
  pub unlocks : ℕ
  pub globals : ℕ
  pub global_releases : ℕ
  pub hosts : ℕ
  pub host_releases : ℕ
  pub sends : ℕ
  pub debits : ℕ
  pub refunds : ℕ
  pub reconciles : ℕ
  pub failed_writes : ℕ

unfoldable pub bump : Event → Counts → Counts
bump locked c = record c { locks = c.locks + 1 }
bump unlocked c = record c { unlocks = c.unlocks + 1 }
bump global_taken c = record c { globals = c.globals + 1 }
bump global_released c = record c { global_releases = c.global_releases + 1 }
bump host_taken c = record c { hosts = c.hosts + 1 }
bump host_released c = record c { host_releases = c.host_releases + 1 }
bump sent c = record c { sends = c.sends + 1 }
bump (debited _) c = record c { debits = c.debits + 1 }
bump (refunded _) c = record c { refunds = c.refunds + 1 }
bump (reconciled _) c = record c { reconciles = c.reconciles + 1 }
bump (write_failed _) c = record c { failed_writes = c.failed_writes + 1 }

abbrev pub no_events : Counts
no_events = record {
  locks = 0;
  unlocks = 0;
  globals = 0;
  global_releases = 0;
  hosts = 0;
  host_releases = 0;
  sends = 0;
  debits = 0;
  refunds = 0;
  reconciles = 0;
  failed_writes = 0;
}

count_from : Counts → List Event → Counts
count_from c [] = c
count_from c (e ∷ es) = count_from (bump e c) es

unfoldable pub counts : List Event → Counts
unfolding count_from
counts es = count_from no_events es

count_from-snoc :
    (c : Counts) (es : List Event) (e : Event)
    → count_from c (es ++ e ∷ []) ≡ bump e (count_from c es)
unfolding count_from
count_from-snoc c [] e = refl
count_from-snoc c (x ∷ es) e = count_from-snoc (bump x c) es e

pub counts-snoc : (es : List Event) (e : Event) → counts (es ++ e ∷ []) ≡ bump e (counts es)
unfolding counts
counts-snoc es e = count_from-snoc no_events es e

abbrev pub bit : Bool → ℕ
bit true = 1
bit false = 0

abbrev pub has_state : Option ScopeState → Bool
has_state none = false
has_state (some _) = true

-- The flags say what has happened, and nothing is released yet.
pub record IsFaithful (p : Progress) : Type 0 where
  pub lock : (counts p.events).locks ≡ bit p.lock_acquired
  pub global : (counts p.events).globals ≡ bit p.global_acquired
  pub host : (counts p.events).hosts ≡ bit p.host_acquired
  pub unlocks : (counts p.events).unlocks ≡ 0
  pub global_releases : (counts p.events).global_releases ≡ 0
  pub host_releases : (counts p.events).host_releases ≡ 0
  pub sends : (counts p.events).sends ≡ bit p.dispatched
  pub settlements : (counts p.events).refunds + (counts p.events).reconciles ≡ bit p.settled
  pub one_debit : (counts p.events).debits ≤ bit (has_state p.state)

-- No refund is made yet.
abbrev pub NoRefund : Progress → Type 0
NoRefund p = (counts p.events).refunds ≡ 0
