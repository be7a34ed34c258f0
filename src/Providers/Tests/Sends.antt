-- ===== src/Providers/Tests/Sends.antt =====
-- One send that is answered.
use follow_the_money.Base.{◌*◌, true, false, none, some, [], ◌∷◌, ok}
use follow_the_money.Base.Time.{second, utc}
use follow_the_money.Providers.Rate.State.{ScopeState, active}
use follow_the_money.Providers.Session.Send.{responds, Script, send, start}
use follow_the_money.Providers.Session.Settled.Counts.{counts}
use follow_the_money.Providers.Session.Settled.Theorems.{
  IsReleased, IsSettledOnce, send-IsReleased, send-IsSettledOnce,
}
use follow_the_money.Providers.Tests.Numbers.{host}

-- A cooldown of an upstream holds until the second 300.
abbrev loaded : ScopeState
loaded = record {
  scope_id = 115 ∷ [];
  status = active;
  tokens = 2 ∷ [];
  capacity = 3 ∷ [];
  refill_period_seconds = 0;
  minimum_interval_seconds = 10;
  refill_wall_anchor = utc (100 * second);
  last_dispatch_wall = some (utc (100 * second));
  cooldown_until = some (utc (300 * second));
  policy_fingerprint = none;
}

-- The write of the reconciliation fails, and the `except` clause reconciles again.
abbrev answered : Script
answered = record {
  url = ok tt;
  first_deadline = ok tt;
  scope_lock = some (ok tt);
  managed = true;
  load = ok loaded;
  wait = ok tt;
  reload = ok loaded;
  global_gate = some (ok tt);
  host_gate = some (ok tt);
  last_deadline = ok tt;
  transport = some (responds (record { status = 200; retry_after = none }));
  refill_at = 100 * second;
  delay_at = 299 * second;
  refill_again_at = 100 * second;
  debit_at = 301 * second;
  observed_at = 302 * second;
  debit_stored = true;
  inner = record { at = 302 * second; again_at = 302 * second; stored = false };
  outer = record { at = 303 * second; again_at = 303 * second; stored = true };
}

send-IsReleased_example : IsReleased (counts (send host answered start).1.events)
send-IsReleased_example = send-IsReleased host answered

send-IsSettledOnce_example :
    IsSettledOnce (send host answered start).0 (counts (send host answered start).1.events)
send-IsSettledOnce_example = send-IsSettledOnce host answered
