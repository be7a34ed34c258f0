-- ===== src/Providers/Tests/Redirects.antt =====
-- A resource that redirects once.
use mathlib.Core.Path.{◌≡◌}
use follow_the_money.Base.{ℕ, zero, suc, ◌≤◌, true, none, some, List, [], ◌∷◌, ok, length}
use follow_the_money.Base.Order.{Str}
use follow_the_money.Providers.Session.Redirect.{Reply, Web, get, IsFresh, get-IsFresh}

abbrev reply : ℕ → Reply
reply zero = record { status = some 302; location = some (98 ∷ []) }
reply (suc n) = record { status = some 200; location = none }

abbrev web : Web
web = record { send = λ hop url. ok (reply hop); join = λ base url. url; validate = λ url. ok tt }

get-IsFresh_example :
    (targets : List Str) × ((get web true 5 (97 ∷ [])).1 ≡ (97 ∷ []) ∷ targets)
    × IsFresh web true ((97 ∷ []) ∷ []) targets
    × (length targets ≤ 5)
get-IsFresh_example = get-IsFresh web true 5 (97 ∷ [])
