-- ===== src/Feed/Snapshot/Consumable.antt =====
-- What an active Feed that is loaded has been tested for.
use mathlib.Core.Path.{◌≡◌, refl, sym, subst}
use follow_the_money.Base.{
  ℕ, Option, none, ◌||◌, ◌&&◌, ◌==◌, ◌∙◌, ap, if◌then◌else◌, ◌≢◌, ◌⊎◌, inl, inr, Bool, true, false,
  some, List, [], ◌∷◌, not, arith, Bool-cases, Option-cases, any, In,
}
use follow_the_money.Base.Order.{Str, str_order, same, same→eq}
use follow_the_money.Base.Table.{Table, lookup, insert, contains, lookup-insert, member}
use follow_the_money.Feed.Assess.{failure}
use follow_the_money.Feed.Item.{Item}
use follow_the_money.Feed.Outcome.{
  State, Availability, blocked, is_healthy, is_empty_state, is_failed, is_blocked, is_denied,
}
use follow_the_money.Feed.Snapshot.Active.{
  ContractSnapshot, ContractEntry, malformed, entry, is_same_text, PublishedOutcome, OutcomeEntry,
  unnamed, named, PublishedFeed, ProductRoot, no_manifest, invalid_bundle, bundle, read_contracts,
  is_consumable, read_outcomes, is_closed, is_failure, checked, load_active_feed,
}

-- The outcome is healthy; or it is empty, and its contract permits that; or it is exempt: blocked by
-- a refusal of the upstream, failed, and with no item.
abbrev pub IsConsumable : ContractSnapshot → PublishedOutcome → Type 0
IsConsumable snapshot o =
    (o.state ≡ State.healthy)
    ⊎ (((o.state ≡ State.empty) × (snapshot.empty_valid_for_window ≡ true))
        ⊎ ((o.availability ≡ blocked)
            × ((o.upstream_http_status ≡ some 401) ⊎ (o.upstream_http_status ≡ some 403))
            × (o.state ≡ State.failed)
            × (o.accepted ≡ 0)
            × (o.rejected ≡ 0)))

is_healthy_lem : (s : State) → is_healthy s ≡ true → s ≡ State.healthy
unfolding is_healthy
is_healthy_lem s p = ground arith

is_empty_lem : (s : State) → is_empty_state s ≡ true → s ≡ State.empty
unfolding is_empty_state
is_empty_lem s p = ground arith

is_failed_lem : (s : State) → is_failed s ≡ true → s ≡ State.failed
unfolding is_failed
is_failed_lem s p = ground arith

is_blocked_lem : (a : Availability) → is_blocked a ≡ true → a ≡ blocked
unfolding is_blocked
is_blocked_lem a p = ground arith

is_denied_lem : (code : Option ℕ) → is_denied code ≡ true → (code ≡ some 401) ⊎ (code ≡ some 403)
unfolding is_denied
is_denied_lem none p = ground arith
is_denied_lem (some c) p = ground arith

exempt_lem :
    (o : PublishedOutcome)
    → (is_blocked o.availability
        && is_denied o.upstream_http_status
        && is_failed o.state
        && (o.accepted == 0)
        && (o.rejected == 0))
      ≡ true
    → (is_blocked o.availability ≡ true)
      × (is_denied o.upstream_http_status ≡ true)
      × (is_failed o.state ≡ true)
      × (o.accepted ≡ 0)
      × (o.rejected ≡ 0)
exempt_lem o p = ground arith

is_consumable-IsConsumable :
    (snapshot : ContractSnapshot) (o : PublishedOutcome)
    → is_consumable snapshot o ≡ true
    → IsConsumable snapshot o
unfolding is_consumable
is_consumable-IsConsumable snapshot o p = elim (Bool-cases (is_healthy o.state)) [
  | inl a ↦ inl (is_healthy_lem o.state a)
  | inr a ↦ elim (Bool-cases (is_empty_state o.state && snapshot.empty_valid_for_window)) [
    | inl b ↦ inr (inl (is_empty_lem o.state (ground arith), ground arith))
    | inr b ↦
        let (s, d, f, x, y) = exempt_lem o (ground arith) in
        inr (
          inr (
            is_blocked_lem o.availability s,
            is_denied_lem o.upstream_http_status d,
            is_failed_lem o.state f,
            x,
            y,
          ))
  ]
]

-- The Feed holds a contract of the Provider, with the digest of its snapshot, and an outcome that
-- is complete or exempt under it.
pub record IsVouched (feed : PublishedFeed) (k : Str) : Type 0 where
  pub snapshot : ContractSnapshot
  pub outcome : PublishedOutcome
  pub contract : In (entry k (some snapshot.digest) snapshot) feed.provider_contracts
  pub of_contract : snapshot.provider_id ≡ some k
  pub reported : In (named outcome) feed.provider_outcomes
  pub of_outcome : outcome.provider_id ≡ k
  pub consumable : IsConsumable snapshot outcome

is_same_text_lem : (t : Option Str) (s : Str) → is_same_text t s ≡ true → t ≡ some s
unfolding is_same_text
is_same_text_lem none s p = ground arith
is_same_text_lem (some t) s p = ap some (same→eq t s p)

entry_tests :
    (contained : Bool) (j : Option Str) (k : Str) (hash : Option Str) (digest : Str) {A : Type 0}
    (rest : Option A) (r : A)
    → (if contained || not (is_same_text j k) || not (is_same_text hash digest) then none else rest)
      ≡ some r
    → (is_same_text j k ≡ true) × (is_same_text hash digest ≡ true) × (rest ≡ some r)
entry_tests contained j k hash digest rest r p = ground arith

-- A contract that is read stands in the list, under its id and with its digest.
read_contracts-In :
    (table contracts : Table Str ContractSnapshot) (es : List ContractEntry) (k : Str)
    (snapshot : ContractSnapshot)
    → read_contracts table es ≡ some contracts
    → lookup k contracts ≡ some snapshot
    → (lookup k table ≡ some snapshot)
      ⊎ (In (entry k (some snapshot.digest) snapshot) es × (snapshot.provider_id ≡ some k))
unfolding read_contracts
read_contracts-In table contracts [] k snapshot p q = inl (ground arith)
read_contracts-In table contracts (malformed ∷ es) k snapshot p q = ground arith
read_contracts-In table contracts (entry j hash s ∷ es) k snapshot p q =
    let (i, d, r) =
      entry_tests (contains j table) s.provider_id j hash s.digest
        (read_contracts (insert j s table) es) contracts p in
    elim (read_contracts-In (insert j s table) contracts es k snapshot r q) [
      | inr (m, n) ↦ inr (inr m, n)
      | inl l ↦
          (let l' = sym (lookup-insert j k s table) ∙ l in
            elim (Bool-cases (same j k)) [
              | inr u ↦ inl (ground arith)
              | inl u ↦
                  (let e : j ≡ k = same→eq j k u in
                    let w : s ≡ snapshot = ground arith in
                    let h = is_same_text_lem hash s.digest d in
                    inr (
                      inl (rw (← w, h, e) refl),
                      rw (← w) (is_same_text_lem s.provider_id j i ∙ ap some e),
                    ))
            ])
    ]

-- The Provider has an outcome in the list that a contract of the table vouches for.
abbrev IsReported : Table Str ContractSnapshot → List OutcomeEntry → Str → Type 0
IsReported contracts es k =
    (o : PublishedOutcome) × ((snapshot : ContractSnapshot) × In (named o) es
      × (o.provider_id ≡ k)
      × (lookup k contracts ≡ some snapshot)
      × (is_consumable snapshot o ≡ true))

module _ (contracts : Table Str ContractSnapshot) (k : Str) where
  read_outcomes-IsReported :
      (valid v : List Str) (es : List OutcomeEntry)
      → read_outcomes contracts valid es ≡ some v
      → member k v ≡ true
      → (member k valid ≡ true) ⊎ IsReported contracts es k
  unfolding read_outcomes
  read_outcomes-IsReported valid v [] e m = ground arith
  read_outcomes-IsReported valid v (unnamed ∷ es) e m = ground arith
  read_outcomes-IsReported valid v (named o ∷ es) e m =
      elim (Option-cases (lookup o.provider_id contracts)) [
        | inl n ↦ ground arith
        | inr (snapshot, l) ↦ elim (Bool-cases (is_consumable snapshot o)) [
          | inr bad ↦ ground arith
          | inl good ↦
              elim (read_outcomes-IsReported (o.provider_id ∷ valid) v es (ground arith) m) [
                | inr x ↦ inr (x.0, (x.1.0, inr x.1.1, x.1.2, x.1.3, x.1.4))
                | inl h ↦ elim (Bool-cases (same o.provider_id k)) [
                  | inl q ↦
                      (let r = same→eq o.provider_id k q in
                        inr (o, (snapshot, inl refl, r, rw (← r) l, good)))
                  | inr q ↦ inl (ground arith)
                ]
              ]
        ]
      ]

any-In :
    {A : Type 0} (p : A → Bool) (a : A) (xs : List A) → any p xs ≡ false → In a xs → p a ≡ false
any-In p a [] e h = elim h [ ]
any-In p a (x ∷ xs) e (inl q) = ground arith
any-In p a (x ∷ xs) e (inr h) = ground (arith, any-In p a xs)

checked_lem :
    (feed loaded : PublishedFeed) (contracts : Table Str ContractSnapshot) (item : Item)
    → checked feed contracts (read_outcomes contracts [] feed.provider_outcomes) ≡ some loaded
    → In item loaded.items
    → (loaded ≡ feed) × IsReported contracts loaded.provider_outcomes item.provider_id
unfolding checked is_closed
checked_lem feed loaded contracts item e h =
    elim (Option-cases (read_outcomes contracts [] feed.provider_outcomes)) [
      | inl n ↦ ground arith
      | inr (valid, r) ↦
          elim (Bool-cases (any (λ i. not (member i.provider_id valid)) feed.items)) [
            | inl t ↦ ground arith
            | inr u ↦
                (let q : feed ≡ loaded = ground arith in
                  let m : not (member item.provider_id valid) ≡ false =
                    any-In (λ i. not (member i.provider_id valid)) item feed.items u
                      (subst (λ f. In item f.items) (sym q) h) in
                  elim (read_outcomes-IsReported contracts item.provider_id [] valid
                    feed.provider_outcomes r (ground arith)) [
                      | inl bad ↦ ground arith
                      | inr v ↦ (
                        sym q,
                        subst (λ f. IsReported contracts f.provider_outcomes item.provider_id) q v,
                      )
                    ])
          ]
    ]

vouched :
    (contracts : Table Str ContractSnapshot) (feed : PublishedFeed) (k : Str)
    → read_contracts [] feed.provider_contracts ≡ some contracts
    → IsReported contracts feed.provider_outcomes k
    → IsVouched feed k
unfolding lookup
vouched contracts feed k r (o, (snapshot, i, e, l, c)) =
    elim (read_contracts-In [] contracts feed.provider_contracts k snapshot r l) [
      | inl bad ↦ ground arith
      | inr (m, n) ↦ record {
        snapshot = snapshot;
        outcome = o;
        contract = m;
        of_contract = n;
        reported = i;
        of_outcome = e;
        consumable = is_consumable-IsConsumable snapshot o c;
      }
    ]

-- An active Feed is loaded only if its run did not fail and if the Provider of each of its items
-- has a contract there, under its id and with the digest of its snapshot, and an outcome that is
-- healthy, or empty where the contract permits that, or exempt: blocked with the status 401 or 403,
-- failed, and with no item accepted or rejected.
pub load_active_feed-IsVouched :
    (root : ProductRoot) (feed : PublishedFeed) (item : Item)
    → load_active_feed root ≡ some feed
    → In item feed.items
    → (feed.status ≢ failure) × IsVouched feed item.provider_id
unfolding load_active_feed is_failure
load_active_feed-IsVouched no_manifest feed item e h = ground arith
load_active_feed-IsVouched invalid_bundle feed item e h = ground arith
load_active_feed-IsVouched (bundle f) feed item e h = elim (Bool-cases (is_failure f.status)) [
  | inl t ↦ ground arith
  | inr u ↦ elim (Option-cases (read_contracts [] f.provider_contracts)) [
    | inl n ↦ ground arith
    | inr (contracts, r) ↦
        (let x = checked_lem f feed contracts item (ground arith) h in
          (
            λ bad. ground arith,
            vouched contracts feed item.provider_id
                (subst (λ g. read_contracts [] g.provider_contracts ≡ some contracts) (sym x.0) r)
                x.1,
          ))
  ]
]
