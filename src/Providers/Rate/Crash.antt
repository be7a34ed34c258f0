-- ===== src/Providers/Rate/Crash.antt =====
-- A crash between the writes of `initialize_scope`, and the creation of the registry.
use follow_the_money.Base.{
  ℕ, zero, suc, ◌≡◌, refl, ◌⊎◌, inl, inr, true, false, none, some, arith, List, [], ◌∷◌, take, ◌<◌,
  ◌≤◌, Result, ok, err, Result-cases, Bool-cases,
}
use follow_the_money.Base.Order.{Str, str_order, same_refl}
use follow_the_money.Base.Table.{Table, lookup, insert, contains, lookup-insert_self}
use follow_the_money.Base.Time.{Instant}
use follow_the_money.Providers.Rate.State.{
  Host, initializing, active, ScopeState, RateError, already_initialized, initializing_with_request,
  not_in_registry,
}
use follow_the_money.Providers.Rate.Registry.{
  Registry, RegistryFile, absent, unreadable, readable, stored, Disk, Write, write_registry,
  create_state, apply_all, read_registry, full_state, with_entry, policy_fp, initialize_scope,
  recover_or_load, ensure_registry,
}

contains-insert_self :
    {V : Type 0} (k : Str) (v : V) (d : Table Str V) → contains k (insert k v d) ≡ true
unfolding contains insert
contains-insert_self k v [] = ground (arith, same_refl k)
contains-insert_self k v ((j, w) ∷ d) = ground (arith, same_refl k, contains-insert_self k v d)

absent_key : {V : Type 0} (k : Str) (d : Table Str V) → contains k d ≡ false → lookup k d ≡ none
unfolding lookup contains
absent_key k [] e = refl
absent_key k ((j, v) ∷ d) e = ground (arith, absent_key k d)

RegistryFile-cases :
    (f : RegistryFile) → (f ≡ absent) ⊎ ((f ≡ unreadable) ⊎ ((r : Registry) × (f ≡ readable r)))
RegistryFile-cases absent = inl refl
RegistryFile-cases unreadable = inr (inl refl)
RegistryFile-cases (readable r) = inr (inr (r, refl))

empty_registry : Host → Registry
empty_registry h = record { known_version = true; root_identity = h.root_identity; scopes = [] }

module _ (h : Host) where
  -- The registry reads as `r`.
  abbrev Reads : Disk → Registry → Type 0
  Reads disk r = read_registry h disk ≡ ok r

  module _ (id : Str) (capacity period interval : ℕ) (now : Instant) where
    state : ScopeState
    state = full_state h id capacity period interval now

    marked : Registry → Registry
    marked r = with_entry h r id initializing none

    finished : Registry → Registry
    unfolding state marked
    finished r = with_entry h (marked r) id active (some (policy_fp h state))

    -- The disk after each of the three phases.
    disk_marked : Disk → Registry → Disk
    disk_marked disk r = record disk { registry = readable (marked r) }

    disk_stored : Disk → Registry → Disk
    unfolding state disk_marked
    disk_stored disk r = record (disk_marked disk r) {
      states = insert (h.scope_file id) (stored state) disk.states;
    }

    disk_finished : Disk → Registry → Disk
    unfolding disk_stored
    disk_finished disk r = record (disk_stored disk r) { registry = readable (finished r) }

    -- The state with which a recovery goes on: full, and no request dispatched.
    abbrev pub full_active : ScopeState
    full_active = record (full_state h id capacity period interval now) { status = active }

    recover_marked :
        (disk : Disk) (r : Registry)
        → Reads disk r
        → lookup (h.scope_file id) disk.states ≡ none
        → recover_or_load h (disk_marked disk r) id ≡ err initializing_with_request
    unfolding recover_or_load disk_marked marked
    recover_marked disk r reads free = ground (
      arith,
      lookup-insert_self id (record { status = initializing; policy_fingerprint = none }) r.scopes,
    )

    recover_stored :
        (disk : Disk) (r : Registry)
        → Reads disk r
        → (w : List Write) × (recover_or_load h (disk_stored disk r) id ≡ ok (full_active, w))
    unfolding recover_or_load disk_stored marked state full_state
    recover_stored disk r reads = (
      write_registry (with_entry h (marked r) id active (some (policy_fp h state))) ∷ [],
      ground (
        arith,
        lookup-insert_self id (record { status = initializing; policy_fingerprint = none })
            r.scopes,
        lookup-insert_self (h.scope_file id) (stored state) disk.states,
      ),
    )

    recover_finished :
        (disk : Disk) (r : Registry)
        → Reads disk r
        → recover_or_load h (disk_finished disk r) id ≡ ok (full_active, [])
    unfolding recover_or_load disk_finished finished marked state full_state
    recover_finished disk r reads = ground (
      arith,
      lookup-insert_self id
          (record { status = active; policy_fingerprint = some (policy_fp h state) })
          (marked r).scopes,
      lookup-insert_self (h.scope_file id) (stored state) disk.states,
    )

    lookup-contains : (r : Registry) → contains id r.scopes ≡ false → lookup id r.scopes ≡ none
    lookup-contains r e = absent_key id r.scopes e

    recover_before :
        (disk : Disk) (r : Registry)
        → Reads disk r
        → contains id r.scopes ≡ false
        → recover_or_load h disk id ≡ err not_in_registry
    unfolding recover_or_load
    recover_before disk r reads free = ground (arith, lookup-contains r free)

    -- The writes of a successful `initialize_scope`, in order.
    initialize_writes :
        (disk : Disk) (ws : List Write)
        → initialize_scope h disk id capacity period interval now ≡ ok ws
        → (r : Registry) × Reads disk r
          × (contains id r.scopes ≡ false)
          × (ws ≡ write_registry (marked r) ∷ create_state state ∷ write_registry (finished r) ∷ [])
    unfolding initialize_scope finished marked state
    initialize_writes disk ws e = elim (Result-cases (read_registry h disk)) [
      | inr (x, bad) ↦ absurd (ground arith)
      | inl (r, reads) ↦ elim (Bool-cases (contains id r.scopes)) [
        | inl there ↦ absurd (ground arith)
        | inr free ↦ (r, reads, free, ground arith)
      ]
    ]

    -- The disk after the first `k` of the three writes.
    after_writes : ℕ → Disk → Registry → Disk
    after_writes zero disk r = disk
    after_writes (suc zero) disk r = disk_marked disk r
    after_writes (suc (suc zero)) disk r = disk_stored disk r
    after_writes (suc (suc (suc k))) disk r = disk_finished disk r

    apply_first :
        (k : ℕ) (disk : Disk) (r : Registry)
        → contains (h.scope_file id) disk.states ≡ false
        → apply_all h
            (take k
              (write_registry (marked r) ∷ create_state state ∷ write_registry (finished r) ∷ []))
            disk
          ≡ ok (after_writes k disk r)
    unfolding after_writes apply_all disk_finished full_state
    apply_first zero disk r free = refl
    apply_first (suc zero) disk r free = refl
    apply_first (suc (suc zero)) disk r free = rw free refl
    apply_first (suc (suc (suc zero))) disk r free = rw free refl
    apply_first (suc (suc (suc (suc k)))) disk r free = rw free refl

    initialize_marked :
        (disk : Disk) (r : Registry) (capacity' period' interval' : ℕ) (later : Instant)
        → Reads disk r
        → initialize_scope h (disk_marked disk r) id capacity' period' interval' later
          ≡ err already_initialized
    unfolding initialize_scope disk_marked marked
    initialize_marked disk r capacity' period' interval' later reads = ground (
      arith,
      contains-insert_self id (record { status = initializing; policy_fingerprint = none })
          r.scopes,
    )

  -- How a recovery ends after a crash: refused, or with the full state, and with the full state
  -- at the latest after the second write.
  abbrev pub RecoversFull :
      ℕ → Str → ScopeState → Result RateError (ScopeState × List Write) → Type 0
  RecoversFull k id full r =
      ((k < 2) × ((e : RateError) × (r ≡ err e)))
      ⊎ ((2 ≤ k) × ((w : List Write) × (r ≡ ok (full, w))))

  -- If the process dies after any number of the writes of `initialize_scope`, the next recovery is
  -- refused or gives a full, active state in which no request was dispatched; from the second
  -- write on it gives that state. No state file of the scope was there before.
  pub initialize_scope_crash :
      (disk disk' : Disk) (id : Str) (capacity period interval k : ℕ) (now : Instant)
      (ws : List Write)
      → contains (h.scope_file id) disk.states ≡ false
      → initialize_scope h disk id capacity period interval now ≡ ok ws
      → apply_all h (take k ws) disk ≡ ok disk'
      → RecoversFull k id (full_active id capacity period interval now) (recover_or_load h disk' id)
  initialize_scope_crash disk disk' id capacity period interval k now ws free e a =
      let (r, reads, fresh, writes) = initialize_writes id capacity period interval now disk ws e in
      let there : disk' ≡ after_writes id capacity period interval now k disk r =
        cc (apply_first id capacity period interval now k disk r free) in
      rw there (stages k disk r (absent_key (h.scope_file id) disk.states free) reads fresh)
    where
      stages :
          (k : ℕ) (disk : Disk) (r : Registry)
          → lookup (h.scope_file id) disk.states ≡ none
          → Reads disk r
          → contains id r.scopes ≡ false
          → RecoversFull k id
              (full_active id capacity period interval now)
              (recover_or_load h (after_writes id capacity period interval now k disk r) id)
      stages zero disk r empty reads fresh = inl (
        omega arith,
        (
          not_in_registry,
          unfold after_writes in recover_before id capacity period interval now disk r reads fresh,
        ),
      )
      stages (suc zero) disk r empty reads fresh = inl (
        omega arith,
        (
          initializing_with_request,
          unfold after_writes in recover_marked id capacity period interval now disk r reads empty,
        ),
      )
      stages (suc (suc zero)) disk r empty reads fresh = inr (
        omega arith,
        unfold after_writes in recover_stored id capacity period interval now disk r reads,
      )
      stages (suc (suc (suc k))) disk r empty reads fresh = inr (
        omega arith,
        ([], unfold after_writes in recover_finished id capacity period interval now disk r reads),
      )

  -- A crash right after the first write leaves a scope that no later call can bring up: the
  -- recovery is refused, and so is another initialization.
  pub initialize_scope_stuck :
      (disk disk' : Disk) (id : Str) (capacity period interval capacity' period' interval' : ℕ)
      (now later : Instant) (ws : List Write)
      → contains (h.scope_file id) disk.states ≡ false
      → initialize_scope h disk id capacity period interval now ≡ ok ws
      → apply_all h (take 1 ws) disk ≡ ok disk'
      → (recover_or_load h disk' id ≡ err initializing_with_request)
        × (initialize_scope h disk' id capacity' period' interval' later ≡ err already_initialized)
  initialize_scope_stuck disk disk' id capacity period interval capacity' period' interval' now
        later ws free e a =
      let (r, reads, fresh, writes) = initialize_writes id capacity period interval now disk ws e in
      let there : disk' ≡ disk_marked id capacity period interval now disk r =
        (let first : apply_all h (take 1 ws) disk
              ≡ ok (disk_marked id capacity period interval now disk r) =
            rw writes
              (unfold after_writes in apply_first id capacity period interval now 1 disk r free) in
          cc) in
      rw there (
        recover_marked id capacity period interval now disk r reads
            (absent_key (h.scope_file id) disk.states free),
        initialize_marked id capacity period interval now disk r capacity' period' interval' later
            reads,
      )

  -- A root whose registry is gone but which is marked as persistent is refused, a registry that is
  -- there is never overwritten, and a new root gets an empty registry and the mark.
  pub ensure_registry_lem :
      (disk : Disk) (ws : List Write)
      → ensure_registry h disk ≡ ok ws
      → ((disk.registry ≡ absent)
          × (disk.marker ≡ false)
          × ((d : Disk) × (apply_all h ws disk ≡ ok d)
              × (d.marker ≡ true)
              × ((r : Registry) × (read_registry h d ≡ ok r) × (r.scopes ≡ []))))
        ⊎ ((ws ≡ []) × ((r : Registry) × (read_registry h disk ≡ ok r)))
  unfolding ensure_registry apply_all
  ensure_registry_lem disk ws e = elim (RegistryFile-cases disk.registry) [
    | inr (inl bad) ↦ absurd (ground arith)
    | inr (inr (r, there)) ↦ inr (elim (Result-cases (read_registry h disk)) [
      | inr (x, bad) ↦ absurd (ground arith)
      | inl (r', reads) ↦ (ground arith, (r', reads))
    ])
    | inl gone ↦ elim (Bool-cases disk.marker) [
      | inl marked_root ↦ absurd (ground arith)
      | inr fresh ↦ inl (
        gone,
        fresh,
        (
          record disk { registry = readable (empty_registry h); marker = true },
          unfold empty_registry in ground arith,
          refl,
          (
            empty_registry h,
            unfold empty_registry read_registry in ground (arith, same_refl h.root_identity),
            unfold empty_registry in refl,
          ),
        ),
      )
    ]
  ]
