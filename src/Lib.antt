-- ===== src/Lib.antt =====
-- A model of Follow the Money (src/follow_the_money), which collects evidence from official
-- Providers and publishes it as one Feed. A run plans its evidence window (feed/plan.py,
-- plan_window), fetches from each Provider through a managed client (providers/session.py) whose
-- sends are admitted by a durable rate registry (providers/rate.py), judges the slices of items
-- (feed/freshness.py), removes duplicates (feed/dedupe.py), carries an unchanged slice of
-- the active Feed forward (feed/snapshot.py), decides if the run failed (feed/plan.py,
-- assess_pipeline), makes a bundle of typed artifacts with a manifest (feed/bundle.py), and installs
-- and activates it (feed/publish.py); feed/cli.py, run_feed, holds the lock and moves the checkpoint
-- (feed/checkpoint.py) on. A hosted run is admitted by a lease (feed/deployment.py).
--
-- Files:
--   Base              shared: tests on numbers, lists, results, order, sorting, tables, time
--   Canonical         canonical.py and unicode.py: JSON values and their canonical bytes
--   Config            config/model.py
--   Feed/Plan         feed/plan.py: plan_window; Continuity: its laws over many runs
--   Feed/Outcome      feed/plan.py: ProviderOutcome, contributes_to_coverage, ordered_outcomes
--   Feed/Assess       feed/plan.py: assess_pipeline; Planned, Order and Coverage: its laws
--   Feed/Item         the members of a Feed item that the modelled code reads
--   Feed/Freshness    feed/freshness.py
--   Feed/Dedupe       feed/dedupe.py; Survivors and Near: its laws
--   Feed/Snapshot     feed/snapshot.py: Select has select_provider_slices, Active load_active_feed;
--                     Slices, Origin and Consumable: their laws
--   Feed/Publish      feed/publish.py: Run has publish_bundle; Installation, Activation and
--                     Ownership: its laws
--   Feed/Checkpoint   feed/checkpoint.py; Laws: its file
--   Feed/Lease        feed/deployment.py: the lease; Laws, File and Read: its file
--   Feed/Deployment   feed/deployment.py: Layout has the files and their tests, Prepare
--                     prepare_deployment and assert_feed_admitted, Finalize finalize_deployment;
--                     Change, Prepared and Ended: what they do to the lease; Runs, Sound, Starts and
--                     Exclusive: many runs in any order, as a step relation
--   Feed/Bundle       feed/bundle.py; Groups, Ids, Built, RoundTrip and Accepted: its laws
--   Feed/Run          feed/cli.py: run_feed; Laws, Ends and Completes: its laws
--   Providers/Rate    providers/rate.py: State has the transitions of a scope, Registry the files
--                     and the life of a scope; Eligible and Crash: their laws
--   Providers/Session providers/session.py: Send has _send; Settled: its laws; Redirect has get
--   The modules Tests have concrete runs.
--
-- How the code corresponds. A Python function is a function of its arguments and of the readings of
-- the clock that it makes, in order; an exception is an error value. A dictionary is a list of
-- entries in insertion order. An aware time is its number of microseconds, and a timestamp text is
-- what datetime.fromisoformat reads from it. The rate registry is a record of files, and each of
-- its operations gives the list of its durable writes, so that a crash is a prefix of that list.
-- One send is a state of the local variables of _send with a log of its effects; what the calls of
-- other code give in that send is a script. A write of the rate file may fail there too. Python's
-- decimal and hashlib are the record Host, of which no law is assumed, and unicodedata is the
-- record Unicode. JSON is a data type, and Python's json is the record Encoding, with the law that
-- it reads back what it prints; the timestamps of the lease are the record IsoTexts, and the bytes
-- of a bundle with its schemas and validate_feed the record Codec. A run of run_feed is its result
-- with the list of its effects, and what the code between the registry and the bundle makes is an
-- input. No function takes fuel: a loop is recursion on a list, or on the number of hops that are
-- left.
--
-- Not modelled: the adapters and parsers of upstream documents, the shape rules of feed/validate.py
-- and config/load.py, the retries and the concurrency of feed/cli.py, the migrations of earlier
-- bundles and the git side of feed/deployment.py, rendering (digest.py), the byte formats of the
-- rate registry, and the operating system's part in an atomic write. A comparison of a title
-- similarity with its threshold is exact here and by floats in the code.
pub mod Base
pub mod Canonical
pub mod Config
pub mod Feed
pub mod Providers
