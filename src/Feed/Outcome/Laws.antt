-- ===== src/Feed/Outcome/Laws.antt =====
-- Laws of one Provider's outcome, and of the order in which outcomes are serialized.
use follow_the_money.Base.{
  ℕ, ◌+◌, ◌-◌, ◌≤◌, ◌<◌, ◌≡◌, refl, ◌⊎◌, inl, inr, Bool, true, false, some, arith, List, [], ◌∷◌,
  ◌++◌, ap, Bool-cases, leb, ok, err,
}
use mathlib.Core.List.{Permᴰ, append-nil}
use follow_the_money.Base.Order.{Str, str_order}
use follow_the_money.Base.Sort.{sort_by, sort_by-eq_of_permᴰ}
use follow_the_money.Base.Table.{Table, lookup, keys}
use follow_the_money.Base.Table.Perm.{IsDict, lookup-perm, keys-perm}
use follow_the_money.Canonical.{is_scalar}
use follow_the_money.Feed.Outcome.{
  ProviderOutcome, utf8_width, utf8_length, cut_bytes, bounded_availability_reason, surrogate,
  availability_reason_limit, blocked_exempt, contributes_to_coverage, gather, ordered_outcomes,
}

-- The prefix that is kept fits the number of bytes, and the next code point would not fit.
cut_bytes_lem :
    (n : ℕ) (s : Str)
    → (rest : Str) × (cut_bytes n s ++ rest ≡ s)
      × (utf8_length (cut_bytes n s) ≤ n)
      × ((rest ≡ []) ⊎ (n < utf8_length (cut_bytes n s) + 4))
unfolding cut_bytes utf8_length
cut_bytes_lem n [] = ([], refl, omega arith, inl refl)
cut_bytes_lem n (c ∷ s) = elim (Bool-cases (leb (utf8_width c) n)) [
  | inl fits ↦
      (let (rest, e, le, end) = cut_bytes_lem (n - utf8_width c) s in
        rw fits (rest, ap (◌∷◌ c) e, ground arith, ground arith))
  | inr over ↦ rw over (c ∷ s, refl, omega arith, ground arith)
]

-- A reason with a surrogate is refused. Any other is published whole if it has at most 256 bytes,
-- and a longer one is cut at a code point to a prefix of at most 256 bytes and of more than 252.
pub bounded_availability_reason_lem :
    (s : Str)
    → ((is_scalar s ≡ false) × (bounded_availability_reason (some s) ≡ err surrogate))
      ⊎ ((kept rest : Str) × (is_scalar s ≡ true)
          × (bounded_availability_reason (some s) ≡ ok (some kept))
          × (kept ++ rest ≡ s)
          × (utf8_length kept ≤ availability_reason_limit)
          × (utf8_length s ≤ availability_reason_limit → rest ≡ [])
          × (availability_reason_limit < utf8_length s → 252 < utf8_length kept))
unfolding bounded_availability_reason
bounded_availability_reason_lem s = elim (Bool-cases (is_scalar s)) [
  | inr bad ↦ inl (bad, rw bad refl)
  | inl good ↦ elim (Bool-cases (leb (utf8_length s) 256)) [
    | inl short ↦ inr (
      s,
      [],
      good,
      rw (good, short) refl,
      append-nil s,
      ground arith,
      (λ _. refl),
      (λ long. ground arith),
    )
    | inr long ↦
        (let (rest, e, le, end) = cut_bytes_lem 256 s in
          inr (
            cut_bytes 256 s,
            rest,
            good,
            rw (good, long) refl,
            e,
            le,
            (λ short. ground arith),
            (λ _. elim end [
              | inl none ↦ ground (arith, append-nil (cut_bytes 256 s))
              | inr more ↦ omega arith
            ]),
          ))
  ]
]

-- An outcome that is exempted as blocked never counts as coverage.
pub blocked_exempt-not_contributing :
    (o : ProviderOutcome) (empty_valid : Bool)
    → blocked_exempt o ≡ true
    → contributes_to_coverage o empty_valid ≡ false
unfolding blocked_exempt contributes_to_coverage
blocked_exempt-not_contributing o empty_valid h = ground arith

gather-congr {ℓ} :
    {V : Type ℓ} (ks : List Str) (d e : Table Str V)
    → ((k : Str) → lookup k d ≡ lookup k e)
    → gather ks d ≡ gather ks e
unfolding gather
gather-congr [] d e h = refl
gather-congr (k ∷ ks) d e h = ground (arith, h k, gather-congr ks d e h)

-- The serialized outcomes do not depend on the order in which the Providers completed.
pub ordered_outcomes-perm :
    {d e : Table Str ProviderOutcome}
    → Permᴰ d e
    → IsDict d
    → ordered_outcomes d ≡ ordered_outcomes e
unfolding ordered_outcomes
ordered_outcomes-perm {d} {e} p h =
    rw (sort_by-eq_of_permᴰ (λ k. k) (keys-perm p) (λ a b ma mb same. same))
      (gather-congr (sort_by (λ k. k) (keys e)) d e (λ k. lookup-perm k p h))
