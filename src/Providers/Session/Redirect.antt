-- ===== src/Providers/Session/Redirect.antt =====
-- src/follow_the_money/providers/session.py, lines 102 to 139: `get`, which follows redirects. A
-- send, `urljoin` and the tests of a redirect target come in as a record of functions.
use mathlib.Core.Path.{◌≡◌, refl}
use follow_the_money.Base.{
  ℕ, zero, suc, ◌+◌, ◌≤◌, ◌≡◌, refl, Bool, false, Option, none, some, List, [], ◌∷◌, ◌||◌, not,
  ◌==◌, arith, inl, inr, ◌⊎◌, Bool-cases, Option-cases, Result-cases, if◌then◌else◌, Result, ok,
  err, length,
}
use follow_the_money.Base.Order.{Str, str_order}
use follow_the_money.Base.Table.{member}
use follow_the_money.Providers.Session.Send.{SendError, fetch}

-- A response: its status if that is a number, and its location, stripped, if that is not blank.
pub record Reply : Type 0 where
  pub status : Option ℕ
  pub location : Option Str

-- The first argument of `send` is the number of the hop, which decides the rules for the host.
pub record Web : Type 0 where
  pub send : ℕ → Str → Result SendError Reply
  pub join : Str → Str → Str
  pub validate : Str → Result SendError (Unit {0})

-- What one hop comes to.
pub data Hop : Type 0 where
  answer : Reply → Hop
  redirect : Str → Hop

unfoldable pub is_redirect : ℕ → Bool
is_redirect status =
    (status == 301) || (status == 302) || (status == 303) || (status == 307) || (status == 308)

module _ (web : Web) (follow_redirects : Bool) where
  -- The target of a redirect, validated.
  unfoldable pub follow : Str → Reply → Option Str → Result SendError Hop
  follow current reply none = ok (answer reply)
  follow current reply (some location) = elim (web.validate (web.join current location)) [
    | err e ↦ err e
    | ok _ ↦ ok (redirect (web.join current location))
  ]

  unfoldable pub classify : Str → Reply → Option ℕ → Result SendError Hop
  unfolding follow is_redirect
  classify current reply none = err (fetch false)
  classify current reply (some status) =
      if not follow_redirects || not (is_redirect status)
      then ok (answer reply)
      else follow current reply reply.location

  unfoldable pub one_hop : ℕ → Str → Result SendError Hop
  unfolding classify
  one_hop hop current = elim (web.send hop current) [
    | err e ↦ err e
    | ok reply ↦ classify current reply reply.status
  ]

  -- The loop, with the number of hops left after this one, and the targets that it goes on to.
  unfoldable pub follow_chain : ℕ → ℕ → List Str → Str → Result SendError (Str × Reply) × List Str
  unfolding one_hop
  follow_chain zero hop visited current = elim (one_hop hop current) [
    | err e ↦ (err e, [])
    | ok (answer reply) ↦ (ok (current, reply), [])
    | ok (redirect target) ↦ (err (fetch false), [])
  ]
  follow_chain (suc left) hop visited current = elim (one_hop hop current) [
    | err e ↦ (err e, [])
    | ok (answer reply) ↦ (ok (current, reply), [])
    | ok (redirect target) ↦
        let rest = follow_chain left (hop + 1) (target ∷ visited) target in
        if member target visited then (err (fetch false), []) else (rest.0, target ∷ rest.1)
  ]

  -- The result with the last URL, and the URLs that are sent, in order.
  unfoldable pub get : ℕ → Str → Result SendError (Str × Reply) × List Str
  unfolding follow_chain
  get max_redirect_hops url =
      let chain = follow_chain max_redirect_hops 0 (url ∷ []) url in (chain.0, url ∷ chain.1)

  -- Each URL is validated, and none is among those before it.
  abbrev pub IsFresh : List Str → List Str → Type 0
  IsFresh visited [] = Unit
  IsFresh visited (target ∷ targets) =
      (member target visited ≡ false)
      × (web.validate target ≡ ok tt)
      × IsFresh (target ∷ visited) targets

  one_hop-validate :
      (hop : ℕ) (current target : Str)
      → one_hop hop current ≡ ok (redirect target)
      → web.validate target ≡ ok tt
  unfolding one_hop classify follow
  one_hop-validate hop current target e = elim (Result-cases (web.send hop current)) [
    | inr (x, bad) ↦ ground arith
    | inl (reply, r) ↦ elim (Option-cases reply.status) [
      | inl n ↦ ground arith
      | inr (status, s) ↦ elim (Option-cases reply.location) [
        | inl n ↦ ground arith
        | inr (location, l) ↦ elim (Result-cases (web.validate (web.join current location))) [
          | inr (x, bad) ↦ ground arith
          | inl (u, v) ↦ ground arith
        ]
      ]
    ]
  ]

  answer_cases :
      (h : Result SendError Hop)
      → ((e : SendError) × (h ≡ err e))
        ⊎ (((r : Reply) × (h ≡ ok (answer r))) ⊎ ((t : Str) × (h ≡ ok (redirect t))))
  answer_cases (err e) = inl (e, refl)
  answer_cases (ok (answer r)) = inr (inl (r, refl))
  answer_cases (ok (redirect t)) = inr (inr (t, refl))

  follow_chain-IsFresh :
      (left hop : ℕ) (visited : List Str) (current : Str)
      → IsFresh visited (follow_chain left hop visited current).1
        × (length (follow_chain left hop visited current).1 ≤ left)
  unfolding follow_chain
  follow_chain-IsFresh zero hop visited current = elim (answer_cases (one_hop hop current)) [
    | inl (e, h) ↦ ground arith
    | inr (inl (r, h)) ↦ ground arith
    | inr (inr (t, h)) ↦ ground arith
  ]
  follow_chain-IsFresh (suc left) hop visited current = elim (answer_cases (one_hop hop current)) [
    | inl (e, h) ↦ ground arith
    | inr (inl (r, h)) ↦ ground arith
    | inr (inr (t, h)) ↦ elim (Bool-cases (member t visited)) [
      | inl m ↦ ground arith
      | inr m ↦
          (let ih = follow_chain-IsFresh left (hop + 1) (t ∷ visited) t in
            let v = one_hop-validate hop current t h in ground arith)
    ]
  ]

  -- A `get` sends its URL first, and then at most as many redirect targets as it has hops; each of
  -- them has passed the tests of a redirect target, and no URL is sent twice.
  pub get-IsFresh :
      (max_redirect_hops : ℕ) (url : Str)
      → (targets : List Str) × ((get max_redirect_hops url).1 ≡ url ∷ targets)
        × IsFresh (url ∷ []) targets
        × (length targets ≤ max_redirect_hops)
  unfolding get
  get-IsFresh max_redirect_hops url =
      let chain = follow_chain max_redirect_hops 0 (url ∷ []) url in
      let fresh = follow_chain-IsFresh max_redirect_hops 0 (url ∷ []) url in
      (chain.1, refl, fresh.0, fresh.1)
