-- ===== src/Base/Table/Perm.antt =====
-- A table does not depend on the order of its entries, where no key is held twice.
use mathlib.Core.Path.{◌≡◌, refl, sym, ◌∙◌}
use mathlib.Core.Bool.{false}
use mathlib.Core.List.{[], ◌∷◌, Permᴰ}
use mathlib.Core.List.Permᴰ
use native.Mathlib.Omega.{arith}
use follow_the_money.Base.Order.{Order, same→eq, same_refl}
use follow_the_money.Base.Table.{Table, lookup, contains, keys}

module _ {ℓ κ} {K : Type ℓ} {V : Type κ} ⦃o : Order K⦄ where
  abbrev pub IsDict : Table K V → Type 0
  IsDict [] = Unit
  IsDict ((k, v) ∷ d) = (contains k d ≡ false) × IsDict d

  contains-swap :
      (k : K) (x y : K × V) (d : Table K V) → contains k (x ∷ y ∷ d) ≡ contains k (y ∷ x ∷ d)
  unfolding contains
  contains-swap k x y d = ground arith

  contains-perm : {d e : Table K V} (k : K) → Permᴰ d e → contains k d ≡ contains k e
  unfolding contains
  contains-perm k Permᴰ.nil = refl
  contains-perm k (Permᴰ.cons {a} {b} {l₁} {l₂} e p) = rw e (ground (arith, contains-perm k p))
  contains-perm k (Permᴰ.swap {a} {b} {a'} {b'} {l} e f) = rw (← e, ← f) (contains-swap k a b l)
  contains-perm k (Permᴰ.trans p q) = contains-perm k p ∙ contains-perm k q

  IsDict-swap : (x y : K × V) (d : Table K V) → IsDict (x ∷ y ∷ d) → IsDict (y ∷ x ∷ d)
  unfolding contains
  IsDict-swap x y d h = ground arith

  pub IsDict-perm : {d e : Table K V} → Permᴰ d e → IsDict d → IsDict e
  IsDict-perm Permᴰ.nil h = tt
  IsDict-perm (Permᴰ.cons {a} {b} {l₁} {l₂} e p) h =
      rw (← e) (sym (contains-perm a.0 p) ∙ h.0, IsDict-perm p h.1)
  IsDict-perm (Permᴰ.swap {a} {b} {a'} {b'} {l} e f) h = rw (← e, ← f) (IsDict-swap a b l h)
  IsDict-perm (Permᴰ.trans p q) h = IsDict-perm q (IsDict-perm p h)

  lookup-swap :
      (k : K) (x y : K × V) (d : Table K V)
      → IsDict (x ∷ y ∷ d)
      → lookup k (x ∷ y ∷ d) ≡ lookup k (y ∷ x ∷ d)
  unfolding lookup contains
  lookup-swap k x y d h =
      ground (arith, same→eq x.0 k, same→eq y.0 k, same→eq y.0 x.0, same_refl x.0, same_refl k)

  pub lookup-perm : {d e : Table K V} (k : K) → Permᴰ d e → IsDict d → lookup k d ≡ lookup k e
  unfolding lookup
  lookup-perm k Permᴰ.nil h = refl
  lookup-perm k (Permᴰ.cons {a} {b} {l₁} {l₂} e p) h =
      rw (← e) (ground (arith, lookup-perm k p h.1))
  lookup-perm k (Permᴰ.swap {a} {b} {a'} {b'} {l} e f) h = rw (← e, ← f) (lookup-swap k a b l h)
  lookup-perm k (Permᴰ.trans p q) h = lookup-perm k p h ∙ lookup-perm k q (IsDict-perm p h)

  pub keys-perm : {d e : Table K V} → Permᴰ d e → Permᴰ (keys d) (keys e)
  keys-perm p = Permᴰ.map (λ x. x.0) p
