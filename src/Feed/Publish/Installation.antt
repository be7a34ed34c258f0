-- ===== src/Feed/Publish/Installation.antt =====
-- What the loop that installs the artifacts does to the files.
use mathlib.Core.Path.{◌≡◌, refl, sym, subst, ap, ◌∙◌}
use follow_the_money.Base.{
  ◌⊎◌, inl, inr, Bool, true, false, none, some, List, [], ◌∷◌, ◌++◌, arith, Bool-cases,
  Option-cases, In, select,
}
use follow_the_money.Base.Order.{Str, str_order, same, same→eq}
use follow_the_money.Base.Table.{Table, lookup, insert, member, lookup-insert, lookup-insert_self}
use follow_the_money.Feed.Publish.{Fault, no_fault, before_link, after_link, install_all}

pub select-lookup :
    (keep : Str → Bool) (k : Str) (d : Table Str Str)
    → keep k ≡ true
    → lookup k (select (λ e. keep e.0) d) ≡ lookup k d
unfolding lookup
select-lookup keep k [] h = refl
select-lookup keep k ((j, v) ∷ d) h = elim (Bool-cases (same j k)) [
  | inl t ↦
      (let e = same→eq j k t in
        let kept : keep j ≡ true = subst (λ i. keep i ≡ true) (sym e) h in ground arith)
  | inr u ↦ elim (Bool-cases (keep j)) [
    | inl t ↦ ground (arith, select-lookup keep k d h)
    | inr f ↦ ground (arith, select-lookup keep k d h)
  ]
]

Fault-cases : (f : Fault) → (f ≡ no_fault) ⊎ ((f ≡ before_link) ⊎ (f ≡ after_link))
Fault-cases no_fault = inl refl
Fault-cases before_link = inr (inl refl)
Fault-cases after_link = inr (inr refl)

member-snoc :
    (k j : Str) (ks : List Str)
    → member k ks ≡ false
    → same j k ≡ false
    → member k (ks ++ j ∷ []) ≡ false
member-snoc k j [] m n = ground arith
member-snoc k j (i ∷ ks) m n = ground (arith, member-snoc k j ks)

module _ (installs : Str → Fault) (k : Str) (v : Str) where
  there :
      (path content : Str) (files : Table Str Str)
      → lookup path files ≡ none
      → lookup k files ≡ some v
      → (same path k ≡ false) × (lookup k (insert path content files) ≡ some v)
  there path content files e l = elim (Bool-cases (same path k)) [
    | inl t ↦
        (let q = same→eq path k t in
          let gone : lookup k files ≡ none = subst (λ i. lookup i files ≡ none) q e in ground arith)
    | inr u ↦ (u, ground (arith, lookup-insert path k content files))
  ]

  -- A file that is there stays.
  pub install_all-keeps :
      (es files : Table Str Str) (created : List Str)
      → lookup k files ≡ some v
      → lookup k (install_all installs files created es).files ≡ some v
  unfolding install_all
  install_all-keeps [] files created l = l
  install_all-keeps ((path, content) ∷ es) files created l =
      elim (Option-cases (lookup path files)) [
        | inr (bytes, e) ↦ elim (Bool-cases (same bytes content)) [
          | inl t ↦ ground (arith, install_all-keeps es files created l)
          | inr u ↦ ground arith
        ]
        | inl e ↦
            (let (u, kept) = there path content files e l in
              elim (Fault-cases (installs path)) [
                | inl f ↦ ground (
                  arith,
                  install_all-keeps es (insert path content files) (created ++ path ∷ []) kept,
                )
                | inr (inl f) ↦ ground arith
                | inr (inr f) ↦ ground arith
              ])
      ]

  -- A file that is there is not among the created ones.
  pub install_all-created :
      (es files : Table Str Str) (created : List Str)
      → lookup k files ≡ some v
      → member k created ≡ false
      → member k (install_all installs files created es).created ≡ false
  unfolding install_all
  install_all-created [] files created l m = m
  install_all-created ((path, content) ∷ es) files created l m =
      elim (Option-cases (lookup path files)) [
        | inr (bytes, e) ↦ elim (Bool-cases (same bytes content)) [
          | inl t ↦ ground (arith, install_all-created es files created l m)
          | inr u ↦ ground arith
        ]
        | inl e ↦
            (let (u, kept) = there path content files e l in
              elim (Fault-cases (installs path)) [
                | inl f ↦
                    (let ih =
                        install_all-created es (insert path content files) (created ++ path ∷ [])
                          kept (member-snoc k path created m u) in
                      ground arith)
                | inr (inl f) ↦ ground arith
                | inr (inr f) ↦ ground arith
              ])
      ]

  -- After a loop with no error every artifact is there, with its bytes.
  pub install_all-installs :
      (es files : Table Str Str) (created : List Str)
      → (install_all installs files created es).failed ≡ none
      → In (k, v) es
      → lookup k (install_all installs files created es).files ≡ some v
  unfolding install_all
  install_all-installs [] files created n h = elim h [ ]
  install_all-installs ((path, content) ∷ es) files created n h =
      elim (Option-cases (lookup path files)) [
        | inr (bytes, e) ↦ elim (Bool-cases (same bytes content)) [
          | inl t ↦
              (let q = same→eq bytes content t in
                let n' : (install_all installs files created es).failed ≡ none = ground arith in
                elim h [
                  | inl p ↦
                      (let kept : lookup k files ≡ some v =
                          subst (λ i. lookup i files ≡ some v) (ap (λ x. x.0) p)
                            (e ∙ ap some (q ∙ ap (λ x. x.1) p)) in
                        ground (arith, install_all-keeps es files created kept))
                  | inr i ↦ (let ih = install_all-installs es files created n' i in ground arith)
                ])
          | inr u ↦ ground arith
        ]
        | inl e ↦ elim (Fault-cases (installs path)) [
          | inl f ↦
              (let files' = insert path content files in
                let created' = created ++ path ∷ [] in
                let n' : (install_all installs files' created' es).failed ≡ none = ground arith in
                elim h [
                  | inl p ↦
                      (let kept : lookup k files' ≡ some v =
                          subst (λ i. lookup i files' ≡ some v) (ap (λ x. x.0) p)
                            (lookup-insert_self path content files ∙ ap some (ap (λ x. x.1) p)) in
                        ground (arith, install_all-keeps es files' created' kept))
                  | inr i ↦ (let ih = install_all-installs es files' created' n' i in ground arith)
                ])
          | inr (inl f) ↦ ground arith
          | inr (inr f) ↦ ground arith
        ]
      ]
