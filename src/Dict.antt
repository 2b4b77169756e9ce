-- ===== src/Dict.antt =====
-- Python's `dict` with integer keys, as src/jdwpy/connection.py and src/jdwpy/proxy.py use it: an
-- association list. The program does not depend on the order of the entries.
use jdwpy.Prelude.{
  Bool-cases, List, Option, [], arith, false, if◌then◌else◌, inl, inr, none, some, true, ◌∙◌, ◌∷◌,
  ◌≡◌, ◌≢◌, ◌⊎◌,
}
use jdwpy.Prelude.Int.{ℤ, ◌==ℤ◌}

abbrev pub Dict {ℓ} : Type ℓ → Type ℓ
Dict V = List (ℤ × V)

pub ==ℤ_iff : (a b : ℤ) → ((a ==ℤ b) ≡ true → a ≡ b) × (a ≡ b → (a ==ℤ b) ≡ true)
==ℤ_iff a b = (λ h. ground arith, λ h. ground arith)

module _ {ℓ} {V : Type ℓ} where
  -- `d.get(k)`
  unfoldable pub lookup : ℤ → Dict V → Option V
  lookup k [] = none
  lookup k ((j, v) ∷ d) = if j ==ℤ k then some v else lookup k d

  -- `d.pop(k, None)`, for the rest.
  unfoldable pub remove : ℤ → Dict V → Dict V
  remove k [] = []
  remove k ((j, v) ∷ d) = let rest = remove k d in if j ==ℤ k then rest else (j, v) ∷ rest

  -- `d[k] = v`
  unfoldable pub insert : ℤ → V → Dict V → Dict V
  insert k v d = (k, v) ∷ remove k d

  pub lookup-remove :
      (k j : ℤ) (d : Dict V) → lookup j (remove k d) ≡ (if k ==ℤ j then none else lookup j d)
  unfolding lookup remove
  lookup-remove k j [] = ground arith
  lookup-remove k j ((i, v) ∷ d) = elim (Bool-cases (i ==ℤ k)) [
    | inl same ↦ elim (Bool-cases (k ==ℤ j)) [
      | inl eq ↦ rw (same, eq) (lookup-remove k j d ∙ rw eq)
      | inr ne ↦
          let e : i ≡ k = (==ℤ_iff i k).0 same in rw same (lookup-remove k j d ∙ rw (ne, e, ne))
    ]
    | inr other ↦ elim (Bool-cases (i ==ℤ j)) [
      | inl eq ↦
          let e : i ≡ j = (==ℤ_iff i j).0 eq in
          let ne : (k ==ℤ j) ≡ false = ground arith in rw (other, eq, ne)
      | inr ne ↦ rw (other, ne) (lookup-remove k j d)
    ]
  ]

  pub lookup-insert :
      (k j : ℤ) (v : V) (d : Dict V)
      → lookup j (insert k v d) ≡ (if k ==ℤ j then some v else lookup j d)
  unfolding lookup insert
  lookup-insert k j v d = elim (Bool-cases (k ==ℤ j)) [
    | inl eq ↦ rw eq
    | inr ne ↦ rw ne (lookup-remove k j d ∙ rw ne)
  ]

pub ℤ-cases : (a b : ℤ) → (a ≡ b) ⊎ (a ≢ b)
ℤ-cases a b = elim (Bool-cases (a ==ℤ b)) [
  | inl h ↦ inl ((==ℤ_iff a b).0 h)
  | inr h ↦ inr (λ e. cc (h, (==ℤ_iff a b).1 e))
]

ne→false : (a b : ℤ) → a ≢ b → (a ==ℤ b) ≡ false
ne→false a b h = elim (Bool-cases (a ==ℤ b)) [ inl e ↦ absurd (h ((==ℤ_iff a b).0 e)) | inr e ↦ e ]

module _ {ℓ} {V : Type ℓ} where
  pub lookup-remove_self : (k j : ℤ) (d : Dict V) → k ≡ j → lookup j (remove k d) ≡ none
  lookup-remove_self k j d e = lookup-remove k j d ∙ rw ((==ℤ_iff k j).1 e)

  pub lookup-remove_ne : (k j : ℤ) (d : Dict V) → k ≢ j → lookup j (remove k d) ≡ lookup j d
  lookup-remove_ne k j d h = lookup-remove k j d ∙ rw (ne→false k j h)

  pub lookup-insert_self : (k j : ℤ) (v : V) (d : Dict V) → k ≡ j → lookup j (insert k v d) ≡ some v
  lookup-insert_self k j v d e = lookup-insert k j v d ∙ rw ((==ℤ_iff k j).1 e)

  pub lookup-insert_ne :
      (k j : ℤ) (v : V) (d : Dict V) → k ≢ j → lookup j (insert k v d) ≡ lookup j d
  lookup-insert_ne k j v d h = lookup-insert k j v d ∙ rw (ne→false k j h)

  -- An entry that is left was there, under another key.
  pub lookup-remove-some :
      (k j : ℤ) (v : V) (d : Dict V)
      → lookup j (remove k d) ≡ some v
      → (k ≢ j) × (lookup j d ≡ some v)
  lookup-remove-some k j v d h = elim (ℤ-cases k j) [
    | inl e ↦ absurd (cc (h, lookup-remove_self k j d e))
    | inr ne ↦ (ne, cc (h, lookup-remove_ne k j d ne))
  ]
