-- ===== src/Membership/Counting.antt =====
-- How many rows pass a test before and after an UPDATE.
use capacityos.Base.{
  suc, ◌+◌, ◌≤◌, ◌<◌, ◌≡◌, refl, inl, inr, Bool, true, false, List, [], ◌∷◌, ◌++◌, map, arith, any,
  if◌then◌else◌, All, Bool-cases,
}
use capacityos.Membership.{count}

module _ {ℓ} {A : Type ℓ} (test test' : A → Bool) (f : A → A) where
  -- An update that no row loses the test by keeps at least as many rows that pass it.
  pub count-map_keeps :
      ((x : A) → test x ≡ true → test' (f x) ≡ true)
      → (xs : List A) → count test xs ≤ count test' (map f xs)
  count-map_keeps h [] = omega arith
  count-map_keeps h (x ∷ xs) = ground (arith, h x, count-map_keeps h xs)

module _ {ℓ} {A : Type ℓ} (selected : A → Bool) where
  -- At most one row is selected.
  abbrev pub AtMostOne : List A → Type 0
  AtMostOne [] = Unit
  AtMostOne (x ∷ xs) = (selected x ≡ true → All (λ y. selected y ≡ false) xs) × AtMostOne xs

module _ {ℓ} {A : Type ℓ} (test selected : A → Bool) (change : A → A) where
  count-map_none :
      (xs : List A)
      → All (λ x. selected x ≡ false) xs
      → count test (map (λ x. if selected x then change x else x) xs) ≡ count test xs
  count-map_none [] h = refl
  count-map_none (x ∷ xs) h = ground (arith, count-map_none xs h.1)

  -- An update of at most one row loses at most one row that passes a test.
  pub count-map_loses_one :
      (xs : List A)
      → AtMostOne selected xs
      → count test xs ≤ suc (count test (map (λ x. if selected x then change x else x) xs))
  count-map_loses_one [] h = omega arith
  count-map_loses_one (x ∷ xs) h = elim (Bool-cases (selected x)) [
    | inl hit ↦ ground (arith, count-map_none xs (h.0 hit))
    | inr miss ↦ ground (arith, count-map_loses_one xs h.1)
  ]

module _ {ℓ} {A : Type ℓ} (test : A → Bool) where
  pub any→count : (xs : List A) → any test xs ≡ true → 0 < count test xs
  any→count [] h = cc
  any→count (x ∷ xs) h = ground (arith, any→count xs)

  pub count→any : (xs : List A) → 0 < count test xs → any test xs ≡ true
  count→any [] h = absurd (omega arith)
  count→any (x ∷ xs) h = ground (arith, count→any xs)

  pub count-append : (xs ys : List A) → count test (xs ++ ys) ≡ count test xs + count test ys
  count-append [] ys = omega arith
  count-append (x ∷ xs) ys = omega (arith, count-append xs ys)
