-- ===== src/Base/Int.antt =====
-- Signed integers over the native numbers, under the library's names (its ℤ stands on the unary ℕ).
-- Sums and orders go through the two parts of an integer, which are numbers that `omega` reads.
use capacityos.Base.{
  ℕ, suc, ◌+◌, ◌-◌, ◌≤◌, ◌≡◌, List, [], ◌∷◌, ◌++◌, ◌⊎◌, inl, inr, ap, Bool, arith, ltb, leb,
  if◌then◌else◌,
}

-- `negsuc n` is -(n + 1).
pub data ℤ : Type 0 where
  pos : ℕ → ℤ
  negsuc : ℕ → ℤ

abbrev pub pos_part : ℤ → ℕ
pos_part (pos n) = n
pos_part (negsuc n) = 0

abbrev pub neg_part : ℤ → ℕ
neg_part (pos n) = 0
neg_part (negsuc n) = suc n

-- a - b, as an integer.
abbrev pub sub_ℕ : ℕ → ℕ → ℤ
sub_ℕ a b = if leb b a then pos (a - b) else negsuc (b - a - 1)

infixl 65 ◌+ℤ◌ ◌-ℤ◌
infix 50 ◌≤ℤ◌ ◌<ℤ◌
unfoldable pub ◌+ℤ◌ : ℤ → ℤ → ℤ
a +ℤ b = sub_ℕ (pos_part a + pos_part b) (neg_part a + neg_part b)

unfoldable pub ◌-ℤ◌ : ℤ → ℤ → ℤ
a -ℤ b = sub_ℕ (pos_part a + neg_part b) (neg_part a + pos_part b)

abbrev pub ◌≤ℤ◌ : ℤ → ℤ → Type 0
a ≤ℤ b = pos_part a + neg_part b ≤ pos_part b + neg_part a

abbrev pub ltb_ℤ : ℤ → ℤ → Bool
ltb_ℤ a b = ltb (pos_part a + neg_part b) (pos_part b + neg_part a)

-- One lemma for each operation lets `omega` work with the operations shut, at any depth.
pub +ℤ_parts :
    (a b : ℤ)
    → pos_part (a +ℤ b) + neg_part a + neg_part b ≡ neg_part (a +ℤ b) + pos_part a + pos_part b
unfolding ◌+ℤ◌
+ℤ_parts a b = ground arith

pub -ℤ_parts :
    (a b : ℤ)
    → pos_part (a -ℤ b) + neg_part a + pos_part b ≡ neg_part (a -ℤ b) + pos_part a + neg_part b
unfolding ◌-ℤ◌
-ℤ_parts a b = ground arith

pub eq_of_parts : (a b : ℤ) → pos_part a + neg_part b ≡ pos_part b + neg_part a → a ≡ b
eq_of_parts a b h = ground arith

pub ruleset int_laws = (arith, +ℤ_parts, -ℤ_parts, eq_of_parts)

abbrev pub ◌<ℤ◌ : ℤ → ℤ → Type 0
a <ℤ b = suc (pos_part a + neg_part b) ≤ pos_part b + neg_part a

-- `max(a, 0)`
abbrev pub max_zero : ℤ → ℤ
max_zero a = pos (pos_part a)

-- The sum of an integer for each element.
abbrev pub total_ℤ {ℓ} : {A : Type ℓ} → (A → ℤ) → List A → ℤ
total_ℤ f [] = pos 0
total_ℤ f (x ∷ xs) = f x +ℤ total_ℤ f xs

pub pos-add : (a b : ℕ) → pos a +ℤ pos b ≡ pos (a + b)
pos-add a b = omega int_laws

-- `max(a - b, 0)` is zero, or cancels `b - a`.
pub max_zero-sub :
    (a b : ℕ)
    → (max_zero (pos a -ℤ pos b) ≡ pos 0) ⊎ (max_zero (pos a -ℤ pos b) +ℤ (pos b -ℤ pos a) ≡ pos 0)
unfolding ◌-ℤ◌ ◌+ℤ◌
max_zero-sub a b = ground arith

pub total_ℤ-append {ℓ} :
    {A : Type ℓ} (f : A → ℤ) (xs ys : List A) → total_ℤ f (xs ++ ys) ≡ total_ℤ f xs +ℤ total_ℤ f ys
total_ℤ-append f [] ys = omega int_laws
total_ℤ-append f (x ∷ xs) ys = rw (total_ℤ-append f xs ys) (omega int_laws)

-- The excess of `a` over `b` is at most any bound that covers it.
pub max_zero-sub-le :
    (a b : ℕ) (bound : ℤ)
    → pos 0 ≤ℤ bound
    → pos a ≤ℤ bound +ℤ pos b
    → max_zero (pos a -ℤ pos b) ≤ℤ bound
max_zero-sub-le a b bound h k = elim (max_zero-sub a b) [
  | inl e ↦ omega (int_laws, ap pos_part e)
  | inr e ↦ omega (int_laws, ap pos_part e, ap neg_part e)
]

-- Relations between an integer and two numbers, added side by side.
pub split_add :
    (u v : ℤ) (a b c d : ℕ)
    → u +ℤ pos a ≡ pos b
    → v +ℤ pos c ≡ pos d
    → (u +ℤ v) +ℤ pos (a + c) ≡ pos (b + d)
split_add u v a b c d h k =
    omega (int_laws, ap pos_part h, ap neg_part h, ap pos_part k, ap neg_part k)

pub covers_add :
    (u v : ℤ) (a b c d : ℕ)
    → pos a ≤ℤ u +ℤ pos b
    → pos c ≤ℤ v +ℤ pos d
    → pos (a + c) ≤ℤ (u +ℤ v) +ℤ pos (b + d)
covers_add u v a b c d h k = omega int_laws

pub nonneg_add : (u v : ℤ) → pos 0 ≤ℤ u → pos 0 ≤ℤ v → pos 0 ≤ℤ u +ℤ v
nonneg_add u v h k = omega int_laws

pub sub_of_add : (u : ℤ) (a b : ℕ) → u +ℤ pos a ≡ pos b → pos b -ℤ pos a ≡ u
sub_of_add u a b h = omega (int_laws, ap pos_part h, ap neg_part h)
