-- ===== src/Import/Batch/Identities.antt =====
-- `_flag_duplicate_identities` of apps/api/app/services/import_service.py.
use Prim.Native.String.{String}
use text.Mathlib.Text.{◌==◌ as str_eq}
use capacityos.Base.{
  ◌≡◌, refl, inl, inr, Bool, true, false, Option, none, some, List, [], ◌∷◌, arith, All, Bool-cases,
  Option-cases,
}
use capacityos.Import.Batch.{PreparedRow, checked_identity, is_in, flagged, flag_duplicates}

abbrev identity_in : Option String → List String → Bool
identity_in none seen = false
identity_in (some identity) seen = is_in identity seen

abbrev is_identity : Option String → Option String → Bool
is_identity none j = false
is_identity (some i) none = false
is_identity (some i) (some j) = str_eq j i

-- Both rows have no errors, and one identity.
abbrev pub same_record : {P : Type 0} → PreparedRow P → PreparedRow P → Bool
same_record p q = is_identity (checked_identity p.outcome) (checked_identity q.outcome)

-- No two rows without errors have one identity.
abbrev pub IsDistinct : {P : Type 0} → List (PreparedRow P) → Type 0
IsDistinct [] = Unit
IsDistinct (p ∷ rows) = All (λ q. same_record p q ≡ false) rows × IsDistinct rows

pub All-mono :
    {A : Type 0} (P Q : A → Type 0) → ((x : A) → P x → Q x) → (xs : List A) → All P xs → All Q xs
All-mono P Q h [] a = tt
All-mono P Q h (x ∷ xs) a = (h x a.0, All-mono P Q h xs a.1)

abbrev IsFresh : {P : Type 0} → List String → PreparedRow P → Type 0
IsFresh seen q = identity_in (checked_identity q.outcome) seen ≡ false

IsFresh-tail :
    {P : Type 0} (i : String) (seen : List String) (q : PreparedRow P)
    → IsFresh (i ∷ seen) q
    → IsFresh seen q
IsFresh-tail i seen q h = elim (Option-cases (checked_identity q.outcome)) [
  | inl e ↦ rw e refl
  | inr (j, e) ↦ let h' : is_in j (i ∷ seen) ≡ false = rw (e) at h in ground arith
]

IsFresh-same_record :
    {P : Type 0} (p q : PreparedRow P) (i : String) (seen : List String)
    → checked_identity p.outcome ≡ some i
    → IsFresh (i ∷ seen) q
    → same_record p q ≡ false
IsFresh-same_record p q i seen e h = elim (Option-cases (checked_identity q.outcome)) [
  | inl f ↦ rw (e, f) refl
  | inr (j, f) ↦ let h' : is_in j (i ∷ seen) ≡ false = rw f at h in rw (e, f) (ground arith)
]

same_record-none :
    {P : Type 0} (p : PreparedRow P) (rows : List (PreparedRow P))
    → checked_identity p.outcome ≡ none
    → All (λ q. same_record p q ≡ false) rows
same_record-none p [] e = tt
same_record-none p (q ∷ rows) e = (rw e refl, same_record-none p rows e)

module _ {P : Type 0} (seen : List String) (p : PreparedRow P) (rows : List (PreparedRow P)) where
  pub flag-none :
      checked_identity p.outcome ≡ none
      → flag_duplicates seen (p ∷ rows) ≡ p ∷ flag_duplicates seen rows
  unfolding flag_duplicates
  flag-none e = rw (e, flag_duplicates) refl

  pub flag-old :
      (i : String)
      → checked_identity p.outcome ≡ some i
      → is_in i seen ≡ true
      → flag_duplicates seen (p ∷ rows) ≡ flagged p ∷ flag_duplicates seen rows
  unfolding flag_duplicates
  flag-old i e old = rw (e, flag_duplicates) (rw old refl)

  pub flag-new :
      (i : String)
      → checked_identity p.outcome ≡ some i
      → is_in i seen ≡ false
      → flag_duplicates seen (p ∷ rows) ≡ p ∷ flag_duplicates (i ∷ seen) rows
  unfolding flag_duplicates
  flag-new i e new = rw (e, flag_duplicates) (rw new refl)

flag_duplicates-IsFresh :
    {P : Type 0} (seen : List String) (rows : List (PreparedRow P))
    → All (IsFresh seen) (flag_duplicates seen rows)
flag_duplicates-IsFresh seen [] = unfold flag_duplicates in tt
flag_duplicates-IsFresh seen (p ∷ rows) = elim (Option-cases (checked_identity p.outcome)) [
  | inl e ↦ rw (flag-none seen p rows e) (rw e refl, flag_duplicates-IsFresh seen rows)
  | inr (i, e) ↦ elim (Bool-cases (is_in i seen)) [
    | inl old ↦ rw (flag-old seen p rows i e old) (refl, flag_duplicates-IsFresh seen rows)
    | inr new ↦ rw (flag-new seen p rows i e new) (
      rw e new,
      All-mono (IsFresh (i ∷ seen)) (IsFresh seen) (IsFresh-tail i seen)
          (flag_duplicates (i ∷ seen) rows) (flag_duplicates-IsFresh (i ∷ seen) rows),
    )
  ]
]

-- A flagged row has errors.
flagged-none : {P : Type 0} (p : PreparedRow P) → checked_identity (flagged p).outcome ≡ none
flagged-none p = refl

-- Among the rows of a file that are left without errors no two have one identity.
pub flag_duplicates-IsDistinct :
    {P : Type 0} (seen : List String) (rows : List (PreparedRow P))
    → IsDistinct (flag_duplicates seen rows)
flag_duplicates-IsDistinct seen [] = unfold flag_duplicates in tt
flag_duplicates-IsDistinct seen (p ∷ rows) = elim (Option-cases (checked_identity p.outcome)) [
  | inl e ↦
      rw (flag-none seen p rows e)
        (same_record-none p (flag_duplicates seen rows) e, flag_duplicates-IsDistinct seen rows)
  | inr (i, e) ↦ elim (Bool-cases (is_in i seen)) [
    | inl old ↦ rw (flag-old seen p rows i e old) (
      same_record-none (flagged p) (flag_duplicates seen rows) (flagged-none p),
      flag_duplicates-IsDistinct seen rows,
    )
    | inr new ↦ rw (flag-new seen p rows i e new) (
      All-mono (IsFresh (i ∷ seen)) (λ q. same_record p q ≡ false)
          (λ q h. IsFresh-same_record p q i seen e h) (flag_duplicates (i ∷ seen) rows)
          (flag_duplicates-IsFresh (i ∷ seen) rows),
      flag_duplicates-IsDistinct (i ∷ seen) rows,
    )
  ]
]
