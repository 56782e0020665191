-- ===== src/Import/Batch/Policy.antt =====
-- The mode of an import, and what is written: `apply_mode_policy` of
-- apps/api/app/domain/import_export_diff.py, and `_write_row` of
-- apps/api/app/services/import_service.py.
use Prim.Native.String.{String}
use capacityos.Base.{
  ℕ, ◌+◌, ◌≡◌, ◌≢◌, ◌⊎◌, refl, inl, inr, true, Option, none, some, List, [], ◌∷◌, arith, All,
  Bool-cases, Option-cases,
}
use capacityos.Base.Errors.{ok}
use capacityos.Capacity.{Uuid}
use capacityos.Import.{ImportMode, create_only, update_only, Row}
use capacityos.Import.Outcomes.{
  Action, create, update, unchanged, Payload, for_create, for_update, Outcome, apply_mode_policy,
}
use capacityos.Import.Classified.{IsClassified, has_shape}
use capacityos.Import.Batch.Identities.{All-mono, flag-none, flag-old, flag-new}
use capacityos.Import.Batch.{
  flagged, PreparedRow, prepare_rows, flag_duplicates, checked_identity, is_in, Writer, write_row,
}

module _ {C U : Type 0} where
  apply_mode_policy-IsClassified :
      (o : Outcome (Payload C U)) (mode : ImportMode)
      → IsClassified o
      → IsClassified (apply_mode_policy o mode)
  unfolding apply_mode_policy
  apply_mode_policy-IsClassified o mode h = ground arith

  prepare_rows-IsClassified :
      (normalize : Row → Outcome (Payload C U)) (mode : ImportMode) (start : ℕ) (rows : List Row)
      → ((row : Row) → IsClassified (normalize row))
      → All (λ p. IsClassified p.outcome) (prepare_rows normalize mode start rows)
  unfolding prepare_rows
  prepare_rows-IsClassified normalize mode start [] h = tt
  prepare_rows-IsClassified normalize mode start (row ∷ rows) h = (
    apply_mode_policy-IsClassified (normalize row) mode (h row),
    prepare_rows-IsClassified normalize mode (start + 1) rows h,
  )

  flagged-IsClassified : (p : PreparedRow (Payload C U)) → IsClassified (flagged p).outcome
  flagged-IsClassified p = refl

  flag_duplicates-IsClassified :
      (seen : List String) (rows : List (PreparedRow (Payload C U)))
      → All (λ p. IsClassified p.outcome) rows
      → All (λ p. IsClassified p.outcome) (flag_duplicates seen rows)
  flag_duplicates-IsClassified seen [] h = unfold flag_duplicates in tt
  flag_duplicates-IsClassified seen (p ∷ rows) h =
      elim (Option-cases (checked_identity p.outcome)) [
        | inl e ↦ rw (flag-none seen p rows e) (h.0, flag_duplicates-IsClassified seen rows h.1)
        | inr (i, e) ↦ elim (Bool-cases (is_in i seen)) [
          | inl old ↦
              rw (flag-old seen p rows i e old)
                (flagged-IsClassified p, flag_duplicates-IsClassified seen rows h.1)
          | inr new ↦
              rw (flag-new seen p rows i e new)
                (h.0, flag_duplicates-IsClassified (i ∷ seen) rows h.1)
        ]
      ]

-- What a row that is classified writes: nothing, one creation with the payload of a creation, or
-- one update with the payload of an update and the id of the matched record.
abbrev pub Writes : {C U S : Type 0} → Writer C U S → Outcome (Payload C U) → S → Type 0
Writes {C} {U} w o s =
    (write_row w o s ≡ ok s)
    ⊎ (((c : C) × (o.payload ≡ some (for_create c)) × (write_row w o s ≡ w.create_record c s))
        ⊎ ((i : Uuid) × (u : U) × (o.matched_id ≡ some i)
            × (o.payload ≡ some (for_update u))
            × (write_row w o s ≡ w.update_record i u s)))

shape-Writes :
    {C U S : Type 0} (w : Writer C U S) (o : Outcome (Payload C U)) (s : S) (a : Option Action)
    (p : Option (Payload C U)) (m : Option Uuid)
    → o.action ≡ a
    → o.payload ≡ p
    → o.matched_id ≡ m
    → has_shape a p m o.errors ≡ true
    → Writes w o s
unfolding write_row
shape-Writes w o s none p m ea ep em h = inl (rw ea refl)
shape-Writes w o s (some unchanged) p m ea ep em h = inl (rw ea refl)
shape-Writes w o s (some create) (some (for_create c)) m ea ep em h =
    inr (inl (c, ep, rw (ea) (rw ep refl)))
shape-Writes w o s (some update) (some (for_update u)) (some i) ea ep em h =
    inr (inr (i, u, em, ep, rw ea (rw (em, ep) refl)))
shape-Writes w o s (some create) none m ea ep em h = absurd (ground arith)
shape-Writes w o s (some create) (some (for_update u)) m ea ep em h = absurd (ground arith)
shape-Writes w o s (some update) none m ea ep em h = absurd (ground arith)
shape-Writes w o s (some update) (some (for_create c)) m ea ep em h = absurd (ground arith)
shape-Writes w o s (some update) (some (for_update u)) none ea ep em h = absurd (ground arith)

-- Where every row that is normalized is classified (as the rows of all fourteen entities are), every
-- row of a file, after the mode's policy and the marking of duplicates, writes nothing, or calls
-- the service's creation with a creation's payload, or its update with an update's payload and the
-- id of the record that it matched. The casts of the payload and of the id never fail.
pub prepared_rows-Writes :
    {C U S : Type 0} (w : Writer C U S) (normalize : Row → Outcome (Payload C U))
    (mode : ImportMode) (rows : List Row)
    → ((row : Row) → IsClassified (normalize row))
    → All
        (λ p. (s : S) → Writes w p.outcome s)
        (flag_duplicates [] (prepare_rows normalize mode 1 rows))
prepared_rows-Writes w normalize mode rows h =
    All-mono (λ p. IsClassified p.outcome) (λ p. (s : _) → Writes w p.outcome s)
      (λ p k s.
        shape-Writes w p.outcome s p.outcome.action p.outcome.payload p.outcome.matched_id refl refl
          refl k)
      (flag_duplicates [] (prepare_rows normalize mode 1 rows))
      (flag_duplicates-IsClassified [] (prepare_rows normalize mode 1 rows)
        (prepare_rows-IsClassified normalize mode 1 rows h))

-- Two writers that agree on one of the services write the same rows that do not use the other.
module _ {C U S : Type 0} (w v : Writer C U S) (o : Outcome (Payload C U)) (s : S) where
  same_creations :
      (a : Option Action) (p : Option (Payload C U)) (m : Option Uuid)
      → o.action ≡ a
      → o.payload ≡ p
      → has_shape a p m o.errors ≡ true
      → a ≢ some update
      → ((c : C) (t : S) → w.create_record c t ≡ v.create_record c t)
      → write_row w o s ≡ write_row v o s
  unfolding write_row
  same_creations none p m ea ep h other e = rw ea refl
  same_creations (some unchanged) p m ea ep h other e = rw ea refl
  same_creations (some update) p m ea ep h other e = absurd (other refl)
  same_creations (some create) (some (for_create c)) m ea ep h other e = rw ea (rw ep (e c s))
  same_creations (some create) (some (for_update u)) m ea ep h other e = absurd (ground arith)
  same_creations (some create) none m ea ep h other e = absurd (ground arith)

  same_updates :
      (a : Option Action) (p : Option (Payload C U)) (m : Option Uuid)
      → o.action ≡ a
      → o.payload ≡ p
      → o.matched_id ≡ m
      → has_shape a p m o.errors ≡ true
      → a ≢ some create
      → ((i : Uuid) (u : U) (t : S) → w.update_record i u t ≡ v.update_record i u t)
      → write_row w o s ≡ write_row v o s
  unfolding write_row
  same_updates none p m ea ep em h other e = rw ea refl
  same_updates (some unchanged) p m ea ep em h other e = rw ea refl
  same_updates (some create) p m ea ep em h other e = absurd (other refl)
  same_updates (some update) (some (for_update u)) (some i) ea ep em h other e =
      rw ea (rw (em, ep) (e i u s))
  same_updates (some update) (some (for_update u)) none ea ep em h other e = absurd (ground arith)
  same_updates (some update) (some (for_create c)) m ea ep em h other e = absurd (ground arith)
  same_updates (some update) none m ea ep em h other e = absurd (ground arith)

module _ {C U : Type 0} (o : Outcome (Payload C U)) (h : IsClassified o) where
  create_only-ne-update : (apply_mode_policy o create_only).action ≢ some update
  unfolding apply_mode_policy
  create_only-ne-update = λ e. ground arith

  update_only-ne-create : (apply_mode_policy o update_only).action ≢ some create
  unfolding apply_mode_policy
  update_only-ne-create = λ e. ground arith

-- A row that is classified, in `create_only` mode, writes the same whatever the service's update
-- does, and in `update_only` mode whatever its creation does.
pub apply_mode_policy-write_row :
    {C U S : Type 0} (w v : Writer C U S) (o : Outcome (Payload C U)) (s : S)
    → IsClassified o
    → (((c : C) (t : S) → w.create_record c t ≡ v.create_record c t)
        → write_row w (apply_mode_policy o create_only) s
          ≡ write_row v (apply_mode_policy o create_only) s)
      × (((i : Uuid) (u : U) (t : S) → w.update_record i u t ≡ v.update_record i u t)
          → write_row w (apply_mode_policy o update_only) s
            ≡ write_row v (apply_mode_policy o update_only) s)
apply_mode_policy-write_row w v o s h = (
  λ e.
      same_creations w v (apply_mode_policy o create_only) s _ _ _ refl refl
        (apply_mode_policy-IsClassified o create_only h) (create_only-ne-update o h) e,
  λ e.
      same_updates w v (apply_mode_policy o update_only) s _ _ _ refl refl refl
        (apply_mode_policy-IsClassified o update_only h) (update_only-ne-create o h) e,
)
