-- ===== src/Schedules/Requests.antt =====
-- The requests on schedules keep the schedules of each person apart.
use capacityos.Base.{
  ℕ, ◌≡◌, sym, ◌∙◌, inl, inr, Bool, true, false, ◌&&◌, not, some, List, [], ◌∷◌, map, arith, ◌==◌,
  any, keep, find, if◌then◌else◌, Bool-cases, Option-cases, subst, All, ap,
}
use capacityos.Base.Errors.{ok}
use capacityos.Capacity.{Uuid}
use capacityos.Schedules.{
  WorkingSchedule, WorkingScheduleCreate, WorkingScheduleUpdate, Store, overlaps, list_for_person,
  updated, create, get, update, delete,
}
use capacityos.Schedules.Disjoint.{
  IsDisjoint, IsKeyed, clashes, none_clash, others_do_not_clash, replace-IsDisjoint,
}

-- Creating a schedule that the service accepts keeps every two schedules of one person apart.
pub create-IsDisjoint :
    (org : Uuid) (request : WorkingScheduleCreate) (new_id : Uuid) (now : ℕ) (store store' : Store)
    → IsDisjoint store.schedules
    → create org request new_id now store ≡ ok store'
    → IsDisjoint store'.schedules
unfolding create
create-IsDisjoint org request new_id now store store' disjoint h =
    let row : WorkingSchedule = record {
      id = new_id;
      organization_id = org;
      person_id = request.person_id;
      effective_start_date = request.effective_start_date;
      effective_end_date = request.effective_end_date;
      external_id = request.external_id;
      entries = request.entries;
      created_at = now;
    } in
    let e : record store { schedules = row ∷ store.schedules } ≡ store' = ground arith in
    let free : any (overlaps request.effective_start_date request.effective_end_date)
          (list_for_person request.person_id org store)
        ≡ false =
      ground arith in
    subst (λ s. IsDisjoint s.schedules) e (none_clash row store.schedules free, disjoint)

-- The row that `get` finds is the only one with its id.
found_only :
    (org schedule_id : Uuid) (rows : List WorkingSchedule) (s : WorkingSchedule)
    → IsKeyed rows
    → find (λ r. r.id == schedule_id && r.organization_id == org) rows ≡ some s
    → All (λ r. (r.id == s.id) ≡ true → r ≡ s) rows
      × (s.id ≡ schedule_id)
      × (s.organization_id ≡ org)
found_only org schedule_id [] s k f = cc
found_only org schedule_id (r ∷ rows) s k f =
    elim (Bool-cases (r.id == schedule_id && r.organization_id == org)) [
      | inl here ↦
          let e : r ≡ s = ground arith in
          let id_is : r.id ≡ schedule_id = ground arith in
          let org_is : r.organization_id ≡ org = ground arith in
          let others = subst (λ t. All (λ q. (q.id == t.id) ≡ false) rows) e k.0 in
          (
            (λ _. e, all_other s rows others),
            ap (λ t. t.id) (sym e) ∙ id_is,
            ap (λ t. t.organization_id) (sym e) ∙ org_is,
          )
      | inr later ↦
          let (rest, id_is, org_is) = found_only org schedule_id rows s k.1 (ground arith) in
          (
            ((λ c. absurd (not_here r rows s k.0 later id_is org_is c (ground arith))), rest),
            id_is,
            org_is,
          )
    ]
  where
    all_other :
        (t : WorkingSchedule) (qs : List WorkingSchedule)
        → All (λ q. (q.id == t.id) ≡ false) qs
        → All (λ q. (q.id == t.id) ≡ true → q ≡ t) qs
    all_other t [] a = tt
    all_other t (q ∷ qs) a = ((λ c. absurd (let n = a.0 in cc)), all_other t qs a.1)

    not_here :
        (q : WorkingSchedule) (qs : List WorkingSchedule) (t : WorkingSchedule)
        → All (λ w. (w.id == q.id) ≡ false) qs
        → (q.id == schedule_id && q.organization_id == org) ≡ false
        → t.id ≡ schedule_id
        → t.organization_id ≡ org
        → (q.id == t.id) ≡ true
        → find (λ w. w.id == schedule_id && w.organization_id == org) qs ≡ some t
        → ⊥
    not_here q [] t a l i o c f = cc
    not_here q (w ∷ qs) t a l i o c f =
        elim (Bool-cases (w.id == schedule_id && w.organization_id == org)) [
          | inl hit ↦
              let e : w ≡ t = ground arith in
              let n = a.0 in let same : w.id ≡ q.id = ground arith in ground arith
          | inr miss ↦ not_here q qs t a.1 l i o c (ground arith)
        ]

-- Changing a schedule by an update that the service accepts keeps every two schedules of one
-- person apart, as long as the ids of the rows are distinct.
pub update-IsDisjoint :
    (org schedule_id : Uuid) (request : WorkingScheduleUpdate) (store store' : Store)
    → IsKeyed store.schedules
    → IsDisjoint store.schedules
    → update org schedule_id request store ≡ ok store'
    → IsDisjoint store'.schedules
unfolding update get
update-IsDisjoint org schedule_id request store store' keyed disjoint h =
    elim (Option-cases
      (find (λ s. s.id == schedule_id && s.organization_id == org) store.schedules)) [
        | inl missing ↦ absurd (ground arith)
        | inr (s, found) ↦
            let (only, id_is, org_is) = found_only org schedule_id store.schedules s keyed found in
            let free : any
                  (λ e.
                    not (e.id == s.id)
                    && overlaps (updated request s).effective_start_date
                        (updated request s).effective_end_date e)
                  (list_for_person s.person_id org store)
                ≡ false =
              ground arith in
            let e : record store {
              schedules = map (λ r. if r.id == s.id then updated request r else r) store.schedules;
            }
                ≡ store' =
              ground arith in
            let apart = others_do_not_clash (updated request s) store.schedules (
              subst
                (λ o.
                  any
                    (λ e.
                      not (e.id == s.id)
                      && overlaps (updated request s).effective_start_date
                          (updated request s).effective_end_date e)
                    (list_for_person s.person_id o store)
                  ≡ false)
                (sym org_is) free) in
            subst (λ t. IsDisjoint t.schedules) e
              (replace-IsDisjoint s.id (updated request) s store.schedules keyed disjoint only
                apart)
      ]

kept-All :
    (P : WorkingSchedule → Type 0) (test : WorkingSchedule → Bool) (rows : List WorkingSchedule)
    → All P rows
    → All P (keep test rows)
kept-All P test [] h = tt
kept-All P test (r ∷ rows) h = elim (Bool-cases (test r)) [
  | inl e ↦ rw e (h.0, kept-All P test rows h.1)
  | inr e ↦ rw e (kept-All P test rows h.1)
]

kept-IsDisjoint :
    (test : WorkingSchedule → Bool) (rows : List WorkingSchedule)
    → IsDisjoint rows
    → IsDisjoint (keep test rows)
kept-IsDisjoint test [] h = tt
kept-IsDisjoint test (r ∷ rows) h = elim (Bool-cases (test r)) [
  | inl e ↦ rw e (kept-All (λ q. clashes r q ≡ false) test rows h.0, kept-IsDisjoint test rows h.1)
  | inr e ↦ rw e (kept-IsDisjoint test rows h.1)
]

-- Deleting a schedule keeps every two schedules of one person apart.
pub delete-IsDisjoint :
    (org schedule_id : Uuid) (store store' : Store)
    → IsDisjoint store.schedules
    → delete org schedule_id store ≡ ok store'
    → IsDisjoint store'.schedules
unfolding delete get
delete-IsDisjoint org schedule_id store store' disjoint h =
    elim (Option-cases
      (find (λ s. s.id == schedule_id && s.organization_id == org) store.schedules)) [
        | inl missing ↦ absurd (ground arith)
        | inr (s, found) ↦
            let e : record store { schedules = keep (λ r. not (r.id == s.id)) store.schedules }
                ≡ store' =
              ground arith in
            subst (λ t. IsDisjoint t.schedules) e
              (kept-IsDisjoint (λ r. not (r.id == s.id)) store.schedules disjoint)
      ]
