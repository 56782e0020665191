-- ===== src/Membership/Accounts.antt =====
-- Every organization keeps an active Owner when accounts are changed, as long as no account is set
-- to `invited`.
use capacityos.Base.{
  ◌≡◌, ◌≢◌, refl, ◌⊎◌, inl, inr, Bool, true, false, ◌&&◌, ◌||◌, not, some, List, [], ◌∷◌, map,
  arith, any, find, if◌then◌else◌, All, Bool-cases, ◌==◌, Option-cases, subst, sym, ◌∙◌, ℕ_discrete,
}
use capacityos.Base.Errors.{ok, Result-cases}
use capacityos.Capacity.{Uuid}
use capacityos.Membership.{
  User, UserStatus, UserUpdate, Directory, is_user_active, is_disabled, is_active_owner,
  has_active_account, another_active_owner_exists, would_orphan_an_organization, disable_if_safe,
  assign_fields, check_person, sets_disabled, or_keep, update_user,
}
use capacityos.Membership.Counting.{any→count, count→any}
use capacityos.Membership.Owners.{HasOwner}

-- The ids of the accounts are distinct (the table's primary key).
abbrev pub IsKeyed : List User → Type 0
IsKeyed [] = Unit
IsKeyed (u ∷ us) = All (λ v. (v.id == u.id) ≡ false) us × IsKeyed us

module _ {ℓ} {A : Type ℓ} (p q : A → Bool) where
  any_mono : ((x : A) → p x ≡ true → q x ≡ true) → (xs : List A) → any p xs ≡ true → any q xs ≡ true
  any_mono h [] e = e
  any_mono h (x ∷ xs) e = ground (arith, h x, any_mono h xs)

  any-map_mono :
      (f : A → A)
      → ((x : A) → p x ≡ true → q (f x) ≡ true)
      → (xs : List A) → any p xs ≡ true
      → any q (map f xs) ≡ true
  any-map_mono f h [] e = e
  any-map_mono f h (x ∷ xs) e = ground (arith, h x, any-map_mono f h xs)

any_refutes {ℓ} :
    {A : Type ℓ} (p q r : A → Bool) (xs : List A)
    → ((x : A) → p x ≡ true → q x ≡ false → r x ≡ true)
    → any p xs ≡ true
    → any q xs ≡ false
    → any r xs ≡ true
any_refutes p q r [] h e k = e
any_refutes p q r (x ∷ xs) h e k = ground (arith, h x, any_refutes p q r xs h)

-- An active Owner stays one when the accounts that are active stay active.
HasOwner-accounts :
    (d : Directory) (other : Uuid) (users : List User)
    → ((i : Uuid) → has_active_account d.users i ≡ true → has_active_account users i ≡ true)
    → HasOwner other d
    → HasOwner other (record d { users = users })
HasOwner-accounts d other users h owned = any→count (is_active_owner users other) d.memberships (
    any_mono (is_active_owner d.users other) (is_active_owner users other)
      (λ m e. ground (arith, h m.user_id)) d.memberships
      (count→any (is_active_owner d.users other) d.memberships owned))

module _ (d : Directory) (user other : Uuid) where
  abbrev disabled_users : List User
  disabled_users =
      map
        (λ u.
          if u.id == user && (is_disabled u.status || not (would_orphan_an_organization user d))
          then record u { status = UserStatus.disabled }
          else u)
        d.users

  others_stay_active :
      (i : Uuid)
      → (i == user) ≡ false
      → has_active_account d.users i ≡ true
      → has_active_account disabled_users i ≡ true
  others_stay_active i ne e =
      any-map_mono (λ u. u.id == i && is_user_active u.status)
        (λ u. u.id == i && is_user_active u.status) _ (λ u a. ground arith) d.users e

  blocked_stay_active :
      would_orphan_an_organization user d ≡ true
      → (i : Uuid) → has_active_account d.users i ≡ true
      → has_active_account disabled_users i ≡ true
  blocked_stay_active b i e =
      any-map_mono (λ u. u.id == i && is_user_active u.status)
        (λ u. u.id == i && is_user_active u.status) _ (λ u a. ground arith) d.users e

  another_owner :
      would_orphan_an_organization user d ≡ false
      → any (is_active_owner d.users other) d.memberships ≡ true
      → another_active_owner_exists user other d ≡ true
  another_owner safe owned = elim (Bool-cases (another_active_owner_exists user other d)) [
    | inl e ↦ e
    | inr alone ↦
        let orphaned : would_orphan_an_organization user d ≡ true =
          any_refutes (is_active_owner d.users other)
            (λ m. is_active_owner d.users other m && not (m.user_id == user)) _ d.memberships
            (λ m e k.
              let at : other ≡ m.organization_id = ground arith in
              let alone_there =
                subst (λ o. another_active_owner_exists user o d ≡ false) at alone in
              ground arith)
            owned alone in
        cc
  ]

  disable_if_safe-HasOwner : HasOwner other d → HasOwner other (disable_if_safe user d).0
  unfolding disable_if_safe
  disable_if_safe-HasOwner owned = elim (Bool-cases (would_orphan_an_organization user d)) [
    | inl blocked ↦ HasOwner-accounts d other disabled_users (blocked_stay_active blocked) owned
    | inr safe ↦
        let another =
          another_owner safe (count→any (is_active_owner d.users other) d.memberships owned) in
        any→count (is_active_owner disabled_users other) d.memberships (
          any_mono (λ m. is_active_owner d.users other m && not (m.user_id == user))
            (is_active_owner disabled_users other)
            (λ m e. ground (arith, others_stay_active m.user_id)) d.memberships another)
  ]

-- The account that `find` finds, not being active, is the only one with its id.
found_inactive :
    (i : Uuid) (users : List User) (u : User)
    → IsKeyed users
    → find (λ v. v.id == i) users ≡ some u
    → is_user_active u.status ≡ false
    → has_active_account users i ≡ false
found_inactive i [] u k f h = refl
found_inactive i (v ∷ users) u k f h = elim (Bool-cases (v.id == i)) [
  | inl here ↦
      let e : v ≡ u = ground arith in
      let at : v.id ≡ i = ground arith in
      let rest = not_keyed i users (subst (λ j. All (λ w. (w.id == j) ≡ false) users) at k.0) in
      ground arith
  | inr later ↦ ground (arith, found_inactive i users u k.1)
]
  where
    not_keyed :
        (j : Uuid) (us : List User)
        → All (λ w. (w.id == j) ≡ false) us
        → has_active_account us j ≡ false
    not_keyed j [] a = refl
    not_keyed j (w ∷ us) a = ground (arith, not_keyed j us a.1)

module _ (user_id : Uuid) (changes : UserUpdate) (d : Directory) (other : Uuid) where
  -- Statuses are kept, or set to `active`.
  assign-HasOwner :
      (disabling : Bool)
      → ((u : User)
          → is_user_active u.status ≡ true
          → is_user_active (if disabling then u.status else or_keep changes.status u.status) ≡ true)
      → HasOwner other d
      → HasOwner other (record d { users = assign_fields user_id changes disabling d.users })
  assign-HasOwner disabling h =
      HasOwner-accounts d other (assign_fields user_id changes disabling d.users) λ i e.
        any-map_mono (λ u. u.id == i && is_user_active u.status)
          (λ u. u.id == i && is_user_active u.status) _ (λ u a. ground (arith, h u)) d.users e

  kept_inactive :
      (u : User)
      → find (λ v. v.id == user_id) d.users ≡ some u
      → IsKeyed d.users
      → is_disabled u.status ≡ true
      → HasOwner other d
      → HasOwner other (record d { users = assign_fields user_id changes false d.users })
  kept_inactive u found keyed gone =
      let none_active = found_inactive user_id d.users u keyed found (ground arith) in
      HasOwner-accounts d other (assign_fields user_id changes false d.users) λ i e.
        elim (ℕ_discrete i user_id) [
          | yes same ↦
              let both = subst (λ j. has_active_account d.users j ≡ true) same e in
              let clash : false ≡ true = sym none_active ∙ both in cc
          | no different ↦
              any-map_mono (λ v. v.id == i && is_user_active v.status)
                (λ v. v.id == i && is_user_active v.status) _ (λ v a. ground arith) d.users e
        ]

-- How an update that succeeds came about.
abbrev pub CameAbout : Uuid → UserUpdate → User → Directory → Directory → Type 0
CameAbout user_id changes u d d' =
    ((sets_disabled changes.status && not (is_disabled u.status)) ≡ true)
      × ((disable_if_safe user_id
            (record d { users = assign_fields user_id changes true d.users })).0
          ≡ d')
    ⊎ ((sets_disabled changes.status && not (is_disabled u.status)) ≡ false)
      × (record d { users = assign_fields user_id changes false d.users } ≡ d')

pub update_user_cases :
    (org user_id : Uuid) (changes : UserUpdate) (d d' : Directory)
    → update_user org user_id changes d ≡ ok d'
    → (u : User) × (find (λ v. v.id == user_id) d.users ≡ some u) × CameAbout user_id changes u d d'
unfolding update_user
update_user_cases org user_id changes d d' h =
    elim (Option-cases (find (λ u. u.id == user_id) d.users)) [
      | inl missing ↦ ground arith
      | inr (u, found) ↦ elim (Result-cases (check_person org u changes.person_id d)) [
        | inr (e, refused) ↦ ground arith
        | inl (_, checked) ↦
            elim (Bool-cases (sets_disabled changes.status && not (is_disabled u.status))) [
              | inl disabling ↦ (u, found, inl (disabling, ground arith))
              | inr keeping ↦ (u, found, inr (keeping, ground arith))
            ]
      ]
    ]

still_active :
    (u : User) (changes : UserUpdate) (v : User)
    → (sets_disabled changes.status && not (is_disabled u.status)) ≡ false
    → is_disabled u.status ≡ false
    → changes.status ≢ some UserStatus.invited
    → is_user_active v.status ≡ true
    → is_user_active (or_keep changes.status v.status) ≡ true
still_active u changes v keeping there not_invited a = ground arith

-- An update of an account that succeeds and does not set the status to `invited` leaves an active
-- Owner in every organization that had one: the name, the link to a person and the status may
-- change, and the account may be disabled.
pub update_user-HasOwner :
    (org user_id : Uuid) (changes : UserUpdate) (d d' : Directory) (other : Uuid)
    → IsKeyed d.users
    → HasOwner other d
    → changes.status ≢ some UserStatus.invited
    → update_user org user_id changes d ≡ ok d'
    → HasOwner other d'
update_user-HasOwner org user_id changes d d' other keyed owned not_invited h =
    let (u, found, how) = update_user_cases org user_id changes d d' h in
    elim how [
      | inl (disabling, eq) ↦ subst (HasOwner other) eq (
          disable_if_safe-HasOwner (record d { users = assign_fields user_id changes true d.users })
            user_id other (assign-HasOwner user_id changes d other true (λ v a. a) owned))
      | inr (keeping, eq) ↦ subst (HasOwner other) eq (elim (Bool-cases (is_disabled u.status)) [
        | inl gone ↦ kept_inactive user_id changes d other u found keyed gone owned
        | inr there ↦
            assign-HasOwner user_id changes d other false
              (λ v a. still_active u changes v keeping there not_invited a) owned
      ])
    ]
