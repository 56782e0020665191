-- ===== src/Sessions/Tokens.antt =====
-- Sessions from login to logout.
use capacityos.Base.{
  ℕ, ◌≡◌, refl, inl, inr, Bool, true, false, ◌&&◌, not, none, some, List, [], ◌∷◌, map, arith, find,
  keep, any, ◌==◌, if◌then◌else◌, Option-cases, All,
}
use capacityos.Base.Errors.{ok}
use capacityos.Capacity.{Uuid}
use capacityos.Membership.{Membership, is_of, is_in_effect}
use capacityos.Sessions.{
  Time, Account, UserSession, AuthState, logout, resolve_session, switch_organization,
}

-- The ids of the accounts are distinct (the table's primary key).
abbrev pub IsKeyed : List Account → Type 0
IsKeyed [] = Unit
IsKeyed (a ∷ accounts) = All (λ b. (b.id == a.id) ≡ false) accounts × IsKeyed accounts

module _ (verifies : ℕ → ℕ → Bool) (hash_token hash_password : ℕ → ℕ) where
  none_kept :
      (h : ℕ) (rows : List UserSession)
      → find (λ r. r.token_hash == h) (keep (λ r. not (r.token_hash == h)) rows) ≡ none
  none_kept h [] = refl
  none_kept h (r ∷ rows) = ground (arith, none_kept h rows)

  other_kept :
      (h k : ℕ) (rows : List UserSession)
      → (h == k) ≡ false
      → find (λ r. r.token_hash == k) (keep (λ r. not (r.token_hash == h)) rows)
        ≡ find (λ r. r.token_hash == k) rows
  other_kept h k [] e = refl
  other_kept h k (r ∷ rows) e = ground (arith, other_kept h k rows e)

  -- Logging out makes the token unknown for good, and leaves the sessions of all tokens with
  -- another hash as they were.
  pub logout-resolve_session :
      (token other : ℕ) (now : Time) (s : AuthState)
      → (hash_token token == hash_token other) ≡ false
      → (resolve_session verifies hash_token hash_password token now
            (logout verifies hash_token hash_password token s)
          ≡ none)
        × (find
              (λ r. r.token_hash == hash_token other)
              (logout verifies hash_token hash_password token s).sessions
            ≡ find (λ r. r.token_hash == hash_token other) s.sessions)
  unfolding logout resolve_session
  logout-resolve_session token other now s h = (
    let gone = none_kept (hash_token token) s.sessions in rw (gone, resolve_session) refl,
    other_kept (hash_token token) (hash_token other) s.sessions h,
  )

  find-any :
      (organization : Uuid) (rows : List (Uuid × Bool)) (row : Uuid × Bool)
      → find (λ o. o.0 == organization) rows ≡ some row
      → row.1 ≡ true
      → any (λ o. o.0 == organization && o.1) rows ≡ true
  find-any organization [] row f e = cc
  find-any organization (r ∷ rows) row f e = ground (arith, find-any organization rows row)

  -- The rows of the hash are changed, and no other is.
  find-switched :
      (h k organization : Uuid) (rows : List UserSession)
      → find
          (λ r. r.token_hash == k)
          (map
            (λ r.
              if r.token_hash == h
              then record r { active_organization_id = some organization }
              else r)
            rows)
        ≡ elim (find (λ r. r.token_hash == k) rows) [
          | none ↦ none
          | some r ↦
              some (if k == h then record r { active_organization_id = some organization } else r)
        ]
  find-switched h k organization [] = refl
  find-switched h k organization (r ∷ rows) = ground (arith, find-switched h k organization rows)

  -- A switch that succeeds is to an organization that is active and of which the user has a
  -- membership in effect. After it, the session that a token hash finds has that organization as the
  -- active one if the hash is the session's, and is otherwise as it was; and the accounts, the
  -- memberships and the organizations are as they were.
  pub switch_organization-IsMember :
      (user : Uuid) (session : UserSession) (organization : Uuid) (s s' : AuthState)
      (membership : Membership) (h : ℕ)
      → switch_organization verifies hash_token hash_password user session organization s
        ≡ ok (membership, s')
      → (find (is_of user organization) s.memberships ≡ some membership)
        × (is_in_effect membership.status ≡ true)
        × (any (λ o. o.0 == organization && o.1) s.organizations ≡ true)
        × (find (λ r. r.token_hash == h) s'.sessions
            ≡ elim (find (λ r. r.token_hash == h) s.sessions) [
              | none ↦ none
              | some r ↦ some (
                  if h == session.token_hash
                  then record r { active_organization_id = some organization }
                  else r)
            ])
        × (s'.accounts ≡ s.accounts)
        × (s'.memberships ≡ s.memberships)
        × (s'.organizations ≡ s.organizations)
  unfolding switch_organization
  switch_organization-IsMember user session organization s s' membership k h =
      elim (Option-cases (find (λ o. o.0 == organization) s.organizations)) [
        | inl missing ↦ absurd (ground arith)
        | inr (row, found) ↦
            let on : row.1 ≡ true = ground arith in
            let there = find-any organization s.organizations row found on in
            let rows = find-switched session.token_hash k organization s.sessions in
            (
              ground arith,
              ground arith,
              there,
              ground (arith, rows),
              ground arith,
              ground arith,
              ground arith,
            )
      ]
