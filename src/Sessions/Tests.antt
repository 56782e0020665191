-- ===== src/Sessions/Tests.antt =====
-- The theorems on logins and sessions with a toy hasher: a password is accepted for its double.
use capacityos.Base.{
  ℕ, ◌+◌, ◌≡◌, refl, Bool, true, ◌&&◌, none, some, [], ◌∷◌, arith, ◌==◌, find, any,
}
use capacityos.Base.Errors.{ok}
use capacityos.Authorization.{member}
use capacityos.Membership.{UserStatus, MembershipStatus, Membership, is_of, is_in_effect}
use capacityos.Sessions.{
  Account, UserSession, Time, AuthState, locked, refusal, verify_password, login,
  switch_organization,
}
use capacityos.Sessions.Lockout.{Attempt, after_logins, login-lockout}
use capacityos.Sessions.Tokens.{switch_organization-IsMember}

abbrev double : ℕ → ℕ
double n = n + n

abbrev accepts : ℕ → ℕ → Bool
accepts password hash = double password == hash

abbrev account : Account
account = record {
  id = 1;
  email = 101;
  status = UserStatus.active;
  password_hash = some 14;
  failed_login_count = 4;
  locked_until = none;
  last_login_at = none;
}

abbrev membership : Membership
membership = record {
  user_id = 1;
  organization_id = 9;
  role = member;
  status = MembershipStatus.active;
}

abbrev session : UserSession
session = record {
  user_id = 1;
  token_hash = 10;
  csrf_token_hash = 12;
  active_organization_id = none;
  expires_at = 1000;
  last_seen_at = 0;
}

abbrev state : AuthState
state = record {
  accounts = account ∷ [];
  sessions = session ∷ [];
  memberships = membership ∷ [];
  organizations = (9, true) ∷ [];
}

abbrev fresh : AuthState
fresh = record state { accounts = record account { failed_login_count = 0 } ∷ [] }

abbrev guess : Time → Attempt
guess now = record { password = 8; token = 21; csrf_token = 22; ttl = 3600; now = now }

abbrev right_password : Attempt
right_password = record (guess 900000049) { password = 7 }

login-lockout_example :
    login accepts double double 101 7 21 22 3600 900000049 (
      after_logins accepts double double 101
        (guess 10 ∷ guess 20 ∷ guess 30 ∷ guess 40 ∷ guess 50 ∷ [])
        fresh)
    ≡ (
      refusal (some 1) locked,
      after_logins accepts double double 101
          (guess 10 ∷ guess 20 ∷ guess 30 ∷ guess 40 ∷ guess 50 ∷ [])
          fresh,
    )
unfolding verify_password
login-lockout_example =
    login-lockout accepts double double 101 (record account { failed_login_count = 0 })
      (guess 10 ∷ guess 20 ∷ guess 30 ∷ guess 40 ∷ []) (guess 50) right_password fresh refl refl
      ((refl, refl), ((refl, refl), ((refl, refl), ((refl, refl), ((refl, refl), tt))))) refl
      (omega arith)

abbrev switched : AuthState
switched = record state { sessions = record session { active_organization_id = some 9 } ∷ [] }

switch_run : switch_organization accepts double double 1 session 9 state ≡ ok (membership, switched)
unfolding switch_organization
switch_run = refl

switch_organization-IsMember_example :
    (find (is_of 1 9) state.memberships ≡ some membership)
    × (is_in_effect membership.status ≡ true)
    × (any (λ o. o.0 == 9 && o.1) state.organizations ≡ true)
    × (find (λ r. r.token_hash == 10) switched.sessions
        ≡ some (record session { active_organization_id = some 9 }))
    × (switched.accounts ≡ state.accounts)
    × (switched.memberships ≡ state.memberships)
    × (switched.organizations ≡ state.organizations)
switch_organization-IsMember_example =
    switch_organization-IsMember accepts double double 1 session 9 state switched membership 10
      switch_run
