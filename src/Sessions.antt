-- ===== src/Sessions.antt =====
-- apps/api/app/services/auth.py: login with lockout, logout, sessions and the choice of an
-- organization, with `verify_password` of apps/api/app/core/security.py and the queries of
-- apps/api/app/repositories/session.py.
-- Times are microseconds. The password hasher, the hash of a token and the time are arguments, and
-- so are the tokens of a login, which are drawn at random. Emails, passwords and hashes are only
-- compared, hashed and stored: they are numbers.
pub mod Lockout
pub mod Tokens
mod Tests
use capacityos.Base.{
  ℕ, zero, suc, ◌+◌, ◌-◌, ◌*◌, Bool, true, false, ◌&&◌, not, Option, none, some, List, [], ◌∷◌, map,
  keep, find, ltb, leb, ◌==◌, if◌then◌else◌,
}
use capacityos.Base.Errors.{
  not_found_error, forbidden_error, Result, ok, err, ◌>>=◌, ◌>>◌, raise_if, or_raise,
}
use capacityos.Capacity.{Uuid}
use capacityos.Membership.{UserStatus, is_user_active, Membership, is_of, is_in_effect}

abbrev pub Time : Type 0
Time = ℕ

abbrev pub max_failed_login_attempts : ℕ
max_failed_login_attempts = 5

abbrev pub lockout_duration : Time
lockout_duration = 900000000

abbrev pub session_activity_update_interval : Time
session_activity_update_interval = 300000000

-- The columns of a user's row that this service reads or writes.
pub record Account : Type 0 where
  pub id : Uuid
  pub email : ℕ
  pub status : UserStatus
  pub password_hash : Option ℕ
  pub failed_login_count : ℕ
  pub locked_until : Option Time
  pub last_login_at : Option Time

pub record UserSession : Type 0 where
  pub user_id : Uuid
  pub token_hash : ℕ
  pub csrf_token_hash : ℕ
  pub active_organization_id : Option Uuid
  pub expires_at : Time
  pub last_seen_at : Time

-- `organizations` tells of each whether it is active. A new session is written at the front.
pub record AuthState : Type 0 where
  pub accounts : List Account
  pub sessions : List UserSession
  pub memberships : List Membership
  pub organizations : List (Uuid × Bool)

pub data LoginReason : Type 0 where
  invalid_credentials locked : LoginReason

-- The fields `token` and `csrf_token`, which are None with a failure, are one field.
pub record LoginResult : Type 0 where
  pub success : Bool
  pub user : Option Uuid
  pub tokens : Option (ℕ × ℕ)
  pub reason : Option LoginReason
  pub active_organization_id : Option Uuid

abbrev pub refusal : Option Uuid → LoginReason → LoginResult
refusal user reason = record {
  success = false;
  user = user;
  tokens = none;
  reason = some reason;
  active_organization_id = none;
}

-- `user.locked_until is not None and as_utc(user.locked_until) > now`
abbrev pub is_locked : Account → Time → Bool
is_locked a now = elim a.locked_until [ none ↦ false | some t ↦ ltb now t ]

abbrev pub set_account : Uuid → (Account → Account) → List Account → List Account
set_account i change accounts = map (λ a. if a.id == i then change a else a) accounts

-- `list_active_for_user(user_id)`
abbrev pub list_active_for_user : Uuid → List Membership → List Membership
list_active_for_user user memberships =
    keep (λ m. m.user_id == user && is_in_effect m.status) memberships

-- The organization of the only membership, if there is exactly one.
abbrev pub only_organization : List Membership → Option Uuid
only_organization [] = none
only_organization (m ∷ []) = some m.organization_id
only_organization (m ∷ n ∷ ms) = none

-- `verifies password hash` is whether the Argon2 hasher accepts the password for the hash;
-- `hash_token` is SHA-256 and `hash_password` is Argon2.
module _ (verifies : ℕ → ℕ → Bool) (hash_token hash_password : ℕ → ℕ) where
  unfoldable pub verify_password : ℕ → Option ℕ → Bool
  verify_password password none = false
  verify_password password (some hash) = verifies password hash

  abbrev pub failed : Time → Account → Account
  failed now a = record a {
    failed_login_count = suc a.failed_login_count;
    locked_until =
        if leb max_failed_login_attempts (suc a.failed_login_count)
        then some (now + lockout_duration)
        else a.locked_until;
  }

  abbrev pub succeeded : Time → Account → Account
  succeeded now a = record a {
    failed_login_count = 0;
    locked_until = none;
    last_login_at = some now;
  }

  abbrev pub new_session : Account → ℕ → ℕ → Option Uuid → Time → Time → UserSession
  new_session a token csrf_token organization ttl now = record {
    user_id = a.id;
    token_hash = hash_token token;
    csrf_token_hash = hash_token csrf_token;
    active_organization_id = organization;
    expires_at = now + ttl;
    last_seen_at = now;
  }

  -- `login`, once the account is found. `ttl` is `session_ttl_hours`, as a time.
  unfoldable pub login_account :
      Account → ℕ → ℕ → ℕ → Time → Time → AuthState → LoginResult × AuthState
  unfolding verify_password
  login_account user password token csrf_token ttl now s =
      if is_locked user now
      then (refusal (some user.id) locked, s)
      else if not (is_user_active user.status)
      then (refusal (some user.id) invalid_credentials, s)
      else if not (verify_password password user.password_hash)
      then (
        refusal (some user.id) (
            if leb max_failed_login_attempts (suc user.failed_login_count)
            then locked
            else invalid_credentials),
        record s { accounts = set_account user.id (failed now) s.accounts },
      )
      else let organization = only_organization (list_active_for_user user.id s.memberships) in
        (
          record {
            success = true;
            user = some user.id;
            tokens = some (token, csrf_token);
            reason = none;
            active_organization_id = organization;
          },
          record s {
            accounts = set_account user.id (succeeded now) s.accounts;
            sessions = new_session user token csrf_token organization ttl now ∷ s.sessions;
          },
        )

  unfoldable pub login : ℕ → ℕ → ℕ → ℕ → Time → Time → AuthState → LoginResult × AuthState
  unfolding login_account
  login email password token csrf_token ttl now s = elim (find (λ a. a.email == email) s.accounts) [
    | none ↦ (refusal none invalid_credentials, s)
    | some user ↦ login_account user password token csrf_token ttl now s
  ]

  unfoldable pub logout : ℕ → AuthState → AuthState
  logout token s = record s {
    sessions = keep (λ r. not (r.token_hash == hash_token token)) s.sessions;
  }

  -- The session's row is the one with its token hash, which is unique in the table.
  unfoldable pub switch_organization :
      Uuid → UserSession → Uuid → AuthState → Result (Membership × AuthState)
  switch_organization user session organization s = do
    membership ← or_raise (find (is_of user organization) s.memberships) not_found_error
    raise_if (not (is_in_effect membership.status)) not_found_error
    row ← or_raise (find (λ o. o.0 == organization) s.organizations) not_found_error
    raise_if (not row.1) not_found_error
    ok (
      membership,
      record s {
        sessions =
            map
              (λ r.
                if r.token_hash == session.token_hash
                then record r { active_organization_id = some organization }
                else r)
              s.sessions;
      },
    )

  abbrev pub touched : UserSession → Time → UserSession
  touched session now =
      if ltb session_activity_update_interval (now - session.last_seen_at)
      then record session { last_seen_at = now }
      else session

  -- The account and the session of a token, and the state after the activity is noted. The clock
  -- does not run backwards: `now - last_seen_at` is never negative.
  unfoldable pub resolve_session : ℕ → Time → AuthState → Option (Account × UserSession × AuthState)
  resolve_session token now s = elim (find (λ r. r.token_hash == hash_token token) s.sessions) [
    | none ↦ none
    | some session ↦
        if leb session.expires_at now
        then none
        else elim (find (λ a. a.id == session.user_id) s.accounts) [
          | none ↦ none
          | some user ↦
              if not (is_user_active user.status)
              then none
              else some (
                user,
                touched session now,
                record s {
                  sessions =
                      map (λ r. if r.token_hash == session.token_hash then touched r now else r)
                        s.sessions;
                },
              )
        ]
  ]

  -- The account is the one of the request's session.
  unfoldable pub change_password : Account → ℕ → ℕ → AuthState → Result AuthState
  unfolding verify_password
  change_password user current_password new_password s = do
    raise_if (not (verify_password current_password user.password_hash)) forbidden_error
    ok (record s {
      accounts =
          set_account user.id (λ a. record a { password_hash = some (hash_password new_password) })
            s.accounts;
    })
