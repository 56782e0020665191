-- ===== src/Sessions/Lockout.antt =====
-- Who may log in, and the lockout after failed attempts.
use capacityos.Base.{
  ℕ, suc, ◌+◌, ◌≤◌, ◌<◌, ◌≡◌, refl, ◌∙◌, ◌↔◌, inl, inr, Bool, true, false, some, List, [], ◌∷◌,
  arith, find, ◌==◌, Bool-cases, Option-cases, ap, All, ◌++◌, length,
}
use capacityos.Capacity.{Uuid}
use capacityos.Membership.{is_user_active}
use capacityos.Sessions.{
  Time, Account, AuthState, locked, refusal, is_locked, set_account, lockout_duration,
  verify_password, failed, login, login_account,
}

-- One call of `login`, apart from the email.
pub record Attempt : Type 0 where
  pub password : ℕ
  pub token : ℕ
  pub csrf_token : ℕ
  pub ttl : Time
  pub now : Time

module _ (verifies : ℕ → ℕ → Bool) (hash_token hash_password : ℕ → ℕ) where
  -- A login succeeds exactly when the email has an account that is not locked, is active and has a
  -- password hash for which the password is accepted.
  pub login_success_iff :
      (email password token csrf_token : ℕ) (ttl now : Time) (s : AuthState)
      → ((login verifies hash_token hash_password email password token csrf_token ttl now
            s).0.success
          ≡ true)
        ↔ ((user : Account) × (find (λ a. a.email == email) s.accounts ≡ some user)
            × (is_locked user now ≡ false)
            × (is_user_active user.status ≡ true)
            × (verify_password verifies hash_token hash_password password user.password_hash
                ≡ true))
  unfolding login login_account
  login_success_iff email password token csrf_token ttl now s =
      elim (Option-cases (find (λ a. a.email == email) s.accounts)) [
        | inl missing ↦ (λ h. absurd (ground arith), λ w. absurd (let e = w.1 in ground arith))
        | inr (user, found) ↦ (
          λ h. (user, found, ground arith, ground arith, ground arith),
          λ w.
              let (other, e, unlocked, is_active, right) = w in
              let same : user ≡ other = ground arith in ground arith,
        )
      ]

  find-set_account :
      (email : ℕ) (i : Uuid) (now : Time) (accounts : List Account) (user : Account)
      → find (λ a. a.email == email) accounts ≡ some user
      → user.id ≡ i
      → find
          (λ a. a.email == email)
          (set_account i (failed verifies hash_token hash_password now) accounts)
        ≡ some (failed verifies hash_token hash_password now user)
  find-set_account email i now [] user f e = cc
  find-set_account email i now (a ∷ accounts) user f e = elim (Bool-cases (a.email == email)) [
    | inl here ↦
        let same : a ≡ user = ground arith in
        let id_is : a.id ≡ i = ap (λ b. b.id) same ∙ e in ground arith
    | inr later ↦ ground (arith, find-set_account email i now accounts user)
  ]

  failed_attempt :
      (email wrong : ℕ) (user : Account) (token csrf_token : ℕ) (ttl now : Time) (s : AuthState)
      → find (λ a. a.email == email) s.accounts ≡ some user
      → is_locked user now ≡ false
      → is_user_active user.status ≡ true
      → verify_password verifies hash_token hash_password wrong user.password_hash ≡ false
      → (login verifies hash_token hash_password email wrong token csrf_token ttl now s).1
        ≡ record s {
          accounts = set_account user.id (failed verifies hash_token hash_password now) s.accounts;
        }
  unfolding login login_account
  failed_attempt email wrong user token csrf_token ttl now s f l a b = ground arith

  locked_attempt :
      (email : ℕ) (user : Account) (password token csrf_token : ℕ) (ttl now : Time) (s : AuthState)
      → find (λ a. a.email == email) s.accounts ≡ some user
      → is_locked user now ≡ true
      → login verifies hash_token hash_password email password token csrf_token ttl now s
        ≡ (refusal (some user.id) locked, s)
  unfolding login login_account
  locked_attempt email user password token csrf_token ttl now s f l = rw (f, login, l) refl

  -- A wrong password where four have come before locks the account.
  fifth_locks :
      (email wrong : ℕ) (user : Account) (token csrf_token : ℕ) (ttl now : Time) (s : AuthState)
      (password token' csrf_token' : ℕ) (ttl' later : Time)
      → find (λ a. a.email == email) s.accounts ≡ some user
      → is_locked user now ≡ false
      → is_user_active user.status ≡ true
      → verify_password verifies hash_token hash_password wrong user.password_hash ≡ false
      → 4 ≤ user.failed_login_count
      → later < now + lockout_duration
      → login verifies hash_token hash_password email password token' csrf_token' ttl' later
          (login verifies hash_token hash_password email wrong token csrf_token ttl now s).1
        ≡ (
          refusal (some user.id) locked,
          (login verifies hash_token hash_password email wrong token csrf_token ttl now s).1,
        )
  fifth_locks email wrong user token csrf_token ttl now s password token' csrf_token' ttl' later
        found unlocked is_active bad many soon =
      let again = find-set_account email user.id now s.accounts user found refl in
      let locks : is_locked (failed verifies hash_token hash_password now user) later ≡ true =
        ground arith in
      rw (failed_attempt email wrong user token csrf_token ttl now s found unlocked is_active bad) (
        locked_attempt email (failed verifies hash_token hash_password now user) password token'
          csrf_token' ttl' later _ again locks)

  -- The state after some logins to one email, one after the other.
  abbrev pub after_logins : ℕ → List Attempt → AuthState → AuthState
  after_logins email [] s = s
  after_logins email (a ∷ attempts) s =
      after_logins email attempts
        (login verifies hash_token hash_password email a.password a.token a.csrf_token a.ttl a.now
          s).1

  -- Each attempt is at a time when the account is not locked, with a password that is not accepted.
  abbrev pub AreWrong : Account → List Attempt → Type 0
  AreWrong user attempts =
      All
        (λ (a : Attempt).
          (is_locked user a.now ≡ false)
          × (verify_password verifies hash_token hash_password a.password user.password_hash
              ≡ false))
        attempts

  -- Up to four failures are only counted.
  counted :
      (email : ℕ) (user : Account) (attempts : List Attempt) (s : AuthState)
      → find (λ a. a.email == email) s.accounts ≡ some user
      → is_user_active user.status ≡ true
      → AreWrong user attempts
      → user.failed_login_count + length attempts ≤ 4
      → find (λ a. a.email == email) (after_logins email attempts s).accounts
        ≡ some (record user { failed_login_count = user.failed_login_count + length attempts })
  counted email user [] s found is_active wrong few = ground arith
  counted email user (a ∷ attempts) s found is_active wrong few =
      let next = failed verifies hash_token hash_password a.now user in
      let one_more : next ≡ record user { failed_login_count = suc user.failed_login_count } =
        ground arith in
      let state =
        failed_attempt email a.password user a.token a.csrf_token a.ttl a.now s found wrong.0.0
          is_active wrong.0.1 in
      let there = find-set_account email user.id a.now s.accounts user found refl in
      let found_next : find (λ b. b.email == email)
            (login verifies hash_token hash_password email a.password a.token a.csrf_token a.ttl
              a.now s).1.accounts
          ≡ some (record user { failed_login_count = suc user.failed_login_count }) =
        rw state (there ∙ ap some one_more) in
      let rest =
        counted email (record user { failed_login_count = suc user.failed_login_count }) attempts
          (login verifies hash_token hash_password email a.password a.token a.csrf_token a.ttl a.now
            s).1
          found_next is_active wrong.1 (omega (arith, few)) in
      rest ∙ ap (λ n. some (record user { failed_login_count = n })) (omega arith)

  after_logins-append :
      (email : ℕ) (attempts : List Attempt) (a : Attempt) (s : AuthState)
      → after_logins email (attempts ++ a ∷ []) s
        ≡ (login verifies hash_token hash_password email a.password a.token a.csrf_token a.ttl a.now
            (after_logins email attempts s)).1
  after_logins-append email [] a s = refl
  after_logins-append email (b ∷ attempts) a s = after_logins-append email attempts a _

  -- Five wrong passwords in a row lock an active account: where the failures already counted and those of
  -- the first attempts are four together, all at times when the account was not locked, then after
  -- another wrong password every login to the account within the lockout is refused as locked and
  -- changes nothing, even with the right password.
  pub login-lockout :
      (email : ℕ) (user : Account) (attempts : List Attempt) (fifth again : Attempt) (s : AuthState)
      → find (λ a. a.email == email) s.accounts ≡ some user
      → is_user_active user.status ≡ true
      → AreWrong user (fifth ∷ attempts)
      → user.failed_login_count + length attempts ≡ 4
      → again.now < fifth.now + lockout_duration
      → let locked_state = after_logins email (attempts ++ fifth ∷ []) s in
        login verifies hash_token hash_password email again.password again.token again.csrf_token
          again.ttl again.now locked_state
        ≡ (refusal (some user.id) locked, locked_state)
  login-lockout email user attempts fifth again s found is_active wrong four soon =
      let before = after_logins email attempts s in
      let counted_four =
        counted email user attempts s found is_active wrong.1 (omega (arith, four)) in
      rw (after_logins-append email attempts fifth s) (
        fifth_locks email fifth.password
          (record user { failed_login_count = user.failed_login_count + length attempts })
          fifth.token fifth.csrf_token fifth.ttl fifth.now before again.password again.token
          again.csrf_token again.ttl again.now counted_four wrong.0.0 is_active wrong.0.1
          (omega (arith, four)) soon)
