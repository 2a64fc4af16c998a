-- ===== src/Login/Guards/Passing.antt =====
-- Who gets past the guards (app/server/monitor/auth.py).
use rpi_home_monitor.Base.{
  ℕ, String, ◌≡◌, ◌≢◌, refl, sym, ◌∙◌, ap, Bool, true, false, Option, none, some, List, All, ◌⊎◌,
}
use mathlib.Core.Bool.{true≢false}
use rpi_home_monitor.Accounts.Admins.{differ}
use rpi_home_monitor.Sessions.{Session, Service, Call, get_valid, revoke, run}
use rpi_home_monitor.Sessions.Keeps.{Issues}
use rpi_home_monitor.Sessions.Lifetime.{Gone, IsFiled, revoke-get}
use rpi_home_monitor.Login.{Setup, Cookie}
use rpi_home_monitor.Login.Guards.{
  Access, unauthorized, admin_only, change_required, granted, change_allowed, timed_out,
  own_row_checked, is_session_valid, guarded, guard, logout,
}

module _ (setup : Setup) where
  none_valid :
      (held : Cookie) (later : ℕ) (p : Option Session × Service)
      → p.0 ≡ none
      → (own_row_checked setup held later p).0 ≡ false
  none_valid held later (none, s) e = refl
  none_valid held later (some r, s) e = cc

  refused :
      (admin : Bool) (endpoint : String) (held : Cookie) (later : ℕ) (v : Bool × Service)
      → v.0 ≡ false
      → (guarded setup admin endpoint held later v).0 ≡ unauthorized
  refused admin endpoint held later (false, s) e = refl
  refused admin endpoint held later (true, s) e = absurd (true≢false e)

  logout_lem :
      (cookie : Cookie) (now : ℕ) (s : Service)
      → cookie.sid ≢ ""
      → logout setup cookie now s
        ≡ revoke setup.session_config cookie.sid cookie.username cookie.role now s
  unfolding logout
  logout_lem cookie now s named = rw (differ cookie.sid "" named) refl

  -- A log-out lasts: once `logout` has revoked the session of a cookie, every guard refuses that
  -- cookie with 401, whatever calls of the session service come between, at whatever instants, unless
  -- one of them issues the same identifier anew. The cache files every record under its identifier.
  pub logout-guard :
      (cookie : Cookie) (now later : ℕ) (s : Service) (r : Session) (calls : List (Call × ℕ))
      (admin : Bool) (endpoint : String)
      → IsFiled s
      → (logout setup cookie now s).0 ≡ some r
      → cookie.sid ≢ ""
      → All (λ c. Issues setup.session_config (Gone cookie.sid) c.0 c.1) calls
      → (guard setup admin endpoint
          (some cookie)
          later
          (run setup.session_config calls (logout setup cookie now s).1)).0
        ≡ unauthorized
  unfolding guard is_session_valid
  logout-guard cookie now later s r calls admin endpoint filed e named i =
      let l = logout_lem cookie now s named in
      let gone =
        revoke-get setup.session_config cookie.sid cookie.username cookie.role now s r calls false
          later filed (sym (ap (λ p. p.0) l) ∙ e) i in
      rw l (
        refused admin endpoint cookie later _ (
          rw (differ cookie.sid "" named) (
            none_valid cookie later
              (get_valid setup.session_config false cookie.sid later (
                run setup.session_config calls
                  (revoke setup.session_config cookie.sid cookie.username cookie.role now s).1))
              gone)))

  -- What a grant says of the cookie, the role and the endpoint.
  abbrev pub Granted : Bool → String → Cookie → ℕ → Cookie → Type 0
  Granted admin endpoint cookie now cookie' =
      (timed_out setup cookie now ≡ false)
      × ((admin ≡ false) ⊎ (cookie.role ≡ "admin"))
      × ((cookie.must_change_password ≡ false) ⊎ (change_allowed endpoint ≡ true))
      × (cookie' ≡ record cookie { last_active = now })

  abbrev Passed : Bool → String → Cookie → ℕ → Access → Type 0
  Passed admin endpoint cookie now (granted cookie') = Granted admin endpoint cookie now cookie'
  Passed admin endpoint cookie now unauthorized = Unit
  Passed admin endpoint cookie now admin_only = Unit
  Passed admin endpoint cookie now change_required = Unit

  abbrev Valid : Cookie → ℕ → Bool × Service → Type 0
  Valid cookie now (false, s) = Unit
  Valid cookie now (true, s) = timed_out setup cookie now ≡ false
