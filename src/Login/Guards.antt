-- ===== src/Login/Guards.antt =====
-- The guards of the endpoints and the log-out (app/server/monitor/auth.py) over the session service.
pub mod Passing
use rpi_home_monitor.Base.{
  ℕ, ◌+◌, ◌*◌, String, Bool, true, false, ◌&&◌, ◌||◌, not, Option, none, some, ltb, ◌==◌, str_eq,
  if◌then◌else◌,
}
use rpi_home_monitor.Sessions.{
  Session, Service, absolute_session_seconds, truthy, get_valid, touch, revoke, expire,
}
use rpi_home_monitor.Login.{Setup, Cookie}

-- What a guard answers: 401, 403 for another role, 403 until the password is changed, or the request
-- goes on with the refreshed cookie.
pub data Access : Type 0 where
  unauthorized admin_only change_required : Access
  granted : Cookie → Access

-- `_MUST_CHANGE_ALLOWED_ENDPOINTS`
abbrev pub change_allowed : String → Bool
change_allowed endpoint =
    str_eq endpoint "users.change_password"
    || (str_eq endpoint "auth.logout" || str_eq endpoint "auth.me")

abbrev pub is_own_row : Cookie → Option Session → Bool
is_own_row cookie none = false
is_own_row cookie (some r) = str_eq r.user_id cookie.user_id

module _ (setup : Setup) where
  -- The two timeouts of `_is_session_valid`.
  unfoldable pub timed_out : Cookie → ℕ → Bool
  timed_out cookie now =
      (truthy cookie.last_active
        && ltb (cookie.last_active + setup.session_timeout_minutes * 60) now)
      || (truthy cookie.created_at && ltb (cookie.created_at + absolute_session_seconds) now)

  unfoldable pub expire_named : String → ℕ → Service → Service
  expire_named sid now s = if str_eq sid "" then s else expire setup.session_config sid now s

  abbrev pub unless_timed_out : Cookie → ℕ → Service → Bool × Service
  unless_timed_out cookie now s =
      if timed_out cookie now then (false, expire_named cookie.sid now s) else (true, s)

  abbrev pub own_row_checked : Cookie → ℕ → Option Session × Service → Bool × Service
  own_row_checked cookie now (row, s) =
      if is_own_row cookie row then unless_timed_out cookie now s else (false, s)

  -- `_is_session_valid`
  unfoldable pub is_session_valid : Option Cookie → ℕ → Service → Bool × Service
  is_session_valid none now s = (false, s)
  is_session_valid (some cookie) now s =
      if str_eq cookie.sid ""
      then unless_timed_out cookie now s
      else own_row_checked cookie now (get_valid setup.session_config false cookie.sid now s)

  -- `login_required`, and `admin_required` where `admin` is true, behind `_is_session_valid`.
  abbrev pub guarded : Bool → String → Cookie → ℕ → Bool × Service → Access × Service
  guarded admin endpoint cookie now (false, s) = (unauthorized, s)
  guarded admin endpoint cookie now (true, s) =
      if admin && not (str_eq cookie.role "admin")
      then (admin_only, s)
      else if cookie.must_change_password && not (change_allowed endpoint)
      then (change_required, s)
      else (
        granted (record cookie { last_active = now }),
        (touch setup.session_config cookie.sid now s).1,
      )

  unfoldable pub guard : Bool → String → Option Cookie → ℕ → Service → Access × Service
  guard admin endpoint none now s = (unauthorized, s)
  guard admin endpoint (some cookie) now s =
      guarded admin endpoint cookie now (is_session_valid (some cookie) now s)

  -- `logout`
  unfoldable pub logout : Cookie → ℕ → Service → Option Session × Service
  logout cookie now s =
      if str_eq cookie.sid ""
      then (none, s)
      else revoke setup.session_config cookie.sid cookie.username cookie.role now s
