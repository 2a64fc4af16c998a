-- ===== src/Lifecycle.antt =====
-- The life of the camera's program (app/camera/camera_streamer/lifecycle.py): the states from the start
-- to the shutdown, and the services that run. What the loops look at, the answers of the environment,
-- is a function of the number of looks; fuel bounds the looks of one loop, and `none` is a loop that
-- was still waiting then.
pub mod Order
pub mod Ends
pub mod Starts
mod Tests
use rpi_home_monitor.Base.{
  ℕ, zero, suc, ◌+◌, Bool, true, false, ◌&&◌, not, Option, none, some, List, [], ◌∷◌, ◌++◌,
  if◌then◌else◌,
}

pub data State : Type 0 where
  init setup pairing connecting validating running shutdown : State

-- What one look finds.
pub record Look : Type 0 where
  pub is_shutdown : Bool
  pub needs_setup : Bool
  pub is_paired : Bool
  pub has_ip : Bool

-- What the configuration says when the services start, and the stream state that was stored.
pub record Config : Type 0 where
  pub is_configured : Bool
  pub has_server_ip : Bool
  pub desired_running : Bool

-- Which services run, and the states so far.
pub record Camera : Type 0 where
  pub states : List State
  pub setup_server : Bool
  pub status_server : Bool
  pub discovery : Bool
  pub server_resolver : Bool
  pub stream : Bool
  pub control_server : Bool
  pub ota_agent : Bool
  pub restart_scheduler : Bool
  pub heartbeat : Bool
  pub health : Bool
  pub setup_reverted : Bool

-- A camera without services, as `__init__` makes it.
abbrev pub new_camera : Camera
new_camera = record {
  states = [];
  setup_server = false;
  status_server = false;
  discovery = false;
  server_resolver = false;
  stream = false;
  control_server = false;
  ota_agent = false;
  restart_scheduler = false;
  heartbeat = false;
  health = false;
  setup_reverted = false;
}

abbrev pub enter : State → Camera → Camera
enter state c = record c { states = c.states ++ state ∷ [] }

-- `shutdown`
unfoldable pub stop_all : Camera → Camera
stop_all c = enter shutdown (record c {
  server_resolver = false;
  heartbeat = false;
  health = false;
  restart_scheduler = false;
  ota_agent = false;
  stream = false;
  control_server = false;
  status_server = false;
  discovery = false;
})

abbrev pub wifi_timeout : ℕ
wifi_timeout = 60

-- What a handler returns: whether it went well, the number of the next look, and the camera.
abbrev pub Outcome : Type 0
Outcome = Bool × (ℕ × Camera)

module _ (look : ℕ → Look) where
  -- The loop of the first set-up: the number of the look that ends it.
  unfoldable pub wait_for_setup : ℕ → ℕ → Option ℕ
  wait_for_setup zero t = none
  wait_for_setup (suc fuel) t =
      let later = wait_for_setup fuel (t + 1) in
      if not (look t).is_shutdown && (look t).needs_setup then later else some t

  abbrev pub set_up : Camera → Option ℕ → Option Outcome
  set_up c none = none
  set_up c (some t) =
      some (not (look (t + 1)).is_shutdown, (t + 2, record c { setup_server = false }))

  unfoldable pub do_setup : ℕ → ℕ → Camera → Option Outcome
  do_setup fuel t c =
      if not (look t).needs_setup
      then some (true, (t + 1, c))
      else set_up (record c { setup_server = true }) (wait_for_setup fuel (t + 1))

  -- The loop of the pairing: whether it ends paired, and the number of the look that ends it.
  unfoldable pub wait_for_pairing : ℕ → ℕ → Option (Bool × ℕ)
  wait_for_pairing zero t = none
  wait_for_pairing (suc fuel) t =
      let later = wait_for_pairing fuel (t + 1) in
      if (look t).is_shutdown
      then some (false, t)
      else if (look t).is_paired
      then some (true, t)
      else later

  abbrev pub paired : Camera → Option (Bool × ℕ) → Option Outcome
  paired c none = none
  paired c (some (ok, t)) = some (ok, (t + 1, record c { status_server = false }))

  unfoldable pub do_pairing : ℕ → ℕ → Camera → Option Outcome
  do_pairing fuel t c =
      if (look t).is_paired
      then some (true, (t + 1, c))
      else paired (record c { status_server = true }) (wait_for_pairing fuel (t + 1))

  -- `_wait_for_wifi`, with the seconds that are left.
  unfoldable pub wait_for_wifi : ℕ → ℕ → Bool × ℕ
  wait_for_wifi zero t = (false, t)
  wait_for_wifi (suc left) t =
      let later = wait_for_wifi left (t + 1) in
      if (look t).is_shutdown
      then (true, t + 1)
      else if (look t).has_ip
      then (true, t + 1)
      else later

  unfoldable pub do_connecting : ℕ → Camera → Outcome
  do_connecting t c =
      let (ok, next) = wait_for_wifi wifi_timeout t in
      (ok, (next, if ok then c else record c { setup_reverted = true }))

  -- The main loop, which waits for the shutdown.
  unfoldable pub wait_for_shutdown : ℕ → ℕ → Option ℕ
  wait_for_shutdown zero t = none
  wait_for_shutdown (suc fuel) t =
      let later = wait_for_shutdown fuel (t + 1) in if (look t).is_shutdown then some t else later

  abbrev pub ran : Camera → Option ℕ → Option Outcome
  ran c none = none
  ran c (some t) = some (true, (t + 1, c))

  module _ (config : Config) where
    abbrev pub start_all : ℕ → Camera → Camera
    start_all t c = record c {
      discovery = true;
      server_resolver = config.is_configured && config.has_server_ip;
      stream = config.is_configured && config.desired_running;
      status_server = true;
      control_server = true;
      ota_agent = true;
      restart_scheduler = true;
      heartbeat = config.is_configured && (look t).is_paired;
      health = true;
    }

    unfoldable pub do_running : ℕ → ℕ → Camera → Option Outcome
    do_running fuel t c = ran (start_all t c) (wait_for_shutdown fuel (t + 1))

    -- The handlers of the table of transitions; `_do_init` and `_do_validating` always go on.
    unfoldable pub handle : State → ℕ → ℕ → Camera → Option Outcome
    handle init fuel t c = some (true, (t, c))
    handle setup fuel t c = do_setup fuel t c
    handle pairing fuel t c = do_pairing fuel t c
    handle connecting fuel t c = some (do_connecting t c)
    handle validating fuel t c = some (true, (t, c))
    handle running fuel t c = do_running fuel t c
    handle shutdown fuel t c = some (false, (t, c))

    abbrev pub transitions : List State
    transitions = init ∷ setup ∷ pairing ∷ connecting ∷ validating ∷ running ∷ []

    abbrev pub handled : (ℕ → Camera → Option Camera) → Option Outcome → Option Camera
    handled again none = none
    handled again (some (ok, (t, c))) = if ok then again t c else some c

    -- The loop over the transitions, from a look on.
    unfoldable pub run_from : List State → ℕ → ℕ → Camera → Option Camera
    run_from [] fuel t c = some c
    run_from (state ∷ rest) fuel t c =
        if (look t).is_shutdown
        then some c
        else handled (λ t' c'. run_from rest fuel t' c') (handle state fuel (t + 1) (enter state c))

    abbrev pub then_stop : Option Camera → Option Camera
    then_stop none = none
    then_stop (some c) = some (stop_all c)

    -- `run`
    unfoldable pub run : ℕ → Option Camera
    run fuel = then_stop (run_from transitions fuel 0 new_camera)
