-- ===== src/Lifecycle/Ends.antt =====
-- That the camera's program ends when it is told to (app/camera/camera_streamer/lifecycle.py).
use rpi_home_monitor.Base.{
  ℕ, zero, suc, ◌+◌, ◌≤◌, ◌≡◌, refl, ap, Bool, true, false, ◌&&◌, not, Option, none, some, List, [],
  ◌∷◌, ◌++◌, take, if_both, arith,
}
use rpi_home_monitor.Lifecycle.{
  State, Look, Config, Camera, Outcome, setup, init, pairing, connecting, validating, running,
  shutdown, new_camera, enter, stop_all, wait_for_setup, set_up, do_setup, wait_for_pairing, paired,
  do_pairing, wait_for_shutdown, start_all, ran, do_running, handle, transitions, handled, run_from,
  then_stop, run,
}
use rpi_home_monitor.Lifecycle.Order.{Ordered, run_from-Ordered}

-- There is a result.
abbrev pub IsDone {ℓ} : {A : Type ℓ} → Option A → Type 0
IsDone none = ⊥
IsDone (some a) = Unit

-- No service runs any more.
abbrev pub IsQuiet : Camera → Type 0
IsQuiet c =
    (((c.setup_server ≡ false) × (c.status_server ≡ false))
      × ((c.discovery ≡ false) × (c.server_resolver ≡ false)))
    × (((c.stream ≡ false) × (c.control_server ≡ false))
        × (((c.ota_agent ≡ false) × (c.restart_scheduler ≡ false))
            × ((c.heartbeat ≡ false) × (c.health ≡ false))))

-- How a run ends: with a first part of the table, the shutdown behind it, and no service.
abbrev pub IsEnded : List State → Option Camera → Type 0
IsEnded table none = ⊥
IsEnded table (some c) = ((n : ℕ) × (c.states ≡ take n table ++ shutdown ∷ [])) × IsQuiet c

-- From a look on, the shutdown is asked for.
abbrev pub IsStopped : (ℕ → Look) → ℕ → Type 0
IsStopped look n = (m : ℕ) → n ≤ m → (look m).is_shutdown ≡ true

module _ (look : ℕ → Look) (n : ℕ) (stopped : IsStopped look n) where
  wait_for_setup-IsDone : (fuel t : ℕ) → n ≤ t + fuel → IsDone (wait_for_setup look (suc fuel) t)
  unfolding wait_for_setup
  wait_for_setup-IsDone zero t h =
      if_both IsDone (not (look t).is_shutdown && (look t).needs_setup)
        (λ on. let off = stopped t (omega (arith, h)) in absurd (ground (arith, on, off)))
        (λ over. tt)
  wait_for_setup-IsDone (suc fuel) t h =
      if_both IsDone (not (look t).is_shutdown && (look t).needs_setup)
        (λ on. wait_for_setup-IsDone fuel (t + 1) (omega (arith, h))) (λ over. tt)

  wait_for_pairing-IsDone :
      (fuel t : ℕ) → n ≤ t + fuel → IsDone (wait_for_pairing look (suc fuel) t)
  unfolding wait_for_pairing
  wait_for_pairing-IsDone zero t h =
      if_both IsDone (look t).is_shutdown (λ over. tt)
        (λ on. let off = stopped t (omega (arith, h)) in absurd (ground (arith, on, off)))
  wait_for_pairing-IsDone (suc fuel) t h =
      if_both IsDone (look t).is_shutdown (λ over. tt)
        (λ on.
          if_both IsDone (look t).is_paired (λ over. tt)
            (λ more. wait_for_pairing-IsDone fuel (t + 1) (omega (arith, h))))

  pub wait_for_shutdown-IsDone :
      (fuel t : ℕ) → n ≤ t + fuel → IsDone (wait_for_shutdown look (suc fuel) t)
  unfolding wait_for_shutdown
  wait_for_shutdown-IsDone zero t h =
      if_both IsDone (look t).is_shutdown (λ over. tt)
        (λ on. let off = stopped t (omega (arith, h)) in absurd (ground (arith, on, off)))
  wait_for_shutdown-IsDone (suc fuel) t h =
      if_both IsDone (look t).is_shutdown (λ over. tt)
        (λ on. wait_for_shutdown-IsDone fuel (t + 1) (omega (arith, h)))

  do_setup-IsDone : (fuel t : ℕ) (c : Camera) → n ≤ fuel → IsDone (do_setup look (suc fuel) t c)
  unfolding do_setup
  do_setup-IsDone fuel t c h =
      if_both IsDone (not (look t).needs_setup) (λ e. tt)
        (λ e. set_up-IsDone _ (wait_for_setup-IsDone fuel (t + 1) (omega (arith, h))))
    where
      set_up-IsDone :
          (o : Option ℕ) → IsDone o → IsDone (set_up look (record c { setup_server = true }) o)
      set_up-IsDone none d = d
      set_up-IsDone (some t) d = tt

  do_pairing-IsDone : (fuel t : ℕ) (c : Camera) → n ≤ fuel → IsDone (do_pairing look (suc fuel) t c)
  unfolding do_pairing
  do_pairing-IsDone fuel t c h =
      if_both IsDone (look t).is_paired (λ e. tt)
        (λ e. paired-IsDone _ (wait_for_pairing-IsDone fuel (t + 1) (omega (arith, h))))
    where
      paired-IsDone :
          (o : Option (Bool × ℕ))
          → IsDone o
          → IsDone (paired look (record c { status_server = true }) o)
      paired-IsDone none d = d
      paired-IsDone (some r) d = tt

  module _ (config : Config) where
    do_running-IsDone :
        (fuel t : ℕ) (c : Camera) → n ≤ fuel → IsDone (do_running look config (suc fuel) t c)
    unfolding do_running
    do_running-IsDone fuel t c h =
        ran-IsDone _ (wait_for_shutdown-IsDone fuel (t + 1) (omega (arith, h)))
      where
        ran-IsDone : (o : Option ℕ) → IsDone o → IsDone (ran look (start_all look config t c) o)
        ran-IsDone none d = d
        ran-IsDone (some t') d = tt

    handle-IsDone :
        (state : State) (fuel t : ℕ) (c : Camera)
        → n ≤ fuel
        → IsDone (handle look config state (suc fuel) t c)
    unfolding handle
    handle-IsDone init fuel t c h = tt
    handle-IsDone setup fuel t c h = do_setup-IsDone fuel t c h
    handle-IsDone pairing fuel t c h = do_pairing-IsDone fuel t c h
    handle-IsDone connecting fuel t c h = tt
    handle-IsDone validating fuel t c h = tt
    handle-IsDone running fuel t c h = do_running-IsDone fuel t c h
    handle-IsDone shutdown fuel t c h = tt

    handled-IsDone :
        (again : ℕ → Camera → Option Camera) (o : Option Outcome)
        → IsDone o
        → ((t : ℕ) (c : Camera) → IsDone (again t c))
        → IsDone (handled look config again o)
    handled-IsDone again none d h = d
    handled-IsDone again (some (ok, (t, c))) d h = if_both IsDone ok (λ on. h t c) (λ over. tt)

    run_from-IsDone :
        (rest : List State) (fuel t : ℕ) (c : Camera)
        → n ≤ fuel
        → IsDone (run_from look config rest (suc fuel) t c)
    unfolding run_from
    run_from-IsDone [] fuel t c h = tt
    run_from-IsDone (state ∷ rest) fuel t c h =
        if_both IsDone (look t).is_shutdown (λ stop. tt)
          (λ on.
            handled-IsDone (λ t' c'. run_from look config rest (suc fuel) t' c') _
              (handle-IsDone state fuel (t + 1) (enter state c) h)
              (λ t' c'. run_from-IsDone rest fuel t' c' h))

    -- The program ends, in order: where the shutdown is asked for at every look from some number on,
    -- and the fuel is more than that number, `run` returns; the states that it went through are a
    -- first part of the table of transitions, each once and in its order, with the shutdown behind
    -- them; and no service is left running, whatever set-up, pairing and Wi-Fi did before.
    pub run-IsEnded :
        (fuel : ℕ) → n ≤ fuel → IsEnded (transitions look config) (run look config (suc fuel))
    unfolding run stop_all
    run-IsEnded fuel h =
        stopped_run (run_from look config (transitions look config) (suc fuel) 0 new_camera)
          (run_from-IsDone (transitions look config) fuel 0 new_camera h)
          (run_from-Ordered look config (transitions look config) (suc fuel) 0 new_camera refl)
      where
        stopped_run :
            (o : Option Camera)
            → IsDone o
            → Ordered look config (transitions look config) new_camera o
            → IsEnded (transitions look config) (then_stop look config o)
        stopped_run none d r = d
        stopped_run (some c) d ((k, e), quiet) = (
          (k, ap (λ s. s ++ shutdown ∷ []) e),
          (((quiet, refl), (refl, refl)), ((refl, refl), ((refl, refl), (refl, refl)))),
        )
