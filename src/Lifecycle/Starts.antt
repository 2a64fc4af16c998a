-- ===== src/Lifecycle/Starts.antt =====
-- That the handlers of the camera's program go on (app/camera/camera_streamer/lifecycle.py).
pub mod Full
use rpi_home_monitor.Base.{
  ℕ, zero, suc, ◌+◌, ◌≤◌, ◌<◌, ◌≡◌, refl, sym, ap, Bool, true, false, ◌&&◌, not, Option, none, some,
  List, [], ◌∷◌, ◌++◌, if_both, Bool-cases, leb, leb→le, inl, inr, arith,
}
use rpi_home_monitor.Lifecycle.{
  State, Look, Config, Camera, Outcome, setup, init, pairing, connecting, validating, running,
  shutdown, new_camera, enter, stop_all, wifi_timeout, wait_for_setup, set_up, do_setup,
  wait_for_pairing, paired, do_pairing, wait_for_wifi, do_connecting, start_all, ran, do_running,
  handle, transitions, handled, run_from, then_stop, run,
}
use rpi_home_monitor.Lifecycle.Ends.{IsDone, IsStopped, wait_for_shutdown-IsDone}

-- From look `ready` on the set-up is done and the camera paired, from look `online` on it has an
-- address, and the shutdown is asked for from look `over` on and not before.
abbrev pub IsReady : (ℕ → Look) → ℕ → ℕ → ℕ → Type 0
IsReady look ready online over =
    (((m : ℕ) → ready ≤ m → ((look m).needs_setup ≡ false) × ((look m).is_paired ≡ true))
      × ((m : ℕ) → online ≤ m → (look m).has_ip ≡ true))
    × (((m : ℕ) → m < over → (look m).is_shutdown ≡ false) × IsStopped look over)

abbrev Found : ℕ → Option ℕ → Type 0
Found b none = ⊥
Found b (some t) = t ≤ b

abbrev Pairs : ℕ → Option (Bool × ℕ) → Type 0
Pairs b none = ⊥
Pairs b (some (ok, t)) = (ok ≡ true) × (t ≤ b)

-- A handler goes on, before a look.
abbrev pub Goes : ℕ → Camera → Option Outcome → Type 0
Goes b c none = ⊥
Goes b c (some (ok, (t, c'))) = (ok ≡ true) × ((t ≤ b) × (c'.states ≡ c.states))

module _ (look : ℕ → Look) (ready online over : ℕ) (h : IsReady look ready online over) where
  wait_for_setup-Found :
      (fuel t b : ℕ)
      → ready ≤ t + fuel
      → t ≤ b
      → ready ≤ b
      → Found b (wait_for_setup look (suc fuel) t)
  unfolding wait_for_setup
  wait_for_setup-Found zero t b r l m =
      if_both (Found b) (not (look t).is_shutdown && (look t).needs_setup)
        (λ on. let (done, _) = h.0.0 t (omega (arith, r)) in absurd (ground (arith, on, done)))
        (λ off. l)
  wait_for_setup-Found (suc fuel) t b r l m =
      if_both (Found b) (not (look t).is_shutdown && (look t).needs_setup)
        (λ on. elim (Bool-cases (leb ready t)) [
          | inl late ↦
              absurd (let (done, _) = h.0.0 t (leb→le ready t late) in ground (arith, on, done))
          | inr early ↦
              wait_for_setup-Found fuel (t + 1) b (omega (arith, r)) (ground (arith, early, m)) m
        ])
        (λ off. l)

  pub do_setup-Goes :
      (fuel t b : ℕ) (c : Camera)
      → ready ≤ fuel
      → t + 1 ≤ b
      → ready ≤ b
      → b + 1 < over
      → Goes (b + 2) c (do_setup look (suc fuel) t c)
  unfolding do_setup
  do_setup-Goes fuel t b c r l m k =
      if_both (Goes (b + 2) c) (not (look t).needs_setup) (λ e. (refl, (omega (arith, l), refl)))
        (λ e. set_up-Goes _ (wait_for_setup-Found fuel (t + 1) b (omega (arith, r)) l m))
    where
      set_up-Goes :
          (o : Option ℕ)
          → Found b o
          → Goes (b + 2) c (set_up look (record c { setup_server = true }) o)
      set_up-Goes none d = d
      set_up-Goes (some t') d =
          (ap not (h.1.0 (t' + 1) (omega (arith, d, k))), (omega (arith, d), refl))

  wait_for_pairing-Pairs :
      (fuel t b : ℕ)
      → ready ≤ t + fuel
      → t ≤ b
      → ready ≤ b
      → b < over
      → Pairs b (wait_for_pairing look (suc fuel) t)
  unfolding wait_for_pairing
  wait_for_pairing-Pairs zero t b r l m k =
      if_both (Pairs b) (look t).is_shutdown
        (λ off. let on = h.1.0 t (omega (arith, l, k)) in absurd (ground (arith, on, off)))
        (λ on.
          if_both (Pairs b) (look t).is_paired (λ e. (refl, l))
            (λ alone.
              let (_, pair) = h.0.0 t (omega (arith, r)) in absurd (ground (arith, alone, pair))))
  wait_for_pairing-Pairs (suc fuel) t b r l m k =
      if_both (Pairs b) (look t).is_shutdown
        (λ off. let on = h.1.0 t (omega (arith, l, k)) in absurd (ground (arith, on, off)))
        (λ on.
          if_both (Pairs b) (look t).is_paired (λ e. (refl, l))
            (λ alone. elim (Bool-cases (leb ready t)) [
              | inl late ↦
                  absurd
                    (let (_, pair) = h.0.0 t (leb→le ready t late) in ground (arith, alone, pair))
              | inr early ↦
                  wait_for_pairing-Pairs fuel (t + 1) b (omega (arith, r))
                    (ground (arith, early, m)) m k
            ]))

  pub do_pairing-Goes :
      (fuel t b : ℕ) (c : Camera)
      → ready ≤ fuel
      → t + 1 ≤ b
      → ready ≤ b
      → b < over
      → Goes (b + 2) c (do_pairing look (suc fuel) t c)
  unfolding do_pairing
  do_pairing-Goes fuel t b c r l m k =
      if_both (Goes (b + 2) c) (look t).is_paired (λ e. (refl, (omega (arith, l), refl)))
        (λ e. paired-Goes _ (wait_for_pairing-Pairs fuel (t + 1) b (omega (arith, r)) l m k))
    where
      paired-Goes :
          (o : Option (Bool × ℕ))
          → Pairs b o
          → Goes (b + 2) c (paired look (record c { status_server = true }) o)
      paired-Goes none d = d
      paired-Goes (some (ok, t')) (on, d) = (on, (omega (arith, d), refl))

  abbrev Connects : ℕ → Bool × ℕ → Type 0
  Connects b (ok, t) = (ok ≡ true) × (t ≤ b + 2)

  wait_for_wifi-Connects :
      (left t b : ℕ)
      → online ≤ t + left
      → t ≤ b
      → online ≤ b
      → Connects b (wait_for_wifi look (suc left) t)
  unfolding wait_for_wifi
  wait_for_wifi-Connects zero t b r l m =
      if_both (Connects b) (look t).is_shutdown (λ e. (refl, omega (arith, l)))
        (λ e.
          if_both (Connects b) (look t).has_ip (λ e. (refl, omega (arith, l)))
            (λ alone.
              let found = h.0.1 t (omega (arith, r)) in absurd (ground (arith, alone, found))))
  wait_for_wifi-Connects (suc left) t b r l m =
      if_both (Connects b) (look t).is_shutdown (λ e. (refl, omega (arith, l)))
        (λ e.
          if_both (Connects b) (look t).has_ip (λ e. (refl, omega (arith, l)))
            (λ alone. elim (Bool-cases (leb online t)) [
              | inl late ↦
                  absurd
                    (let found = h.0.1 t (leb→le online t late) in ground (arith, alone, found))
              | inr early ↦
                  wait_for_wifi-Connects left (t + 1) b (omega (arith, r))
                    (ground (arith, early, m)) m
            ]))

  pub do_connecting-Goes :
      (t b : ℕ) (c : Camera)
      → online < wifi_timeout
      → t ≤ b
      → online ≤ b
      → Goes (b + 2) c (some (do_connecting look t c))
  unfolding do_connecting
  do_connecting-Goes t b c w l m =
      let (ok, few) = wait_for_wifi-Connects 59 t b (omega (arith, w)) l m in
      (ok, (few, rw ok refl))
