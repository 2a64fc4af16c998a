-- ===== src/Lifecycle/Starts/Full.antt =====
-- The run of the camera's program up to its main loop (app/camera/camera_streamer/lifecycle.py).
use rpi_home_monitor.Base.{
  ℕ, suc, ◌+◌, ◌≤◌, ◌<◌, ◌≡◌, refl, sym, ap, Option, none, some, List, [], ◌∷◌, ◌++◌, if_both,
  arith,
}
use rpi_home_monitor.Lifecycle.{
  State, Look, Config, Camera, Outcome, setup, init, pairing, connecting, validating, running,
  shutdown, new_camera, enter, stop_all, wifi_timeout, do_connecting, start_all, ran, do_running,
  handle, transitions, handled, run_from, then_stop, run,
}
use rpi_home_monitor.Lifecycle.Ends.{IsDone, wait_for_shutdown-IsDone}
use rpi_home_monitor.Lifecycle.Starts.{
  IsReady, Goes, do_setup-Goes, do_pairing-Goes, do_connecting-Goes,
}

abbrev pub IsFull : List State → Option Camera → Type 0
IsFull states none = ⊥
IsFull states (some c) = c.states ≡ states

module _ (look : ℕ → Look) (ready online over : ℕ) (h : IsReady look ready online over) where
  module _ (config : Config) where
    step :
        (goal : List State) (state : State) (rest : List State) (fuel t b : ℕ) (c : Camera)
        → t ≤ b
        → b < over
        → Goes (b + 5) (enter state c) (handle look config state fuel (t + 1) (enter state c))
        → ((t' : ℕ) (c' : Camera)
            → t' ≤ b + 5
            → c'.states ≡ c.states ++ state ∷ []
            → IsFull goal (run_from look config rest fuel t' c'))
        → IsFull goal (run_from look config (state ∷ rest) fuel t c)
    unfolding run_from
    step goal state rest fuel t b c l k g again =
        if_both (IsFull goal) (look t).is_shutdown
          (λ off. let on = h.1.0 t (omega (arith, l, k)) in absurd (ground (arith, on, off)))
          (λ on. go (handle look config state fuel (t + 1) (enter state c)) g)
      where
        go :
            (o : Option Outcome)
            → Goes (b + 5) (enter state c) o
            → IsFull goal (handled look config (λ t' c'. run_from look config rest fuel t' c') o)
        go none g = g
        go (some (ok, (t', c'))) (on, (few, same)) = rw on (again t' c' few same)

    weaker : (b b' : ℕ) (c : Camera) (o : Option Outcome) → b ≤ b' → Goes b c o → Goes b' c o
    weaker b b' c none l g = g
    weaker b b' c (some (ok, (t, c'))) l (on, (few, same)) = (on, (omega (arith, few, l), same))

    last_step :
        (goal : List State) (fuel t : ℕ) (c : Camera)
        → t < over
        → over ≤ fuel
        → goal ≡ c.states ++ running ∷ []
        → IsFull goal (run_from look config (running ∷ []) (suc fuel) t c)
    unfolding run_from handle do_running
    last_step goal fuel t c l r e =
        if_both (IsFull goal) (look t).is_shutdown
          (λ off. let on = h.1.0 t l in absurd (ground (arith, on, off)))
          (λ on.
            go _ (wait_for_shutdown-IsDone look over h.1.1 fuel (t + 1 + 1) (omega (arith, r))))
      where
        go :
            (o : Option ℕ)
            → IsDone o
            → IsFull goal (
                handled look config
                  (λ t' c'. run_from look config [] (suc fuel) t' c')
                  (ran look (start_all look config (t + 1) (enter running c)) o))
        go none d = d
        go (some t') d = sym e

    -- The run through the six states.
    run_from-IsFull :
        (fuel : ℕ)
        → online < wifi_timeout
        → ready + online + 40 ≤ over
        → over ≤ fuel
        → IsFull
            (transitions look config)
            (run_from look config (transitions look config) (suc fuel) 0 new_camera)
    unfolding handle
    run_from-IsFull fuel w k r =
        step table init _ (suc fuel) 0 b new_camera (omega arith) (omega (arith, k))
          (refl, (omega arith, refl))
          (λ t1 c1 l1 e1.
            step table setup _ (suc fuel) t1 (b + 5) c1 l1 (omega (arith, k))
              (weaker (b + 7 + 2) (b + 5 + 5) (enter setup c1) _ (omega arith) (
                do_setup-Goes look ready online over h fuel (t1 + 1) (b + 7) (enter setup c1)
                  (omega (arith, k, r)) (omega (arith, l1)) (omega arith) (omega (arith, k))))
              (λ t2 c2 l2 e2.
                step table pairing _ (suc fuel) t2 (b + 10) c2 (omega (arith, l2))
                  (omega (arith, k))
                  (weaker (b + 12 + 2) (b + 10 + 5) (enter pairing c2) _ (omega arith) (
                    do_pairing-Goes look ready online over h fuel (t2 + 1) (b + 12)
                      (enter pairing c2) (omega (arith, k, r)) (omega (arith, l2)) (omega arith)
                      (omega (arith, k))))
                  (λ t3 c3 l3 e3.
                    step table connecting _ (suc fuel) t3 (b + 15) c3 (omega (arith, l3))
                      (omega (arith, k))
                      (weaker (b + 17 + 2) (b + 15 + 5) (enter connecting c3)
                        (some (do_connecting look (t3 + 1) (enter connecting c3))) (omega arith)
                        (do_connecting-Goes look ready online over h (t3 + 1) (b + 17)
                          (enter connecting c3) w (omega (arith, l3)) (omega arith)))
                      (λ t4 c4 l4 e4.
                        step table validating _ (suc fuel) t4 (b + 20) c4 (omega (arith, l4))
                          (omega (arith, k)) (refl, (omega (arith, l4), refl))
                          (λ t5 c5 l5 e5.
                            last_step table fuel t5 c5 (omega (arith, l5, k)) r
                              (rw e5 (rw e4 (rw e3 (rw e2 (rw e1 refl))))))))))
      where
        b : ℕ
        b = ready + online

        table : List State
        table = transitions look config

    -- The camera gets to its main loop: where the set-up is done and the camera paired from some look
    -- on, it has an address from a look below the 60th on, and the shutdown is not asked for before
    -- 40 looks more than both numbers together but from some look on, `run` returns with enough fuel,
    -- and it went through every state of the table, `running` included, in order, and then shut down.
    pub run-IsFull :
        (fuel : ℕ)
        → online < wifi_timeout
        → ready + online + 40 ≤ over
        → over ≤ fuel
        → IsFull (transitions look config ++ shutdown ∷ []) (run look config (suc fuel))
    unfolding run stop_all
    run-IsFull fuel w k r =
        stopped_run (run_from look config (transitions look config) (suc fuel) 0 new_camera)
          (run_from-IsFull fuel w k r)
      where
        stopped_run :
            (o : Option Camera)
            → IsFull (transitions look config) o
            → IsFull (transitions look config ++ shutdown ∷ []) (then_stop look config o)
        stopped_run none f = f
        stopped_run (some c) f = ap (λ s. s ++ shutdown ∷ []) f
