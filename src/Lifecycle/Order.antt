-- ===== src/Lifecycle/Order.antt =====
-- What the handlers of the camera's life leave alone, and the order of the states
-- (app/camera/camera_streamer/lifecycle.py).
use rpi_home_monitor.Base.{
  ℕ, suc, ◌+◌, ◌≡◌, refl, sym, ap, ◌∙◌, Bool, true, false, not, Option, none, some, List, [], ◌∷◌,
  ◌++◌, take, if_both,
}
use mathlib.Core.List.{append_assoc, append-nil}
use rpi_home_monitor.Lifecycle.{
  State, Look, Config, Camera, Outcome, setup, init, pairing, connecting, validating, running,
  shutdown, enter, wifi_timeout, wait_for_setup, set_up, do_setup, wait_for_pairing, paired,
  do_pairing, wait_for_wifi, do_connecting, wait_for_shutdown, start_all, ran, do_running, handle,
  handled, run_from,
}

-- A handler writes no state, and leaves no set-up server behind.
abbrev pub Kept : Camera → Option Outcome → Type 0
Kept c none = Unit
Kept c (some (ok, (t, c'))) =
    (c'.states ≡ c.states) × (c.setup_server ≡ false → c'.setup_server ≡ false)

module _ (look : ℕ → Look) where
  do_setup-Kept : (fuel t : ℕ) (c : Camera) → Kept c (do_setup look fuel t c)
  unfolding do_setup
  do_setup-Kept fuel t c =
      if_both (Kept c) (not (look t).needs_setup) (λ e. (refl, λ h. h))
        (λ e. set_up-Kept (wait_for_setup look fuel (t + 1)))
    where
      set_up-Kept : (o : Option ℕ) → Kept c (set_up look (record c { setup_server = true }) o)
      set_up-Kept none = tt
      set_up-Kept (some t) = (refl, λ h. refl)

  do_pairing-Kept : (fuel t : ℕ) (c : Camera) → Kept c (do_pairing look fuel t c)
  unfolding do_pairing
  do_pairing-Kept fuel t c =
      if_both (Kept c) (look t).is_paired (λ e. (refl, λ h. h))
        (λ e. paired-Kept (wait_for_pairing look fuel (t + 1)))
    where
      paired-Kept :
          (o : Option (Bool × ℕ)) → Kept c (paired look (record c { status_server = true }) o)
      paired-Kept none = tt
      paired-Kept (some (ok, t)) = (refl, λ h. h)

  do_connecting-Kept : (t : ℕ) (c : Camera) → Kept c (some (do_connecting look t c))
  unfolding do_connecting
  do_connecting-Kept t c =
      if_both (λ c'. Kept c (some (true, (t, c')))) (wait_for_wifi look wifi_timeout t).0
        (λ e. (refl, λ h. h)) (λ e. (refl, λ h. h))

  module _ (config : Config) where
    do_running-Kept : (fuel t : ℕ) (c : Camera) → Kept c (do_running look config fuel t c)
    unfolding do_running
    do_running-Kept fuel t c = ran-Kept (wait_for_shutdown look fuel (t + 1))
      where
        ran-Kept : (o : Option ℕ) → Kept c (ran look (start_all look config t c) o)
        ran-Kept none = tt
        ran-Kept (some t') = (refl, λ h. h)

    pub handle-Kept :
        (state : State) (fuel t : ℕ) (c : Camera) → Kept c (handle look config state fuel t c)
    unfolding handle
    handle-Kept init fuel t c = (refl, λ h. h)
    handle-Kept setup fuel t c = do_setup-Kept fuel t c
    handle-Kept pairing fuel t c = do_pairing-Kept fuel t c
    handle-Kept connecting fuel t c = do_connecting-Kept t c
    handle-Kept validating fuel t c = (refl, λ h. h)
    handle-Kept running fuel t c = do_running-Kept fuel t c
    handle-Kept shutdown fuel t c = (refl, λ h. h)

    -- The states that a run adds are the first ones of what is left of the table.
    abbrev pub Ordered : List State → Camera → Option Camera → Type 0
    Ordered rest c none = Unit
    Ordered rest c (some c') =
        ((n : ℕ) × (c'.states ≡ c.states ++ take n rest)) × (c'.setup_server ≡ false)

    handled-Ordered :
        (state : State) (rest : List State) (c : Camera) (again : ℕ → Camera → Option Camera)
        (o : Option Outcome)
        → c.setup_server ≡ false
        → Kept (enter state c) o
        → ((t : ℕ) (c' : Camera) → c'.setup_server ≡ false → Ordered rest c' (again t c'))
        → Ordered (state ∷ rest) c (handled look config again o)
    handled-Ordered state rest c again none off k h = tt
    handled-Ordered state rest c again (some (ok, (t, c'))) off (same, kept) h =
        if_both (Ordered (state ∷ rest) c) ok (λ on. longer (again t c') (h t c' (kept off)))
          (λ over. ((1, same), kept off))
      where
        longer : (o : Option Camera) → Ordered rest c' o → Ordered (state ∷ rest) c o
        longer none r = tt
        longer (some c'') ((n, e), quiet) = (
          (
            suc n,
            e ∙ ap (λ s. s ++ take n rest) same ∙ append_assoc c.states (state ∷ []) (take n rest),
          ),
          quiet,
        )

    pub run_from-Ordered :
        (rest : List State) (fuel t : ℕ) (c : Camera)
        → c.setup_server ≡ false
        → Ordered rest c (run_from look config rest fuel t c)
    unfolding run_from
    run_from-Ordered [] fuel t c off = ((0, sym (append-nil c.states)), off)
    run_from-Ordered (state ∷ rest) fuel t c off =
        if_both (Ordered (state ∷ rest) c) (look t).is_shutdown
          (λ stop. ((0, sym (append-nil c.states)), off))
          (λ on.
            handled-Ordered state rest c (λ t' c'. run_from look config rest fuel t' c') _ off
              (handle-Kept state fuel (t + 1) (enter state c))
              (λ t' c' quiet. run_from-Ordered rest fuel t' c' quiet))
