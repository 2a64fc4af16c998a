-- ===== src/PairingService/Guesses.antt =====
-- How many PINs can be tried in one pairing (app/server/monitor/services/pairing_service.py).
use rpi_home_monitor.Base.{
  ℕ, ◌+◌, ◌≤◌, String, ◌≡◌, ◌≢◌, refl, sym, ◌∙◌, true, false, ◌⊎◌, inl, inr, Option, none, some,
  List, [], ◌∷◌, get, get-put, get-remove, get_stored, get_removed, length, keep, All, Bool-cases,
  ltb, lt→ltb, str_eq, eq_iff, arith,
}
use mathlib.Core.Path.{subst}
use rpi_home_monitor.PairingService.{
  Camera, CertData, Pending, Service, Refusal, Paired, Exchange, pin_max_attempts, finalize,
  with_ca, validate_pin, exchange_pending, exchange_certs, exchange_all,
}

-- The pairing in progress, if any, has this PIN, and so many attempts are used up.
abbrev pub TriedPending : String → ℕ → Option Pending → Type 0
TriedPending pin n none = Unit
TriedPending pin n (some p) = (p.pin ≡ pin) × (n ≤ p.attempts)

abbrev pub Tried : String → String → ℕ → Service → Type 0
Tried k pin n s = TriedPending pin n (get k s.pending)

-- Every call for this camera brings another PIN.
abbrev pub AllWrong : String → String → List Exchange → Type 0
AllWrong k pin xs = All (λ x. x.camera_id ≡ k → x.pin ≢ pin) xs

unfoldable pub tries : String → List Exchange → ℕ
tries k xs = length (keep (λ x. str_eq x.camera_id k) xs)

tries_none : (k : String) → tries k [] ≡ 0
unfolding tries keep
tries_none k = refl

tries_hit :
    (k : String) (x : Exchange) (xs : List Exchange)
    → str_eq x.camera_id k ≡ true
    → tries k (x ∷ xs) ≡ tries k xs + 1
unfolding tries keep
tries_hit k x xs h = rw h (omega arith)

tries_other :
    (k : String) (x : Exchange) (xs : List Exchange)
    → str_eq x.camera_id k ≡ false
    → tries k (x ∷ xs) ≡ tries k xs
unfolding tries keep
tries_other k x xs h = rw h refl

fewer :
    (pin : String) (n m : ℕ) (o : Option Pending)
    → m ≤ n
    → TriedPending pin n o
    → TriedPending pin m o
fewer pin n m none b h = tt
fewer pin n m (some p) b h = (h.0, omega (arith, h.1))

abbrev pub IsRefused : Refusal ⊎ Paired → Type 0
IsRefused (inl e) = Unit
IsRefused (inr r) = ⊥

module _ (read_pem : String → Option (String × String)) where
  -- The pairing of another camera is left alone.
  finalize_other :
      (k : String) (x : Exchange) (c : CertData) (s : Service) (ca : String) (o : Option Camera)
      → str_eq x.camera_id k ≡ false
      → get k (finalize read_pem x c s ca o).1.pending ≡ get k s.pending
  finalize_other k x c s ca none h = refl
  finalize_other k x c s ca (some camera) h = get-remove x.camera_id k s.pending ∙ rw h refl

  with_ca_other :
      (k : String) (x : Exchange) (c : CertData) (s : Service) (o : Option String)
      → str_eq x.camera_id k ≡ false
      → get k (with_ca read_pem x c s o).1.pending ≡ get k s.pending
  with_ca_other k x c s none h = refl
  with_ca_other k x c s (some ca) h = finalize_other k x c s ca (get x.camera_id s.cameras) h

  validate_other :
      (k : String) (x : Exchange) (p : Pending) (s : Service)
      → str_eq x.camera_id k ≡ false
      → get k (validate_pin read_pem x p s).1.pending ≡ get k s.pending
  validate_other k x p s h = elim (Bool-cases (str_eq x.pin p.pin)) [
    | inl right ↦ rw right (with_ca_other k x p.cert_data s s.ca_cert h)
    | inr wrong ↦ rw wrong refl
  ]

  exchange_other :
      (k : String) (x : Exchange) (s : Service) (o : Option Pending)
      → str_eq x.camera_id k ≡ false
      → get k (exchange_pending read_pem x s o).1.pending ≡ get k s.pending
  exchange_other k x s none h = refl
  exchange_other k x s (some p) h = elim (Bool-cases (ltb p.expires_at x.at)) [
    | inl late ↦ rw late (get-remove x.camera_id k s.pending ∙ rw h refl)
    | inr timely ↦ rw timely (elim (Bool-cases (ltb pin_max_attempts (p.attempts + 1))) [
      | inl spent ↦ rw spent (get-remove x.camera_id k s.pending ∙ rw h refl)
      | inr left ↦ rw left (
          validate_other k x (record p { attempts = p.attempts + 1 }) _ h
          ∙ get-put x.camera_id k _ s.pending
          ∙ rw h refl)
    ])
  ]

  -- A wrong PIN for this camera uses up an attempt or ends the pairing.
  exchange_wrong :
      (x : Exchange) (pin : String) (n : ℕ) (s : Service) (o : Option Pending)
      → x.pin ≢ pin
      → get x.camera_id s.pending ≡ o
      → TriedPending pin n o
      → Tried x.camera_id pin (n + 1) (exchange_pending read_pem x s o).1
  exchange_wrong x pin n s none w e h = rw e tt
  exchange_wrong x pin n s (some p) w e h = elim (Bool-cases (ltb p.expires_at x.at)) [
    | inl late ↦ rw late (rw (get_removed x.camera_id s.pending) tt)
    | inr timely ↦ rw timely (elim (Bool-cases (ltb pin_max_attempts (p.attempts + 1))) [
      | inl spent ↦ rw spent (rw (get_removed x.camera_id s.pending) tt)
      | inr left ↦ rw left (
          rw differs (
            rw (get_stored x.camera_id (record p { attempts = p.attempts + 1 }) s.pending)
              (h.0, omega (arith, h.1))))
    ])
  ]
    where
      differs : str_eq x.pin p.pin ≡ false
      differs = elim (Bool-cases (str_eq x.pin p.pin)) [
        | inl same ↦ absurd (w ((eq_iff x.pin p.pin).0 same ∙ h.0))
        | inr other ↦ other
      ]

  exchange_all-Tried :
      (k pin : String) (xs : List Exchange) (n m : ℕ) (s : Service)
      → AllWrong k pin xs
      → m ≤ n + tries k xs
      → Tried k pin n s
      → Tried k pin m (exchange_all read_pem xs s)
  unfolding exchange_all exchange_certs
  exchange_all-Tried k pin [] n m s w b h = fewer pin n m _ (omega (arith, b, tries_none k)) h
  exchange_all-Tried k pin (x ∷ xs) n m s w b h = elim (Bool-cases (str_eq x.camera_id k)) [
    | inl same ↦
        let e = (eq_iff x.camera_id k).0 same in
        exchange_all-Tried k pin xs (n + 1) m _ w.1 (omega (arith, b, tries_hit k x xs same)) (
          subst
            (λ j. Tried j pin (n + 1) (exchange_pending read_pem x s (get x.camera_id s.pending)).1)
            e
            (exchange_wrong x pin n s (get x.camera_id s.pending) (w.0 e) refl
              (subst (λ j. Tried j pin n s) (sym e) h)))
    | inr other ↦
        exchange_all-Tried k pin xs n m _ w.1 (omega (arith, b, tries_other k x xs other)) (
          subst (TriedPending pin n) (sym (exchange_other k x s (get x.camera_id s.pending) other))
            h)
  ]

  spent_fails :
      (x : Exchange) (pin : String) (s : Service) (o : Option Pending)
      → TriedPending pin pin_max_attempts o
      → IsRefused (exchange_pending read_pem x s o).0
  spent_fails x pin s none h = tt
  spent_fails x pin s (some p) h = elim (Bool-cases (ltb p.expires_at x.at)) [
    | inl late ↦ rw late tt
    | inr timely ↦ rw timely (rw (lt→ltb pin_max_attempts (p.attempts + 1) (omega (arith, h.1))) tt)
  ]

  -- Three guesses at most: when a pairing of a camera is in progress and three or more calls of
  -- `exchange_certs` for it, among any calls for other cameras, bring another PIN and none the right
  -- one, then the next call for that camera gets no certificates, whatever its PIN.
  pub exchange_limit :
      (k : String) (p : Pending) (xs : List Exchange) (x : Exchange) (s : Service)
      → get k s.pending ≡ some p
      → AllWrong k p.pin xs
      → pin_max_attempts ≤ tries k xs
      → x.camera_id ≡ k
      → IsRefused (exchange_certs read_pem x (exchange_all read_pem xs s)).0
  unfolding exchange_certs
  exchange_limit k p xs x s e w enough c = spent_fails x p.pin _ _ (
      subst (λ j. Tried j p.pin pin_max_attempts (exchange_all read_pem xs s)) (sym c)
        (exchange_all-Tried k p.pin xs 0 pin_max_attempts s w (omega (arith, enough))
          (subst (TriedPending p.pin 0) (sym e) (refl, omega arith))))
