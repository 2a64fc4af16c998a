-- ===== src/PairingService/Revoked.antt =====
-- When certificates are handed out, and what becomes of them when a camera is unpaired
-- (app/server/monitor/services/pairing_service.py).
use rpi_home_monitor.Base.{
  ◌+◌, ◌≤◌, ◌<◌, String, ◌≡◌, ◌≢◌, refl, sym, ◌∙◌, Bool, true, false, ◌⊎◌, inl, inr, Option, none,
  some, List, [], ◌∷◌, Dict, get, put, get_stored, get_removed, has, Distinct, All, Bool-cases, ltb,
  str_eq, eq_iff, if◌then◌else◌, arith,
}
use mathlib.Core.Path.{subst}
use mathlib.Core.Bool.{true≢false}
use rpi_home_monitor.PairingService.{
  Camera, Pending, Service, Refusal, Paired, Exchange, pin_max_attempts, finalize, with_ca,
  exchange_pending, exchange_certs, unpair, unpaired_camera, revoke_cert, is_member,
  is_cert_revoked, serials, restart,
}
use rpi_home_monitor.PairingService.Guesses.{IsRefused}

module _ (read_pem : String → Option (String × String)) where
  -- What certificates in the answer say of the pairing that they come from, and of the state after.
  abbrev Earned : Exchange → Pending → (Refusal ⊎ Paired) × Service → Type 0
  Earned x p (inl e, s) = Unit
  Earned x p (inr r, s) =
      (x.pin ≡ p.pin)
      × (x.at ≤ p.expires_at)
      × (p.attempts < pin_max_attempts)
      × (get x.camera_id s.pending ≡ none)
      × (r.pairing_secret ≡ x.secret)

  finalize-Earned :
      (x : Exchange) (p : Pending) (s : Service) (ca : String) (o : Option Camera)
      → x.pin ≡ p.pin
      → x.at ≤ p.expires_at
      → p.attempts < pin_max_attempts
      → Earned x p (finalize read_pem x p.cert_data s ca o)
  finalize-Earned x p s ca none right timely left = tt
  finalize-Earned x p s ca (some camera) right timely left =
      (right, timely, left, get_removed x.camera_id s.pending, refl)

  with_ca-Earned :
      (x : Exchange) (p : Pending) (s : Service) (o : Option String)
      → x.pin ≡ p.pin
      → x.at ≤ p.expires_at
      → p.attempts < pin_max_attempts
      → Earned x p (with_ca read_pem x p.cert_data s o)
  with_ca-Earned x p s none right timely left = tt
  with_ca-Earned x p s (some ca) right timely left =
      finalize-Earned x p s ca (get x.camera_id s.cameras) right timely left

  exchange-Earned :
      (x : Exchange) (p : Pending) (s : Service)
      → Earned x p (exchange_pending read_pem x s (some p))
  exchange-Earned x p s = elim (Bool-cases (ltb p.expires_at x.at)) [
    | inl late ↦ rw late tt
    | inr timely ↦ rw timely (elim (Bool-cases (ltb pin_max_attempts (p.attempts + 1))) [
      | inl spent ↦ rw spent tt
      | inr left ↦ rw left (elim (Bool-cases (str_eq x.pin p.pin)) [
        | inl right ↦ rw right (
            with_ca-Earned x p _ s.ca_cert ((eq_iff x.pin p.pin).0 right) (ground arith)
              (ground arith))
        | inr wrong ↦ rw wrong tt
      ])
    ])
  ]

  earned :
      (x : Exchange) (p : Pending) (a : (Refusal ⊎ Paired) × Service) (r : Paired)
      → Earned x p a
      → a.0 ≡ inr r
      → (x.pin ≡ p.pin)
        × (x.at ≤ p.expires_at)
        × (p.attempts < pin_max_attempts)
        × (get x.camera_id a.1.pending ≡ none)
  earned x p (inl refusal, s) r h e = cc
  earned x p (inr r', s) r h e = (h.0, h.1, h.2, h.3)

  -- Certificates only for the right PIN: when a pairing of the camera is in progress and
  -- `exchange_certs` answers with certificates, the PIN is that pairing's, it has not expired, fewer
  -- than three PINs were tried before, and the pairing is over.
  pub exchange_earned :
      (x : Exchange) (p : Pending) (s : Service) (r : Paired)
      → get x.camera_id s.pending ≡ some p
      → (exchange_certs read_pem x s).0 ≡ inr r
      → (x.pin ≡ p.pin)
        × (x.at ≤ p.expires_at)
        × (p.attempts < pin_max_attempts)
        × (get x.camera_id (exchange_certs read_pem x s).1.pending ≡ none)
  unfolding exchange_certs
  exchange_earned x p s r found e =
      earned x p (exchange_pending read_pem x s (get x.camera_id s.pending)) r
        (subst (λ o. Earned x p (exchange_pending read_pem x s o)) (sym found)
          (exchange-Earned x p s))
        e

  -- Unpairing takes the trust away: directly after `unpair` of a known camera there is a row of it, which
  -- is pending, with no secret, no serial and no fingerprint, no status certificate is pinned for it,
  -- and `exchange_certs` for it gets no certificates.
  pub unpair-exchange :
      (k : String) (s : Service) (camera : Camera) (x : Exchange)
      → get k s.cameras ≡ some camera
      → x.camera_id ≡ k
      → ((row : Camera) × (get k (unpair k s).1.cameras ≡ some row)
          × (row.status ≡ "pending")
          × (row.pairing_secret ≡ "")
          × (row.cert_serial ≡ "")
          × (row.status_cert_fingerprint ≡ ""))
        × (get k (unpair k s).1.pinned ≡ none)
        × IsRefused (exchange_certs read_pem x (unpair k s).1).0
  unfolding unpair exchange_certs
  unpair-exchange k s camera x found same = rw found (
    (
      unpaired_camera camera,
      get_stored k (unpaired_camera camera) (revoke_cert k camera s (get k s.cert_files)).cameras,
      refl,
      refl,
      refl,
      refl,
    ),
    get_removed k (revoke_cert k camera s (get k s.cert_files)).pinned,
    rw same (rw (get_removed k (revoke_cert k camera s (get k s.cert_files)).pending) tt),
  )

module _ (serial_of : String → String) where
  -- The condition on one revoked file: it is of camera `k` or has another serial.
  abbrev pub Elsewhere : String → String → String × String → Type 0
  Elsewhere k serial f = f.0 ≢ k → serial_of f.1 ≢ serial

  other_serial :
      (cert serial : String) → serial_of cert ≢ serial → str_eq (serial_of cert) serial ≡ false
  other_serial cert serial n = elim (Bool-cases (str_eq (serial_of cert) serial)) [
    | inl same ↦ absurd (n ((eq_iff (serial_of cert) serial).0 same))
    | inr other ↦ other
  ]

  serials_absent :
      (k serial : String) (files : Dict String)
      → has k files ≡ false
      → All (Elsewhere k serial) files
      → is_member serial (serials serial_of files) ≡ false
  unfolding has is_member
  serials_absent k serial [] a h = refl
  serials_absent k serial ((j, cert) ∷ files) a h = elim (Bool-cases (str_eq j k)) [
    | inl same ↦ absurd (ground arith)
    | inr other ↦
        rw (other_serial cert serial (h.0 (λ e. true≢false (sym ((eq_iff j k).1 e) ∙ other))))
          (serials_absent k serial files (ground arith) h.1)
  ]

  serials_others :
      (k cert serial : String) (files : Dict String)
      → Distinct files
      → serial_of cert ≢ serial
      → All (Elsewhere k serial) files
      → is_member serial (serials serial_of (put k cert files)) ≡ false
  unfolding put is_member
  serials_others k cert serial [] d n h = rw (other_serial cert serial n) refl
  serials_others k cert serial ((j, old) ∷ files) d n h = elim (Bool-cases (str_eq j k)) [
    | inl same ↦ rw same (
        rw (other_serial cert serial n)
          (serials_absent k serial files (rw (← (eq_iff j k).0 same) d.0) h.1))
    | inr other ↦ rw other (
        rw (other_serial old serial (h.0 (λ e. true≢false (sym ((eq_iff j k).1 e) ∙ other))))
          (serials_others k cert serial files d.1 n h.1))
  ]

  still_member :
      (b : Bool) (serial x : String) (xs : List String)
      → is_member serial xs ≡ true
      → is_member serial (if b then xs else x ∷ xs) ≡ true
  unfolding is_member
  still_member true serial x xs h = h
  still_member false serial x xs h = ground (arith, h)

  -- A revocation may be forgotten: when a serial is revoked and every revoked certificate on file
  -- that has it stands under camera `k`, an `unpair` of that camera with a newer certificate, of
  -- another serial, keeps the old serial revoked, but a restart after it does not.
  pub unpair-restart :
      (k cert serial : String) (s : Service) (camera : Camera)
      → get k s.cameras ≡ some camera
      → get k s.cert_files ≡ some cert
      → serial_of cert ≢ serial
      → Distinct s.revoked_files
      → All (Elsewhere k serial) s.revoked_files
      → is_cert_revoked serial s ≡ true
      → (is_cert_revoked serial (unpair k s).1 ≡ true)
        × (is_cert_revoked serial (restart serial_of (unpair k s).1) ≡ false)
  unfolding unpair is_cert_revoked restart
  unpair-restart k cert serial s camera found file newer d h revoked = rw found (
      rw file (
        still_member (str_eq camera.cert_serial "") serial camera.cert_serial s.revoked_serials
            revoked,
        serials_others k cert serial s.revoked_files d newer h,
      ))
