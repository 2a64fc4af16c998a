-- ===== src/PairingService/Tests.antt =====
-- The pairing of one camera, and the theorems of the pairing service at it.
use rpi_home_monitor.Base.{
  ◌≤◌, ◌<◌, String, ◌≡◌, ◌≢◌, refl, true, false, Option, none, some, List, [], ◌∷◌, get, put,
  remove, has, keep, arith, eq_iff, str_eq, if◌then◌else◌,
}
use rpi_home_monitor.PairingService.{
  Camera, CertData, made, Pending, Service, Paired, Exchange, generate_client_cert,
  initiate_pairing, pin_max_attempts, pin_status_cert, exchange_certs, exchange_all, unpair,
  is_member, is_cert_revoked, restart, get_pending_pairing,
}
use rpi_home_monitor.PairingService.Guesses.{tries, IsRefused, exchange_limit}
use rpi_home_monitor.PairingService.Revoked.{exchange_earned, unpair-exchange, unpair-restart}

program : Unit {0}
unfolding get put remove has keep tries generate_client_cert initiate_pairing pin_status_cert
    exchange_certs exchange_all unpair is_member is_cert_revoked restart get_pending_pairing
program = tt

abbrev read_pem : String → Option (String × String)
read_pem pem = if str_eq pem "PEM" then some ("PEM\n", "ab12") else none

abbrev cert_data : CertData
cert_data = record { cert = "cert2"; key = "key2"; serial = "S2" }

abbrev blank : Camera
blank = record {
  status = "pending";
  ip = "";
  rtsp_url = "";
  paired_at = "";
  cert_serial = "";
  pairing_secret = "";
  status_cert_fingerprint = "";
  config_sync = "unknown";
}

-- One camera, whose first certificate was revoked.
abbrev fresh : Service
fresh = record {
  cameras = ("cam", blank) ∷ [];
  ca_cert = some "CA";
  cert_files = [];
  key_files = [];
  revoked_files = ("cam", "cert1") ∷ [];
  pinned = [];
  pending = [];
  revoked_serials = "S1" ∷ [];
  audit = [];
}

abbrev started : Service
started = (initiate_pairing "cam" (made cert_data) "123456" 100 fresh).1

abbrev waiting : Pending
waiting = record { pin = "123456"; expires_at = 400; attempts = 0; cert_data = cert_data }

abbrev guess : String → Exchange
guess pin = record {
  pin = pin;
  camera_id = "cam";
  ip = "10.0.0.5";
  status_cert = "PEM";
  at = 200;
  secret = "00ff";
  stamp = "T";
}

abbrev right_pin : String
right_pin = "123456"

abbrev wrong_pin : String
wrong_pin = "000000"

differ : wrong_pin ≢ right_pin
differ e = let same = (eq_iff wrong_pin right_pin).1 e in cc

abbrev guesses : List Exchange
guesses = guess "000000" ∷ guess "000000" ∷ guess "000000" ∷ []

exchange_limit_example :
    IsRefused (exchange_certs read_pem (guess "123456") (exchange_all read_pem guesses started)).0
exchange_limit_example =
    exchange_limit read_pem "cam" waiting guesses (guess "123456") started (unfold program in refl)
      ((λ e. differ), ((λ e. differ), ((λ e. differ), tt))) (unfold program in omega arith) refl

abbrev handed : Paired
handed = record {
  client_cert = "cert2";
  client_key = "key2";
  ca_cert = "CA";
  pairing_secret = "00ff";
}

exchange_earned_example :
    (right_pin ≡ right_pin)
    × (200 ≤ 400)
    × (0 < pin_max_attempts)
    × (get "cam" (exchange_certs read_pem (guess "123456") started).1.pending ≡ none)
exchange_earned_example =
    exchange_earned read_pem (guess "123456") waiting started handed (unfold program in refl)
      (unfold program in refl)

unpair-exchange_example :
    ((row : Camera) × (get "cam" (unpair "cam" started).1.cameras ≡ some row)
      × (row.status ≡ "pending")
      × (row.pairing_secret ≡ "")
      × (row.cert_serial ≡ "")
      × (row.status_cert_fingerprint ≡ ""))
    × (get "cam" (unpair "cam" started).1.pinned ≡ none)
    × IsRefused (exchange_certs read_pem (guess "123456") (unpair "cam" started).1).0
unpair-exchange_example =
    unpair-exchange read_pem "cam" started blank (guess "123456") (unfold program in refl) refl

abbrev serial_of : String → String
serial_of cert = if str_eq cert "cert1" then "S1" else "S2"

abbrev first_serial : String
first_serial = "S1"

abbrev second_serial : String
second_serial = "S2"

serials_differ : second_serial ≢ first_serial
serials_differ e = let same = (eq_iff second_serial first_serial).1 e in cc

unpair-restart_example :
    (is_cert_revoked "S1" (unpair "cam" started).1 ≡ true)
    × (is_cert_revoked "S1" (restart serial_of (unpair "cam" started).1) ≡ false)
unpair-restart_example =
    unpair-restart serial_of "cam" "cert2" "S1" started blank (unfold program in refl)
      (unfold program in refl) serials_differ (unfold program in (refl, tt))
      (unfold program in ((λ n. absurd (n refl)), tt)) (unfold program in refl)
