-- ===== src/PairingService.antt =====
-- Pairing of cameras (app/server/monitor/services/pairing_service.py) over the camera rows of the
-- store (app/server/monitor/store.py) and the pinned status certificates
-- (app/server/monitor/services/camera_trust.py). Certificate files are dictionaries by camera.
-- What openssl and the random generators return are arguments: the outcome of the key and
-- certificate generation, the PIN, the secret. Parameters say which serial a certificate has, and
-- what the ssl module makes of a status certificate.
mod Tests
pub mod Guesses
pub mod Revoked
use Prim.Native.String.{◌++◌ as concat}
use rpi_home_monitor.Base.{
  ℕ, ◌+◌, ◌-◌, String, Bool, true, false, not, ◌||◌, ◌⊎◌, inl, inr, Option, none, some, List, [],
  ◌∷◌, ◌++◌, map, Dict, get, put, remove, ltb, str_eq, if◌then◌else◌,
}

pub record Camera : Type 0 where
  pub status : String
  pub ip : String
  pub rtsp_url : String
  pub paired_at : String
  pub cert_serial : String
  pub pairing_secret : String
  pub status_cert_fingerprint : String
  pub config_sync : String

pub record CertData : Type 0 where
  pub cert : String
  pub key : String
  pub serial : String

pub record Pending : Type 0 where
  pub pin : String
  pub expires_at : ℕ
  pub attempts : ℕ
  pub cert_data : CertData

pub data AuditEvent : Type 0 where
  pairing_initiated secret_rotated camera_paired cert_revoked too_many_pins : String → AuditEvent
  invalid_pin_tried : String → ℕ → AuditEvent

pub record Service : Type 0 where
  pub cameras : Dict Camera
  pub ca_cert : Option String
  pub cert_files : Dict String
  pub key_files : Dict String
  pub revoked_files : Dict String
  pub pinned : Dict String
  pub pending : Dict Pending
  pub revoked_serials : List String
  pub audit : List AuditEvent

-- What a caller is told with a status code other than 200.
pub data Refusal : Type 0 where
  camera_not_found wrong_state no_pairing expired too_many_attempts no_ca : Refusal
  generation_failed : String → Refusal
  invalid_pin : ℕ → Refusal

abbrev pub status_code : Refusal → ℕ
status_code camera_not_found = 404
status_code wrong_state = 400
status_code no_pairing = 404
status_code expired = 410
status_code too_many_attempts = 429
status_code no_ca = 500
status_code (generation_failed e) = 500
status_code (invalid_pin n) = 403

pub record Paired : Type 0 where
  pub client_cert : String
  pub client_key : String
  pub ca_cert : String
  pub pairing_secret : String

abbrev pub pin_expiry_seconds : ℕ
pin_expiry_seconds = 300

abbrev pub pin_max_attempts : ℕ
pin_max_attempts = 3

abbrev pub log_audit : AuditEvent → Service → Service
log_audit e s = record s { audit = s.audit ++ e ∷ [] }

-- What the runs of openssl come to: an error, with what the files of the key and of the certificate
-- hold where a run wrote them before, or all that they make.
pub data Outcome : Type 0 where
  broken : String → Option String → Option String → Outcome
  made : CertData → Outcome

abbrev pub written : String → Option String → Dict String → Dict String
written k none files = files
written k (some content) files = put k content files

-- `_generate_client_cert`: the files of the camera are written, and the CA must be there.
abbrev pub generated : String → Outcome → Service → Option String → (String ⊎ CertData) × Service
generated k outcome s none = (inl "CA key or certificate not found", s)
generated k (broken e key cert) s (some ca) = (
  inl e,
  record s { cert_files = written k cert s.cert_files; key_files = written k key s.key_files },
)
generated k (made data_of) s (some ca) = (
  inr data_of,
  record s {
    cert_files = put k data_of.cert s.cert_files;
    key_files = put k data_of.key s.key_files;
  },
)

unfoldable pub generate_client_cert : String → Outcome → Service → (String ⊎ CertData) × Service
generate_client_cert k outcome s = generated k outcome s s.ca_cert

abbrev pub begin :
    String → String → ℕ → (String ⊎ CertData) × Service → (Refusal ⊎ String) × Service
begin k pin now (inl e, s) = (inl (generation_failed e), s)
begin k pin now (inr cert_data, s) = (
  inr pin,
  log_audit (pairing_initiated k) (record s {
    pending =
        put k
          (record {
            pin = pin;
            expires_at = now + pin_expiry_seconds;
            attempts = 0;
            cert_data = cert_data;
          })
          s.pending;
  }),
)

abbrev pub initiate_camera :
    String → Outcome → String → ℕ → Service → Option Camera → (Refusal ⊎ String) × Service
initiate_camera k outcome pin now s none = (inl camera_not_found, s)
initiate_camera k outcome pin now s (some camera) =
    if str_eq camera.status "pending" || str_eq camera.status "offline"
    then begin k pin now (generate_client_cert k outcome s)
    else (inl wrong_state, s)

unfoldable pub initiate_pairing :
    String → Outcome → String → ℕ → Service → (Refusal ⊎ String) × Service
initiate_pairing k outcome pin now s = initiate_camera k outcome pin now s (get k s.cameras)

-- A call of `exchange_certs`, with the secret and the time stamp that it would draw.
pub record Exchange : Type 0 where
  pub pin : String
  pub camera_id : String
  pub ip : String
  pub status_cert : String
  pub at : ℕ
  pub secret : String
  pub stamp : String

module _ (read_pem : String → Option (String × String)) where
  abbrev pub or_old : String → String → String
  or_old new old = if str_eq new "" then old else new

  -- The status certificate that is pinned, if any, and its fingerprint.
  abbrev pub pin_read : String → Dict String → Option (String × String) → Dict String × String
  pin_read k pinned none = (pinned, "")
  pin_read k pinned (some (pem, fingerprint)) = (put k pem pinned, fingerprint)

  unfoldable pub pin_status_cert : String → String → Dict String → Dict String × String
  pin_status_cert k status_cert pinned =
      let unpinned = remove k pinned in
      if str_eq status_cert "" then (unpinned, "") else pin_read k unpinned (read_pem status_cert)

  abbrev pub paired_camera : Exchange → CertData → String → Camera → Camera
  paired_camera x cert_data fingerprint camera = record {
    status = "online";
    ip = or_old x.ip camera.ip;
    rtsp_url =
        if str_eq camera.rtsp_url ""
        then concat "rtsp://127.0.0.1:8554/" x.camera_id
        else camera.rtsp_url;
    paired_at = or_old camera.paired_at x.stamp;
    cert_serial = cert_data.serial;
    pairing_secret = x.secret;
    status_cert_fingerprint = fingerprint;
    config_sync = if str_eq camera.config_sync "trust_lost" then "pending" else camera.config_sync;
  }

  abbrev pub finalize :
      Exchange → CertData → Service → String → Option Camera → (Refusal ⊎ Paired) × Service
  finalize x cert_data s ca none = (inl camera_not_found, s)
  finalize x cert_data s ca (some camera) =
      let (pinned, fingerprint) = pin_status_cert x.camera_id x.status_cert s.pinned in
      (
        inr (record {
          client_cert = cert_data.cert;
          client_key = cert_data.key;
          ca_cert = ca;
          pairing_secret = x.secret;
        }),
        log_audit (camera_paired x.camera_id) (
            log_audit (secret_rotated x.camera_id) (record s {
              cameras = put x.camera_id (paired_camera x cert_data fingerprint camera) s.cameras;
              pinned = pinned;
              pending = remove x.camera_id s.pending;
            })),
      )

  abbrev pub with_ca : Exchange → CertData → Service → Option String → (Refusal ⊎ Paired) × Service
  with_ca x cert_data s none = (inl no_ca, s)
  with_ca x cert_data s (some ca) = finalize x cert_data s ca (get x.camera_id s.cameras)

  -- The check of the PIN, once the attempt is counted.
  abbrev pub validate_pin : Exchange → Pending → Service → (Refusal ⊎ Paired) × Service
  validate_pin x p s =
      if not (str_eq x.pin p.pin)
      then (let remaining = pin_max_attempts - p.attempts in
          (inl (invalid_pin remaining), log_audit (invalid_pin_tried x.camera_id remaining) s))
      else with_ca x p.cert_data s s.ca_cert

  abbrev pub exchange_pending : Exchange → Service → Option Pending → (Refusal ⊎ Paired) × Service
  exchange_pending x s none = (inl no_pairing, s)
  exchange_pending x s (some p) =
      let cancelled = record s { pending = remove x.camera_id s.pending } in
      let p' = record p { attempts = p.attempts + 1 } in
      if ltb p.expires_at x.at
      then (inl expired, cancelled)
      else (if ltb pin_max_attempts p'.attempts
          then (inl too_many_attempts, log_audit (too_many_pins x.camera_id) cancelled)
          else validate_pin x p' (record s { pending = put x.camera_id p' s.pending }))

  unfoldable pub exchange_certs : Exchange → Service → (Refusal ⊎ Paired) × Service
  exchange_certs x s = exchange_pending x s (get x.camera_id s.pending)

  unfoldable pub exchange_all : List Exchange → Service → Service
  exchange_all [] s = s
  exchange_all (x ∷ xs) s = exchange_all xs (exchange_certs x s).1

-- `unpair`: the certificate file moves to the revoked ones.
abbrev pub revoke_cert : String → Camera → Service → Option String → Service
revoke_cert k camera s none = s
revoke_cert k camera s (some cert) = record s {
  cert_files = remove k s.cert_files;
  revoked_files = put k cert s.revoked_files;
  revoked_serials =
      if str_eq camera.cert_serial ""
      then s.revoked_serials
      else camera.cert_serial ∷ s.revoked_serials;
}

abbrev pub unpaired_camera : Camera → Camera
unpaired_camera camera = record camera {
  status = "pending";
  cert_serial = "";
  pairing_secret = "";
  status_cert_fingerprint = "";
  config_sync = "unknown";
}

abbrev pub unpair_camera : String → Service → Option Camera → Option Refusal × Service
unpair_camera k s none = (some camera_not_found, s)
unpair_camera k s (some camera) =
    let s' = revoke_cert k camera s (get k s.cert_files) in
    (
      none,
      log_audit (cert_revoked k) (record s' {
        key_files = remove k s'.key_files;
        cameras = put k (unpaired_camera camera) s'.cameras;
        pinned = remove k s'.pinned;
        pending = remove k s'.pending;
      }),
    )

unfoldable pub unpair : String → Service → Option Refusal × Service
unpair k s = unpair_camera k s (get k s.cameras)

unfoldable pub is_member : String → List String → Bool
is_member serial [] = false
is_member serial (x ∷ xs) = str_eq x serial || is_member serial xs

unfoldable pub is_cert_revoked : String → Service → Bool
is_cert_revoked serial s = is_member serial s.revoked_serials

abbrev pub shown : ℕ → String → Service → Option Pending → Option (String × (ℕ × ℕ)) × Service
shown now k s none = (none, s)
shown now k s (some p) =
    if ltb p.expires_at now
    then (none, record s { pending = remove k s.pending })
    else (some (p.pin, (p.expires_at - now, p.attempts)), s)

unfoldable pub get_pending_pairing : ℕ → String → Service → Option (String × (ℕ × ℕ)) × Service
get_pending_pairing now k s = shown now k s (get k s.pending)

module _ (serial_of : String → String) where
  abbrev pub serials : Dict String → List String
  serials [] = []
  serials ((k, cert) ∷ files) = serial_of cert ∷ serials files

  -- A new service over the same files: `__init__` with `_load_revoked_serials`.
  unfoldable pub restart : Service → Service
  restart s = record s { pending = []; revoked_serials = serials s.revoked_files }
