-- ===== src/Lib.antt =====
-- Verification of rpi-home-monitor: a server that watches Raspberry Pi cameras in a home
-- (app/server/monitor), the program on each camera (app/camera/camera_streamer), and a version
-- policy that both share (app/shared). The development models the parts that decide something:
-- who may log in and for how long, which camera is trusted, which update may be installed, when
-- there is motion and when it is recorded, who may see a shared link, where a webhook connects,
-- when the camera program starts and ends.
--
-- Base passes on the library names and the helpers that the parts share: Boolean tests, lists
-- over native numbers, Python dictionaries as association lists, and texts as lists of character
-- codes.
--
--   ReplayGuard       app/server/monitor/services/hmac_replay_guard.py: the signed requests that a
--                     camera sent before. The state file, its pruning, `record_and_check`.
--   LoginLimiter      app/server/monitor/services/login_rate_limiter.py: failed log-ins by address in a
--                     sliding window. The state file, `check`, `record`.
--   Sessions          app/server/monitor/services/session_service.py with the session rows of
--                     app/server/monitor/store.py: `issue`, `get`, `touch`, `revoke`, `discard`,
--                     `expire`, `revoke_others`, the cache in front of the rows.
--   Accounts          app/server/monitor/services/user_service.py and app/server/monitor/password_policy.py, with the
--                     user rows of app/server/monitor/store.py: creating and deleting an account, the
--                     change of a password, the lock after failures (app/server/monitor/auth.py).
--   Login             app/server/monitor/auth.py and the second step in
--                     app/server/monitor/api/auth_totp.py: the log-in handler, the
--                     cookie, the guards of the endpoints, the log-out.
--   Login.Challenge   app/server/monitor/services/totp_service.py: the challenge token between the two
--                     steps, as a text.
--   TotpService       app/server/monitor/services/totp_service.py, and the last accepted step that
--                     app/server/monitor/api/auth_totp.py keeps: one-time passwords, recovery codes.
--   PairingService    app/server/monitor/services/pairing_service.py with camera_trust.py beside it: the
--                     PIN, its attempts and expiry, the hand-over of certificates, the revocation.
--   OtaPolicy         app/shared/ota_policy/ota_policy.py: the grammar and the order of versions, and the
--                     decision about an update.
--   Lifecycle         app/camera/camera_streamer/lifecycle.py: the states of the camera program, what it waits
--                     for, the services that it starts and stops.
--   ThrottleState     app/server/monitor/services/throttle_state.py with its use in
--                     app/server/monitor/services/camera_service.py: the throttle flags of a heartbeat.
--   MotionDetector    app/camera/camera_streamer/motion.py: scores of frame differences, hysteresis, the
--                     start and the end of an event.
--   MotionEventStore  app/server/monitor/services/motion_event_store.py: the capped list of events, the
--                     closing of orphans, whether a camera is active.
--   Webhooks          app/server/monitor/services/webhook_delivery_service.py: which event goes to which
--                     destination, the delivery with redirects and retries, degraded destinations.
--   ShareLinks        app/server/monitor/services/share_link_service.py: making and revoking public links, who
--                     may use one, what its pages show.
--   LoopRecorder      app/server/monitor/services/loop_recorder.py: which clips are deleted when space is
--                     low.
--   RestartSchedule   app/server/monitor/services/restart_schedule_model.py: the weekly restart, and when
--                     the next one is.
--   TimeWindow        app/server/monitor/services/time_window.py: weekly windows, also over midnight.
--   TimeWindow.Recording
--                     app/server/monitor/services/recording_scheduler.py: whether a camera is to be
--                     recorded, by mode, schedule or motion, and the commands that follow.
--
-- How the parts interact: the camera's detector reports events, which the server appends to the
-- event store; the scheduler asks the store and the windows whether a camera is to be recorded,
-- and gives commands to the recorder and to the camera. Pairing gives a camera the secret that
-- signs its requests, which the replay guard counts. The log-in asks the limiter, reads and
-- changes the accounts, and issues sessions; the guards and the log-out read and drop them.
--
-- A module named like a part holds its state, its data and one function for each operation; the
-- modules below it hold the proofs, and Tests below it holds runs and the results at concrete
-- inputs. A method that holds a lock, or a file lock, is one step, and a run is a list of calls
-- with the instants that they read. Instants are natural numbers. Every recursion is structural;
-- the loops that the program bounds itself (the redirects and the attempts of a webhook) recurse
-- on what is left of that bound. The loops of Lifecycle, which wait for somebody, take fuel, and
-- its results say how much is enough; the printing of a number takes the number and one as fuel,
-- more than it has digits.
--
-- What is a parameter or an argument: digests and random values, what openssl and the ssl module
-- answer, how datetime reads a timestamp, the answers of the recorder and of a camera's control
-- client, how urllib and ipaddress read a text, the network behind a webhook, the recordings and
-- files behind a link, what the loops of the camera program look at. Texts that are only
-- compared stay strings; where the code looks inside, they are lists of character codes, but for
-- the challenge token, which is put together and split as a string; and digits and letters are
-- those of ASCII.
--
-- What is not modelled: threads, processes and their timing; the network and HTTP; the camera's
-- devices; files, but for the content of the two limiter files; the listing of sessions with the
-- parsing of user agents; the editing of webhook destinations and the signature of a delivery;
-- the texts of summaries and pages; log messages.
pub mod Base
pub mod ReplayGuard
pub mod LoginLimiter
pub mod OtaPolicy
pub mod MotionDetector
pub mod Sessions
pub mod MotionEventStore
pub mod PairingService
pub mod TimeWindow
pub mod TotpService
pub mod LoopRecorder
pub mod Accounts
pub mod Login
pub mod Webhooks
pub mod ShareLinks
pub mod Lifecycle
pub mod ThrottleState
pub mod RestartSchedule
