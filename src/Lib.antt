-- ===== src/Lib.antt =====
-- The relay of tproxy-server (Go): clients that browse through a plain HTTPS site carry many TCP
-- streams in one session, by uploads and long polls that hold batches of binary frames.
--
-- The program's parts and their files here:
--   Base, Base.Lists, Base.Table, Base.Sets, Base.Text, Base.Int: shared helpers. Boolean tests,
--     programs that may panic (`Option` with `none` as the panic, and the predicates `Returns` and
--     `Every`), lists, association lists for Go's maps, texts that are split and joined, and
--     integers.
--   Frame (internal/frame/frame.go): the frames and the functions on them. Frame.Encoding is about
--     one frame, Frame.Batches about ParseAll, Frame.Shapes about ParseHello, WindowAmount and
--     ValidateClientShape.
--   Config (internal/config/config.go): limits, profiles, their defaults and the tests on them.
--     Config.Hostname and Config.BasePath have the two validators, Config.Addresses the tests on
--     addresses, Config.Capability secrets and capabilities, and Config.Loading Config.validate and
--     the loop of loadProfiles. The proofs are in the files below them.
--   Session (internal/session/session.go): the state of a session. Session.Budget has the reserves
--     and the two functions on the pending budget, Session.Queue queueFrameLocked and
--     takeDownBatchLocked, Session.Close tombstones and closeLocked, Session.Apply the checks on a
--     batch, Session.Batch applyBatchLocked, Session.Uplink and Session.ProcessUp the uploads,
--     Session.Backend the calls of the backend goroutines, Session.Poll and Session.PollLane the
--     long polls. The other files below Session hold proofs: Session.Invariant says what holds of a
--     session whenever its lock is free, Session.Tidy that its streams and tombstones are apart,
--     and the files named Sound, Closing, Leaving and Queueing that operations keep it. Below
--     Session.Batch, Trials and Tracking relate the trial run that validates a batch to the loop that
--     applies it, Opens, Ends and Steps take one round each, and Evicted is about a full ring of
--     tombstones.
--   Token (internal/session/token.go): credentials.
--   Manager (internal/session/manager.go): what the sessions share, as Manager.Rate,
--     Manager.Bootstraps, Manager.Sessions and Manager.Capacity.
--   Keys (keys-panel/store.go): the panel that hands out keys, a program of its own. Keys has the
--     keys and the checks on them, Keys.Secrets the env files, Keys.Applying Apply with its rollback,
--     Keys.Adding AddKeys, and Keys.Editing RevokeKey, RotateKey, UpdateKeyMeta and Sync.
--
-- How the parts interact: a session calls its manager through the callbacks of sessionOptions. They
-- are the record `Hooks` over a state `W`; `HookLaws` says what a session relies on.
--
-- Conventions:
--   A byte is a natural number below 256 and a body is a list of them. Numbers are natural numbers,
--   but for those of a configuration file; a fixed width is written out where the code can reach
--   it: stream numbers have 24 bits, and cursors and sequence numbers wrap at 2 ^ 64.
--   A Go function that holds the mutex is one function on the state. A function that unlocks to
--   wait is one function for each critical section. `process_up` runs the two of ProcessUp with
--   nothing between them; what holds of each alone is stated too.
--   A map that is nil after closeLocked is an empty one, and writing to it is the panic that it is
--   in Go.
--   A Go map is an association list, in the order of insertion. Go goes through a map in any order.
--   A channel is what it carries: a one-slot notification is a Boolean, a parked poll has a number.
--   The limits and durations of a configuration file are integers (Base.Int) until Config.validate
--   and validateProfileLimits accept them. The relay's own limits are natural numbers: `LimitsOf`
--   is the record over either kind. The 64 bits of Go's int are not written out for them.
--   Time is a number that the caller passes. The token buckets are over a parameter `Floats`, the
--   float64 arithmetic, on the bits of a float64.
--   base64, SHA-256, HMAC and the random source are parameters (`Crypto`); `CryptoLaws` has the
--   documented behaviour that a proof relies on. The packages net, net/url, strconv and os and the
--   decoders of secrets are the parameters `Net`, `Decoders` and `Outside`.
--   The files and services that the keys panel works on are the parameters `System` and `Panel` over
--   a state `W`; `SystemLaws` says that a written file is read back, that a write which fails
--   leaves its file as it was, and that no other file changes by a write, and none by the check of
--   a candidate, a restart or the wait for the relay. writeFileAtomic is one step.
--   A Go string is its bytes, where the code looks into it.
--
-- Fuel: `parse_all` gives its loop as many rounds as the input has bytes, which is enough since
-- every frame takes eight at least. All other loops are structural.
--
-- Not modelled: the goroutines that dial, read and write a backend (their calls into the session
-- are), Shutdown and the cleanup ticker, reading and decoding of configuration files,
-- isSystemdCredential, the token key file, the HTTP server, the bridge page, and of the keys panel
-- the pages, the commands and the listing of keys. A lane that is dropped and made anew under the
-- same number, while a poll is still parked on the old one, is one lane here.
pub mod Base
pub mod Config
pub mod Frame
pub mod Keys
pub mod Manager
pub mod Session
pub mod Token
