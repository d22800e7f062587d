-- ===== src/Lib.antt =====
-- IRL Universal Ingest takes one live stream at a time, over RTMP, SRT, SRTLA or RIST, and relays it
-- through an ffmpeg child process. An adapter asks the arbitration manager for the slot, then starts
-- a session of the relay; the manager's watchdog frees a slot that falls silent, and its release
-- callback, which cmd/server/main.go sets, stops the relay.
--
-- The files and the code that each models:
--   Arbitration.antt   internal/arbitration/manager.go, the manager. try_acquire is TryAcquire, touch
--     is Touch, and so on. A method returns the new manager. The objects that TryAcquire makes (the
--     release closure and the decay channel) are numbered; the world that the callback acts on is
--     passed along. Arbitration/Steps.antt runs the methods in any order: each of them holds the
--     mutex from end to end, the timer of time.AfterFunc fires first and calls handleTimeout later.
--   Relay.antt   internal/relay/ffmpeg.go. start_session is StartSession, and so on. The host holds
--     the live processes and the goroutines that wait. Relay/Steps.antt interleaves callers, exits
--     of processes and the goroutines, each from one acquisition of the mutex to its release.
--   Backoff.antt   the retry delay that relay, RIST and RTMP servers compute on an int64.
--   Config.antt   internal/config/config.go: the types, Default, Load and Validate.
--   Auth.antt   internal/auth/auth.go: NormalizePath and IsAllowed.
--   Rtmp/Flv.antt   internal/ingest/rtmp/flv.go: the FLV header, tags and message bodies.
--   Rtmp/Stream.antt, Rtmp/Connection.antt and Rtmp/Accept.antt   internal/ingest/rtmp/server.go:
--     streamToRelay on any writer and any list of reads, handleConn, which opens, serves and releases,
--     and the pause of acceptLoop after an error; Rtmp/Server.antt: NewServer, Start, acceptLoop, Close.
--   Rist.antt   internal/ingest/rist: the options and the command line (Rist/Options.antt), ParseLogLine
--     (Rist/Log.antt) with its expressions (Rist/Patterns.antt), monitorOutput (Rist/Monitor.antt), the
--     ristreceiver process with its restarts (Rist/Receiver.antt, interleaved with the goroutines that
--     reap it in Rist/Receiver/Steps.antt), and the handlers of a log line and of the heartbeat on the
--     manager and the relay (Rist/Server.antt).
--   Opening.antt   what other goroutines may call between the manager's TryAcquire and the relay's
--     StartSession, in the handlers of the three adapters that call both.
--   System.antt   cmd/server/main.go: the adapters on one manager and one relay, with the release
--     callback that main sets. An event is a handler of an adapter, a call of the timer, a round of
--     the decay loop or a step of the relay's goroutines; a history is any list of events.
--   Main.antt   cmd/server/main.go: the start of the four servers, with the error that ends main, and
--     their shutdown, on the listeners, directories and processes of a machine (Machine.antt).
--     System/Shutdown.antt: what still goes on after the last call of StopSession.
--   Srt.antt   internal/ingest/srt: ParseStats (Srt/Stats.antt), pickInternalSRTLAPort
--     (Srt/Ports.antt), the webhook's handlers of connect, close and statistics events
--     (Srt/Webhook.antt) on the manager and the relay, ServeHTTP, which reads an event from a
--     request and calls them (Srt/Request.antt), GenerateSLSConfig and BuildSRTLAArgs (Srt/Config.antt),
--     waitForServerReady (Srt/Readiness.antt), and NewServer, Start and Close (Srt/Server.antt) on the
--     machine.
--   Health.antt   internal/health/health.go: the tracker.
--   Stats.antt   internal/stats/collector.go: Healthy and Collect; the handlers of
--     internal/stats/server.go (Stats/Server.antt), its start and its shutdown (Stats/Listener.antt).
--   Go.antt   the parts of Go's library that the code calls: strings, bufio, regexp, net/url, time and
--     float64.
--   Prelude.antt   numbers, lists, integers, equality and maps.
--
-- Numbers and bounds. A Go int or int64 is an integer ℤ, a uint64 wraps at 2 ^ 64, a byte is a number
-- below 256 and a string is its bytes. Delays keep the wrap of the shift of an int64. A session
-- number of the relay wraps at 2 ^ 64, so the histories of the relay have fewer events and those of
-- the system make fewer calls than that.
-- Each recursion follows its data, but for two on fuel: the digits of an int, at most 19, are printed on
-- fuel for 20; the readiness poll has fuel for one round in each 50 ms of its timeout and two more,
-- which is enough where a round that fails takes the 50 ms of its sleep.
--
-- Arguments in place of code that is not in the repository: os.ReadFile's answer and the YAML
-- decoder (Config), the decoders of JSON and of a query (Srt/Stats, Srt/Request, Rist/Log),
-- strconv.ParseFloat (Rist/Log), the answers of StdinPipe, StdoutPipe, StderrPipe and Start (Relay,
-- Rist/Receiver), those of the calls in the SRT adapter's Start and of the listeners, with the
-- rounds of its poll (Srt/Server), the marshalling of codec configurations and the
-- numbers of gortmplib (Rtmp/Flv), the messages that a connection reads and the writer
-- (Rtmp/Stream), the clock, and float64 as an interface.
--
-- Not modelled: the sockets, pipes and log files, which carry the streams from and to the system, log
-- messages, and the guard against panics in internal/safego. A handler that takes
-- several mutexes in turn is one step, but for the gap between a TryAcquire and its StartSession
-- (Opening.antt), where an event of the system has any calls of other goroutines.
pub mod Prelude
pub mod Go
pub mod Auth
pub mod Backoff
pub mod Arbitration
pub mod Relay
pub mod Config
pub mod Rtmp
pub mod Health
pub mod Machine
pub mod Opening
pub mod Main
pub mod Srt
pub mod Stats
pub mod System
pub mod Rist
