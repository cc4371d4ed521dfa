-- ===== src/Lib.antt =====
-- A verification library for ytmpt, a service that downloads the audio of YouTube videos and
-- converts it to MP3.
--
-- The program. A client posts a URL (handlePrepare): a session is created, and a job for the video
-- goes into the download queue, unless the shared asset of the video is cached. The client then
-- posts a range and a quality (handleConvertReq): a job goes into the conversion queue. Two worker
-- pools take the jobs and run yt-dlp and ffmpeg (handleDownload, handleConvert), and the client
-- polls the session (handleStatus), fetches the file (handleDownloadFile) or deletes both
-- (handleDelete). Sessions, assets and variants are kept in a store that all of them share.
--
-- The files.
--   Common/      Boolean tests, lists over the native numbers, Go strings as lists of bytes, 64-bit
--                integers, Go maps as association lists, and strconv.Atoi and fmt's decimals.
--   Queue        internal/queue/queue.go: Job, jobPQ, NewQueue, Len, Enqueue, Dequeue and
--                PositionForSession. container/heap is written out: heap_push with up is heap.Push,
--                heap_pop with down is heap.Pop. Queue/Order, Up and Down hold the heap order and the
--                two sifts, Enqueue, Dequeue and Position the operations, and Drain a run of Dequeue.
--   Queue/Workers  the worker pool: Start and Stop as a step relation over the states of the
--                goroutines, with logs of the accepted and of the handled jobs.
--   Util         internal/util/url.go: ParseClipBounds (Clip), IsAllowedDomain (Domain) and
--                CanonicalVideoID (Canonical).
--   Models       internal/models/models.go: the states, the session and the messages.
--   Store        internal/store/store.go: MemoryStore. Its map holds pointers, so the sessions are
--                objects on a heap; Store/Views is the store as a client sees it.
--   Config       internal/config/config.go: Load and the readers of the environment; Config/Parts is on
--                splitAndTrim.
--   Handlers     internal/handlers/api.go: the state of the API (World) and the handlers, in Prepare,
--                Convert, Status, Monitor, Workers and Wake; Flow and Format hold what is shown to a client. Saved,
--                Touched, Frame, Live, Sound, Orderly, Answers and Refused, and Workers/Download, Workers/Encode,
--                Workers/Failure and Workers/Postponed, hold the lemmas and theorems; Pipeline joins
--                a download, a conversion, and the requests for the status and for the file.
--   Handlers/Samples  a store of one session, for the tests.
--   Metrics      internal/metrics/metrics.go: the registry with its counters, gauges and histograms,
--                NewRegistry, ObserveDuration, SuccessRate and UptimeSeconds.
--   Middleware   internal/middleware/middleware.go: the token buckets, the limiter by address, the
--                allowlist, the API key, and their order. Rate bounds what a bucket lets pass, Isolation
--                compares the limiter with a bucket for each address, Admission is on the whole chain.
--   Service      NewAPI, Router and startCleanup of internal/handlers/api.go: the state that is built,
--                the routes behind the chain, and a tick of the cleanup. Service/Steps is the whole
--                service as a step relation: requests, workers, sleeping goroutines, cleanup and time.
--   Service/Running  the same service with every worker cut where it waits for yt-dlp or ffmpeg, in the
--                two parts of Handlers/Running. Order, Sound, Apart, Meanwhile and Orderly hold what the
--                steps keep, Reported what /health and /metrics show, Limits the workers of the
--                pools and the permits, Rest what can still happen within them, Simulation compares with Service/Steps, and Downloads and Conversions
--                hold the whole course of a download and of a conversion.
--   Store/Redis  RedisStore over a client that is a parameter. Store/Contract is the interface
--                SessionStore with its laws, which Store/Alike fills for both stores.
--   Downloader   internal/downloader/downloader.go: FetchMetadata from the responses on,
--                extractJSONField, the arguments of yt-dlp, and readProgress. Downloader/Printer is
--                the text of an object as yt-dlp prints it.
--   Converter    internal/converter/converter.go: the arguments of ffmpeg, the reports of progress,
--                tailLines, and the error that Convert returns.
--   Permits      New and withPermit of both files: the semaphore as a step relation.
--   Bench        cmd/bench/main.go: runOne with its polling loop, against handleStatus in Bench/Blind.
--                Bench/Summary has the addresses, the staggered starts and the printed lines.
--   Server       internal/server/server.go and cmd/ytmp3/main.go: New, and main as a machine over the
--                events of the HTTP server and of the signals.
--
-- State and results. A handler is a function of the World: the store, the sizes of the files, the
-- queues, the sleeping goroutines, the metrics, the clock and the count of random numbers. `none` of a queue operation is a run-time
-- panic or the end of the fuel. The loops of up and down run on fuel: up gets the index it starts
-- at, and down the length of the heap, which bounds the depth; the theorems on Enqueue and Dequeue
-- show that the run ends with a value. An int of ParseClipBounds wraps around at 64 bits. An
-- instant or a duration is a number of nanoseconds.
-- A rate is counted in billionths of a token for a second, and the tokens of a bucket in parts that
-- make the gain of a nanosecond whole; the rounding of float64 is left out, and a negative rate or
-- burst counts as zero. ToLower and TrimSpace are those of ASCII texts. In Service/Steps a
-- handler, a job of a worker, a wake-up and a tick of the cleanup are one step each. In Service/Running
-- a worker is two steps, before and after its tool, and any steps may come between them; in between
-- it holds the pointer to its copy of the session. The two parts of a worker and the other handlers
-- are one step each: an interleaving between two of their calls of the store, or of the metrics, is
-- not modelled. Any number of tools may run in Service/Running, which is more than the pools and the
-- permits let; Service/Running/Limits says which runs they let, where the permits go to the calls in
-- the order in which they ask, as a channel of Go serves its senders.
--
-- Parameters. net/url, SHA-1, math/rand, the readers of floats, Booleans and durations, the results
-- of yt-dlp and ffmpeg, the responses of the two HTTP calls, and the sizes and times of files come
-- from outside this repository or from the file system; they are arguments of the definitions. The
-- Redis client is a record of Get, Set and Del with the encodings, and its documented behaviour is
-- a hypothesis. The regular expression of readProgress and the floating-point quotient of Convert
-- are functions.
--
-- Not modelled. The JSON encoding, the text of the pages, CORS, the timeouts
-- of the commands, the expiry of Redis entries, the choice of Redis at the start, the inside of the
-- HTTP server, and the flags and the averages of the benchmark.
pub mod Common
pub mod Queue
pub mod Util
pub mod Models
pub mod Store
pub mod Config
pub mod Handlers
pub mod Metrics
pub mod Middleware
pub mod Service
pub mod Downloader
pub mod Converter
pub mod Bench
pub mod Permits
pub mod Server
