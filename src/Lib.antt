-- ===== src/Lib.antt =====
-- file-forge: a service that takes uploads, processes them in the background and hands out the results.
--
-- An API process (src/app.ts) mounts routers behind limiters. Uploads are named and typed by
-- src/files/upload.ts and moved into the storage of src/storage.ts; a job is put on a queue by
-- src/jobs/routes.ts and tried by the worker of src/jobs/worker.ts, which runs the processors of
-- src/jobs/processors.ts under a retry policy; a watcher follows it over the event stream of
-- src/jobs/sse.ts; the result is downloaded through src/files/download.ts, by a link that
-- src/files/signing.ts signs; and a sweep, src/jobs/cleanup.ts, removes what has grown old.
--
-- The files of this library and the code that they model:
--   Base           numbers, lists, texts (lists of UTF-16 code units) and decimals that all parts share
--   RateLimit      src/ratelimit.ts: `limiter` is the middleware of createRateLimiter, `counter_key` its
--                  key, RateLimit/Limits the constant RATE_LIMITS
--   App            src/app.ts: `create_app` is the list of layers that createApp mounts, `handle` a
--                  request's way through them, App/Answers what createApp answers itself
--   Signing        src/files/signing.ts: `create_signed_link`, `signed_query`, `verify_signed_link`
--   Upload         src/files/upload.ts: `resolve_mime_type`, `sanitize_filename`, `storage_key_for`, and in
--                  Upload/Filter the filter and limits of createUploadMiddleware
--   Storage        src/storage.ts: `path_for` and the operations of LocalStorage,
--                  and Storage/Shelf what they promise: an abstract shelf of file sizes
--   Download       src/files/download.ts: `download` is GET /files/*splat, `create_link` POST /files/links
--   Files/Records  src/files/repository.ts, and incrementCounter of src/metrics.ts
--   Files/Routes   src/files/routes.ts: POST /uploads, GET /uploads/:id, uploadErrorHandler; their
--                  responses, from the part of a request on, are in Files/Routes/Answers
--   Csv            src/jobs/csv.ts: Csv/Validate is `inspect` of validateCsv, Csv/Transform `reshape` of
--                  transformCsv, Csv/Process both processors round them
--   Config         src/config.ts: `load_config`
--   Cleanup        src/jobs/cleanup.ts: `cleanup_old_files`; in Cleanup/Maintenance the job of
--                  src/jobs/worker.ts that runs it
--   Jobs           src/jobs/errors.ts, src/jobs/processors.ts and the operations of src/shared/contract.ts
--   Jobs/Context   what a processor works with: storage, records, progress, and errors that are thrown
--   Jobs/Options   the readings of zod that the option schemas of both kinds of processors are made of
--   Jobs/Images    src/jobs/image.ts: the option schemas, and in Jobs/Images/Process the processors
--   Jobs/Registry  src/jobs/processors.ts: the registry of these processors
--   Jobs/Worker    src/jobs/worker.ts: an attempt at a job and the listener for failures
--   Jobs/Progress  src/jobs/worker.ts: the high-water marks of progress
--   Jobs/Sse       src/jobs/sse.ts and subscribeToJob of src/jobs/events.ts: one watcher's connection, as
--                  a sequence of occurrences between which the code runs without interruption
--   Jobs/Sse/Gap   such a connection beside the worker of src/jobs/worker.ts that completes the job, and
--                  beside the other watchers with which it shares the subscription
--   Jobs/Events    src/jobs/events.ts: channelFor and the message handler of subscribeToJob
--   Jobs/Subscriber src/jobs/events.ts: subscribeToJob on the Redis connection that all watchers share
--   Jobs/Kinds     src/shared/contract.ts: kindForMimeType; src/jobs/queue.ts: DEFAULT_JOB_OPTIONS
--   Metrics        src/metrics.ts: readCounters, readQueueDepth; Metrics/Exposition the text of GET
--                  /metrics, and Metrics/Status both endpoints over what they read
--   Jobs/Routes    src/jobs/routes.ts: POST /jobs and GET /jobs/:id
--   Contract       src/shared/contract.ts: the schemas on JSON values, with the bodies that the server
--                  and the page write: Contract/Events, Contract/Uploads, Contract/Requests (and
--                  JobPayloadSchema of src/jobs/queue.ts), Contract/Status, Contract/Links, Contract/Errors
--   Shutdown       the shutdowns of src/jobs/worker.ts (Shutdown/Worker) and src/server.ts
--                  (Shutdown/Server): steps of a process, and runs of them
--   Frontend       frontend/src: Frontend/Api is api.ts, Frontend/Watch useJobProgress.ts, Frontend/Screen
--                  App.tsx, and Frontend/Picker, Frontend/DropZone, Frontend/Results and
--                  Frontend/Progress are components; Frontend/Page is the page with its picker in
--                  it, and Frontend/Uploading and Frontend/Running go from the page to the server
--                  and back
-- Beside these stand files with what is proved of them, and files of tests.
--
-- State is passed explicitly: a store or a disk goes in and comes out. What is not part of the
-- repository is a parameter: Redis (`Redis` in RateLimit and in Files/Records), the hash, UTF-8
-- and the numbers of the language (`Crypto` and `Numbers` in Signing), the file system (`Disk` in
-- Storage and in Cleanup), the queue (`Services` in Jobs/Routes), the connection for events
-- (`PubSub` in Jobs/Subscriber), zod's readings (`Zod` in Jobs/Options and in Config), sharp
-- (`Sharp` in Jobs/Images/Process) and the CSV parser (`CsvLibrary` in Csv/Process). What is
-- assumed of them is a record of laws (`Counts`, `Exact`, `Hex`, `Moves`, `Removes`, `Separate`,
-- `Keeps`, `Reads`, `Documented`, `Tally`, `Sums`) that a concrete instance in the tests meets. Random names are
-- arguments. React and EventSource are read as documented: an effect runs when the job has
-- changed, and a closed source gives no events.
--
-- Numbers are natural numbers; a count of rows, bytes or milliseconds stays far below the 2 ^ 53 up
-- to which the language's numbers are exact, and where that matters (expiry times) the bound is a
-- hypothesis. Loops are recursion on the list that they go through. The only fuel is the number of
-- rounds in `told` of Jobs/Worker/Life, where as many as the job has attempts left are enough, and that of
-- digits in `decimal` of Base/Decimal, where a number has no more digits than its value and one.
--
-- Not modelled: parsing of requests, multipart bodies and CSV text, the work of the image library,
-- logging, what the processes do at start-up but for its failure, and the markup of the front end beyond
-- the picker's menu and the progress card. Where no schema of the page reads a response, its body is
-- reduced to its code and the data in it.
pub mod Base
pub mod RateLimit
pub mod App
pub mod Signing
pub mod Upload
pub mod Storage
pub mod Download
pub mod Files
pub mod Csv
pub mod Cleanup
pub mod Jobs
pub mod Contract
pub mod Frontend
pub mod Config
pub mod Metrics
pub mod Shutdown
