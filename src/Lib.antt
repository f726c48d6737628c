-- ===== src/Lib.antt =====
-- The MinIO client mc: the comparison of two listings, the plan of a mirror, the URLs that both
-- work on, the plan of a copy, the pool of workers that runs it, the search of find, the
-- lifecycle rules of a bucket, the migration and repair of the configuration file, the encryption
-- keys of object prefixes, the durations of the command line, the aliases, and the jobs of a
-- mirror.
--
-- How the parts interact. A command names its two sides by aliases, which the configuration maps
-- to URLs. diff and mirror list both sides, each in the order of the names; differenceInternal
-- merges the two listings and sends a message for each difference; deltaSourceTarget makes of
-- each message an order to copy, an order to remove, or an error. When an object is copied,
-- getSSE finds the encryption of its side by the prefix of its name. cp makes the same orders
-- from its sources and its target: prepareCopyURLs guesses which of four kinds a copy is, looks
-- the two sides up and lists folders. ParallelManager runs the orders, alone where one is queued
-- with a barrier. For mirror, startMirror queues a job for each order of the plan and sends the
-- errors of the plan to the status channel, the pool sends the results of the jobs to the same
-- channel, and monitorMirrorStatus reads it. With --watch, watchMirrorEvents queues further jobs.
-- `mc ilm rule add` and `edit` read their flags into LifecycleOptions, of which ToILMRule makes a
-- rule that validateILMRule tests, or which ApplyRuleFields writes into a rule.
--
-- Which file models which part:
--   Base              lists, strings of bytes with the operations of the package strings, valid
--                     UTF-8, decimals, and maps as association lists
--   Url               cmd/client-url.go: newClientURL, String, urlJoinPath, url2Alias,
--                     isURLPrefix
--   Errors, Content   cmd/typed-errors.go, differType, ClientContent of cmd/client.go
--   Difference        cmd/difference.go: Metadata is metadataEqual, ModTime is
--                     activeActiveModTimeUpdated, Compare is differenceInternal, Report is
--                     difference, objectDifference and bucketDifference; Merge states what a
--                     comparison should find, and Refines and SourceOnly are about the loop and
--                     that
--   Mirror            cmd/mirror-url.go: Plan is the loop of deltaSourceTarget with its
--                     exclusions. cmd/mirror-main.go: Job has startMirror, doMirror and
--                     doRemove, with retry of cmd/retry.go; Status is monitorMirrorStatus, with
--                     isErrIgnored of cmd/utils.go; Watch has watchMirrorEvents and
--                     doMirrorWatch, on Linux, and Cycle is about it; Start and Retry are about
--                     the jobs, and Outcome about the plan, the pool and the monitor together
--   Alias             cmd/config.go: Env is parseEnvURLStr and expandAliasFromEnv, Expand is
--                     expandAlias with all that it looks up, and readAliasesFromFile; Validate is
--                     cmd/config-validate.go with cmd/config-utils.go; Keys, Full and Sound are
--                     about them
--   Copy              cmd/cp-url.go: Guess is guessCopyURLType, Kinds has prepareCopyURLsTypeA to
--                     prepareCopyURLsTypeC, Orders prepareCopyURLsTypeD and prepareCopyURLs;
--                     World has what they look up, with isAliasURLDir of cmd/common-methods.go
--                     and isURLContains of cmd/utils.go; FilePath is Clean, Join and Base of the
--                     package path/filepath
--   Parallel          cmd/parallel-manager.go: System has the caller of queueTask and
--                     stopAndWait, the barrier and the workers of addWorker as a step relation;
--                     Counts, Invariant and Safety are about what it reaches
--   Age               cmd/utils.go: isOlder and isNewer, over ParseDuration
--   Find              cmd/find.go: Pattern has the patterns, Match is matchFind, getAliasedPath
--                     and the loop of doFind, Conditions and Exact state what should be found
--   Ilm               cmd/ilm: Parse and Validate are parse.go, Options, Flags and Edit
--                     options.go, Table is utils.go with the rows of table.go, and Edit has
--                     LsFilter.Apply; Flags ends with the rule of cmd/ilm-rule-add.go
--   Config            cmd/config-old.go, cmd/config-v10.go, cmd/config-migrate.go: Formats has
--                     the records, Defaults loadDefaults, ConvertOld and ConvertNew the
--                     conversions, Migrate the guarded steps and migrateConfig; Repair is
--                     fixConfigV6 and fixConfigV6ForHosts of cmd/config-fix.go
--   Encryption        cmd/encryption-methods.go
--   Duration          cmd/duration.go: leadingInt and ParseDuration
--   Tests             runs at concrete inputs
--
-- How state and data correspond. A string is the list of its bytes. A channel is the list of what
-- is received or sent, in order, for a command that is not cancelled. A map is an association
-- list; where the code depends on a key being there once, a hypothesis says so. An int64 that is
-- not negative is a number below 2 ^ 63, and its wrap-around is written out. Reads and writes of
-- the configuration file, which end the program where they fail, are taken to succeed. The path
-- separator is `/`, as on all systems but Windows. Printing and the traces of errors are left
-- out.
--
-- Bounds. differenceInternal runs on a number of rounds, and ends with `unfinished` where they do
-- not suffice; objectDifference takes one round more than there are entries. ParseDuration takes
-- as many rounds as the text has bytes. The workers of the pool are limited by the number that it
-- is made with, or by 128; an int has 64 bits. An answer that needs a bound names it in its
-- statement.
--
-- Parameters, for code of other packages: the normal form norm.NFC.String, time.Parse for RFC
-- 3339, wildcard.Match, the package encrypt with the decoders of hex and base64, the arithmetic
-- of float64, the methods of the package lifecycle with time.Parse for dates and the present day,
-- the flags of the package cli with humanize.ParseBytes and the new UUID, and for cp the
-- expansion of aliases, the lookups and listings of the two sides, and the tests of age; for find
-- these tests, filepath.Match, the expressions of the package regexp and http.CanonicalHeaderKey.
-- For aliases they are url.Parse, the environment and the loaded configuration, and for the jobs
-- of a mirror the uploads, the removals, the lookups, the new clients, the cancellation behind an
-- attempt and the texts of errors; for watched events the names of their types, filepath.Abs and
-- time.Parse. The memory that is left, which decides whether a task without a barrier gets one,
-- is open in each step. The results of the pool are always received. A second goroutine that
-- queues tasks is not modelled.
--
-- Not modelled: the clients of object storage and of the file system, which are calls of other
-- packages and of the system; the commands and their output, of whose flags only those of
-- lifecycle rules are read; the monitor of the bandwidth, of which only is modelled that it adds
-- workers at any time; the checks of the syntax of cp; the totals and the progress of a mirror,
-- its calls for buckets and the loop that waits for events; what find does with a match; the
-- stamp and the cache of the configuration, and the syntax of JSON.
pub mod Age
pub mod Alias
pub mod Base
pub mod Url
pub mod Errors
pub mod Content
pub mod Difference
pub mod Mirror
pub mod Config
pub mod Encryption
pub mod Duration
pub mod Find
pub mod Ilm
pub mod Copy
pub mod Parallel
pub mod Tests
