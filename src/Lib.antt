-- ===== src/Lib.antt =====
-- percentes measures hosted language models and publishes what it measured. This library models the
-- parts of it whose decisions the published figures and the spending rest on.
--
-- Base: the shared helpers. Results and do blocks, 64-bit integers whose sums wrap around (Base.Int),
-- exact fractions (Base.Rat), association lists for maps (Base.Maps).
--
-- Admission: internal/admission/ledger.go, the request and liability ledger. A file is its bytes; an
-- operation takes the file and gives its result and the file that it leaves.
--   Decimal: decimal, decimalString, perRequest, on exact fractions.
--   Types, State: the lines, the state that they give, its charge, prices and projected liability.
--   Apply, Parsing: State.apply for each kind of line, Parse, Ledger.parse.
--   Decide: what the functions that RecordPrice, RecordHosting, admit and Settle give to update decide.
--   Operations: append, update, Create and the operations.
--   Journal, Acceptance, Caps, Settlement, Pricing, Digits, Printed: proofs; Examples: a small ledger.
-- encoding/json, crypto/sha256 and net/url are the fields of the record Platform; that the JSON of a
-- written line holds no newline and reads back is a hypothesis where it is used. A Go map is an
-- association list in the order of insertion; Go's own order is not fixed, and no result of the
-- modelled code depends on it but which of several errors is reported. Opening, locking, reading and
-- syncing a file are taken to succeed, and the lock to make each operation one step.
--
-- Sse: internal/sse/sse.go, the framing of an event stream. Split is SplitLines; Scan is bufio's loop
-- around it on a stream that arrives in chunks, with fuel of the buffer's length; Events is the loop of
-- Events on the lines that the scanner finds. A chunk is what one Read puts into the scanner's buffer,
-- which grows to its size limit and where it is full ends the scan with ErrTooLong; that Events then
-- counts one more dropped event, and the other errors that end a stream, are not modelled. Lines and
-- Delivery hold the stream's lines and events as the HTML Standard gives them; Rest, Limit and Delivery
-- the proofs.
--
-- Traffic: internal/admission/sent.go (Sent) and internal/evidence/gaps.go (Gaps) on the fields that
-- they read of the records of internal/loadgen, internal/probe and internal/evidence (Requests).
--
-- Score: internal/score. Contract is route.go, with encoding/json's decoder as the answers that it
-- gives (the record Json); Outcome is outcome.go. Meets and Success hold the proofs.
--
-- Ceiling: internal/admission/ceiling.go, CeilingRule on a configuration that its Validate has passed.
-- Types, Demands and Rule are the code; a float64 is the exact fraction that it is, and the rounding of
-- a printed demand is a parameter. Tested and Binding hold the proofs. Validate, ExpectedPlan, Covers and
-- CheckPublished are not modelled.
--
-- Schedule: internal/schedule/schedule.go. Types, Window, Configs, Derive, Frame and Runs are the code;
-- time.Parse and Format of a date and SHA-256 are the fields of the record Library, encoding/json those
-- of Json. A date is its day number and an instant its nanoseconds, so New's loop over the counter has
-- fuel of maxCounter and 0. Sorting is insertion, which gives what slices.Sort does where equal items are
-- alike, and New has no two equal keys where they are not. The offset of the last route is a natural
-- number: a Duration would wrap around at some fifteen million routes. Derived, Dates, Order, Shuffle, Cells,
-- Guarantee, Reruns and Again hold the proofs.
--
-- Detect: internal/detect/detect.go. Types, Series, Windows, Scan, Analysis and Run are the code, with
-- GuardStartNs of internal/collect. A float64 is a type with its operations, the record Floats of
-- Base.Floats; that < and >= are never both true of two floats is a hypothesis where it is used. The
-- lengths in seconds, the percentages and a bucket's counts are natural numbers. The scan's fuel is one
-- for each index from the first to the last. The components' map is a record of three. Unseen, Rounds, Survival,
-- Verdict, Homes and Sweep hold the proofs. The decomposition table is not modelled.
--
-- Validity: internal/validity/validity.go. Types, Gates and Evaluate are the code on the fields that it
-- reads of internal/run and internal/collect; Reasons, Published and Label hold the proofs. The texts of
-- names and details are left out, so FailReasons gives the gates it names.
--
-- Loadgen: internal/loadgen. Gates is evaluateGates of gates.go; Ladder and Plan are BuildLadder,
-- arrivals, secondsNs and BuildSchedule of schedule.go, with math/rand's generator and math.Floor as the
-- record Rng. The fuel of a Poisson loop is a parameter; enough is one round for each draw until the gaps
-- drawn come to the window's length, however many of them are 0. Order, Client and Arrivals hold the
-- proofs. The client's goroutines, clocks and connections are not modelled.
--
-- Stream: internal/loadgen/sse_client.go, what a client reads of a 200 response, on the payloads that
-- Sse.Events delivers. Json, Chunk, Messages and Usage are lookup, parseChunk, parseMessagesEvent and
-- mergeUsage, with encoding/json and strconv.Atoi as the record Decoder; Reply is recordChunk; Read is the
-- loop of execute and the switch after it, on a clock that gives each payload its times; Secrets and
-- Frames are readErrorBody and frameRecorder; Headers is allowedHeaders, retainHeaders, replicaFrom and
-- the header rules of internal/config/config.go, on ASCII names. A raw value is its bytes, a text too.
-- Sending the request, reading its status and the transport's errors are not modelled. Tokens, Counts,
-- Ending, Overlay, Merged, Masked, Hidden, Errors, Tail, Kept, Recording and Covering hold the proofs.
--
-- Evidence: internal/evidence/balance.go. Balance is CheckBalance and Blocks, with encoding/json's decoder
-- and strings.TrimSpace as the record Decoder; Start holds the proof.
--
-- Pilot: internal/pilot/schedule.go. Slots is draw, permutation, slot and derive, Plan is eligible and
-- NewSchedule, on the record Library of Schedule; its loop over the counter has fuel of maxCounter and 0.
-- Drawn, Ordered, Planned, Guarantee and Whole hold the proofs.
--
-- Campaign: internal/campaign/campaign.go. Scalars is extractScalars, Summaries is summarize, Run is
-- RunWith; Accounts and Whole hold the proofs. The runner, stats.Summarize, the seconds between two
-- instants and float64 are parameters. The texts of reasons, the fields that a row carries verbatim and
-- the noise floor are left out.
--
-- Not modelled: commands, HTTP, processes, files, reports and statistics; the configuration and its
-- validation; the probes of a release; the pilot's tickets; the orchestrator.
pub mod Base
pub mod Admission
pub mod Campaign
pub mod Ceiling
pub mod Detect
pub mod Evidence
pub mod Loadgen
pub mod Pilot
pub mod Schedule
pub mod Score
pub mod Sse
pub mod Stream
pub mod Traffic
pub mod Validity
