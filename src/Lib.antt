-- ===== src/Lib.antt =====
-- Verification library of the RF monitoring platform: the parts of its Python services that decide
-- what happens to data, translated into executable definitions, with the theorems that make them
-- correct.
--
-- The parts and how they interact
--   The RF agent (C++) measures a spectrum and sends frames over a WebSocket. spectrum-ingest/app.py
--   receives them, checks each one, and hands it to every connected browser through a bounded queue;
--   the same service fans audio datagrams out. python-processor/app/services/sdrangel/iq_pipeline.py
--   carries IQ packets from a producer through a bounded queue to a sink on a worker thread. The
--   processor's online pipeline looks for anomalies in the frames, its matching rules decide which
--   signals and devices are already known, its security settings decide which requests may write, and
--   its document store cuts texts into chunks.
--
-- The files
--   Prelude      lists, tests, integers, results, and the parameters that stand for Python's text
--                and float operations
--   Channel      the standard library's bounded queue as both services use it: put_nowait,
--                get_nowait, task_done, qsize, full (an interface of the model: a list in order, a
--                size, a count of unfinished tasks)
--   Iq           iq_pipeline.py. Iq.Packet is IqPacket with `validate`; Iq.Plane is the states, the
--                configuration with `from_env` and `initial_state`, the statistics and the state of
--                IqDataPlane; Iq.Enqueue is `enqueue`, `start` and the end of `stop`; Iq.Threads is
--                the same `enqueue` and `_worker` cut into their queue operations, so that a
--                schedule of a producer and the worker is a list of events; Iq.Mock is MockIqSink
--   Ingest       spectrum-ingest/app.py. Ingest.Json is what json.loads gives; Ingest.Frame is
--                `validate_frame`; Ingest.State is `Metrics`, `IngestState` and `publish`;
--                Ingest.Source is the body of the loop of `consume_source` and the connections of
--                `spectrum_socket`; Ingest.Audio is `datagram_received`; Ingest.Fanout is the
--                delivery to one queue that both share
--   Known        python-processor/app/services/known_signals/matching.py: evaluate_known_signal.
--                Known.Match holds the checks and the verdict; rows are dictionaries of values whose
--                operations are a parameter (Prelude.Values); Known.Report says what the checks list
--   Reference    python-processor/app/services/reference_match.py. Reference.Candidate is
--                _bluetooth_match_candidate with _normalize and the fingerprint of the services;
--                Reference.Match the two matchers; Reference.Annotate annotate_devices,
--                stamp_not_compared and the differences. The loop of match_bluetooth_identity with
--                its break is best_match, which stops when a turn says so
--   Samples      stand-ins for the parameters, for the tests
--   Anomaly      python-processor/app/services/anomaly. Anomaly.Groups and Anomaly.Cooldown are
--                _groups and _emit_once of spectrum.py; Anomaly.Pipeline is OnlineAnomalyPipeline of
--                pipeline.py, its worker cut at its awaits, a schedule being a list of events
--   Security     python-processor/app/security.py. Security.Settings is SecuritySettings with from_env
--                and validate; Security.Authorize is authorize_request and _token_role
--   Rag          python-processor/app/rag.py: chunk_text on lists of code points
--   Baseline     python-processor/app/services/baseline.py. Baseline.Table has the rows and the two
--                statements on them, Baseline.Save the saving and deactivating, Baseline.Compare the
--                comparison of a session with the saved rows. Baseline.Rows, Index, Items and Placed say
--                what the rows of a save and the items of a comparison have to be
--   Parsing      python-processor/app/utils/parsing.py. Parsing.Text, Rows and Numbers have the helpers
--                (row_get, parse_float, parse_datetime_value), Mac parse_mac, Flatten the flattening of
--                nested rows, Services and Identity the fields of Bluetooth rows, Bluetooth and Wifi
--                the normalised rows, Alerts the alerts and frame types, Uploads the parsed files.
--                Parsing.Interpreter has what is taken from Python
--   Passive      python-processor/app/services/anomaly/passive.py. Passive.Rules has what both detectors
--                share, Passive.Wifi and Passive.Bluetooth their rules
--   Uploads      python-processor/app/utils/uploads.py, on lists of bytes
--
-- Numbers and fuel
--   Python's integers are the integers of Prelude.Int; counters and sizes are natural numbers.
--   Loops over lists are structural. The loop of chunk_text runs on fuel, the length of the text: its
--   start grows by at least one in each turn. A schedule is a list of events: its theorems hold for
--   every list. normalize_service_uuids runs on the number of calls for which the stack has room, and
--   raises RecursionError at its end, as Python does.
--
-- What is a parameter
--   Floats (Prelude.Floats) with no law assumed; text operations of Python (Prelude.Python);
--   values of a type that the code does not fix (Prelude.Values), with equality on identities, or the
--   texts among them, as hypotheses; Python's conversions of numbers, dates, JSON and characters
--   (Parsing.Interpreter), with `str(s)` and time zones as hypotheses; json.loads, datetime.fromisoformat, SHA-256, the clock, the environment variables,
--   the rows that SQL queries return, the sink of the data plane, the detector of the pipeline.
--
-- What is not modelled
--   HTTP and WebSocket transport, SQL and its tables, Prometheus mirrors of the counters, logging,
--   the C++ agent, the browser's JavaScript, shell scripts. A sink's `connect` and `close` are
--   called on its state and return it with an error or none.
pub mod Prelude
pub mod Channel
pub mod Iq
pub mod Ingest
pub mod Anomaly
pub mod Baseline
pub mod Known
pub mod Parsing
pub mod Passive
pub mod Rag
pub mod Reference
pub mod Samples
pub mod Security
pub mod Uploads
