-- ===== src/Lib.antt =====
-- Robotics runtime: the rules that decide whether a robotic run is qualified.
--
-- The repository has two Python packages. packages/contracts validates execution, evidence and
-- qualification documents, and packages/harness evaluates retained observations of a run against
-- a scenario: metric points are aggregated over a measurement window, a statistic is compared
-- with a threshold, and the verdicts of the assertions are joined into a status. The modules here
-- follow that path.
--
-- - Base: what the parts share. Python's numbers are the finite ones behind an interface (a total
--   preorder, Base.Float.Finite), with the infinities and NaN over them; integers are natural
--   numbers where the source refuses negative ones. A function that may raise returns a Result
--   whose error names the exception's class and cause.
-- - Contracts.Status: packages/contracts/src/robotics_runtime_contracts/status.py.
-- - Contracts.MergePatch: packages/contracts/src/robotics_runtime_contracts/_merge_patch.py. A
--   JSON tree is a value, a dict the list of its entries.
-- - Contracts.QualificationPolicy:
--   packages/contracts/src/robotics_runtime_contracts/qualification_policy.py.
-- - Harness.Samples: the metric points and the errors of
--   packages/harness/src/robotics_acceptance_harness/metrics.py.
-- - Harness.HistogramEstimates:
--   packages/harness/src/robotics_acceptance_harness/_histogram_estimates.py.
-- - Base.Double: the product of an integer with a literal, as IEEE 754 rounds it.
--   Base.Double.bits counts at most 256 binary digits; the largest product the program rounds is
--   below 2 ^ 120 (a timestamp of 64 bits, times a significand of 53).
-- - Harness.Series, Harness.Coverage: series keys, groups and sorting, and the coverage of the
--   evaluation window in packages/harness/src/robotics_acceptance_harness/metrics.py.
-- - Harness.Merging: the merging and the subtraction of histograms in
--   packages/harness/src/robotics_acceptance_harness/metrics.py.
-- - Harness.DeltaPoints: the validation of delta points in
--   packages/harness/src/robotics_acceptance_harness/metrics.py.
-- - Harness.ForbiddenGraph: packages/harness/src/robotics_acceptance_harness/forbidden_graph.py,
--   over the snapshots of packages/harness/src/robotics_acceptance_harness/readiness.py.
-- - Harness.Cumulative: the cumulative series and their baselines in
--   packages/harness/src/robotics_acceptance_harness/metrics.py.
-- - Harness.Windows, Harness.Points, Harness.Counters: the contributions of a window, the
--   aggregates of   histograms, of scalars and of counters in
--   packages/harness/src/robotics_acceptance_harness/metrics.py.
-- - Harness.Durations, Harness.Assertions: the duration predicates, the assertions and the
--   definitions of   instruments in packages/harness/src/robotics_acceptance_harness/metrics.py.
--   A window that would   start before the epoch starts at it, since timestamps are natural
--   numbers.
-- - Harness.TimeAuthority: packages/harness/src/robotics_acceptance_harness/time_authority.py, on
--   those   aggregates and on Harness.HistogramEstimates.
-- - Harness.HardwareTiming: packages/harness/src/robotics_acceptance_harness/hardware_timing.py,
--   with the   standard deviation of the statistics library as a parameter. Its verdict is
--   Contracts.QualificationPolicy.hardware_clock_within_policy.
-- - Contracts.Canonical: packages/contracts/src/robotics_runtime_contracts/canonical.py, with the
--   limits of packages/contracts/src/robotics_runtime_contracts/serialization.py. A string is the
--   list of its code points; the JSON encoder, str.isidentifier and the interpreter's limit on
--   decimal conversion are parameters. Contracts.Canonical.Text.digits has the number itself as
--   fuel, and Contracts.Canonical.Paths.write_pieces the length of the key, which
--   Contracts.Canonical.Pieces.write_pieces-enough shows to be enough.
-- - Contracts.McapObservations:
--   packages/contracts/src/robotics_runtime_contracts/_mcap_observations.py.
-- - Harness.Readiness, Harness.Waiting:
--   packages/harness/src/robotics_acceptance_harness/readiness.py. An issue holds the values
--   that its path and its message show. The wait is a recursion on the polls that the observer
--   and the   monotonic clock answer; the callback acts on a state of its own, and `int(seconds *
--   1_000_000_000)`   is a parameter.
-- - Harness.GraphWindow: packages/harness/src/robotics_acceptance_harness/graph_window.py. The
--   equality of issues and the numbered   candidates for an assertion's id are parameters; the
--   search for an id that is free has the number   of ids as fuel.
-- - Contracts.McapCrc: packages/contracts/src/robotics_runtime_contracts/_mcap_crc.py. The stream
--   is   its bytes and each position an argument; the checksum, the size of the magic and the
--   opcodes are   parameters. The walk has the number of bytes as fuel, since a record takes nine
--   bytes or more, and   the loop over a range the number of bytes of the range, since a block is
--   not empty.
--
-- Every other loop is a recursion on the list that it walks, so no fuel is used.
--
-- Not modelled: files, processes, containers, signatures, ROS, the parsing of JSON, YAML and
-- timestamps, and the texts of messages; and, for their size, the order of the spans of a trace,
-- the assessment of runs and campaigns, the semantic checks of documents, the qualification
-- bundles, the evidence policies and the summary of an MCAP file. Without a given window, the
-- window of an assertion that would start before the epoch starts at it. Arithmetic on floats (a
-- quotient, a sum) is an operation of the interface with no law.
pub mod Base
pub mod Contracts
pub mod Harness
