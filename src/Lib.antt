-- ===== src/Lib.antt =====
-- Verification of the tools of sst-sat, a SAT solver that runs in the SST architecture simulator.
--
-- The program. The solver (C++, src/) reads a CNF file, prints a log and, where it finds one, a
-- solution, and records what it does in a binary trace. The Python tools (tools/) work on these
-- files: verifier.py checks a solution against the CNF file, trace_lib.py reads a trace as a stream
-- of events and sums it up, and unified_parser.py reads the figures from a log. Of the other tools,
-- parse_results.py and several more report on the results of many logs, query_trace.py prints traces,
-- analyze_summary.py finds the runs that are missing, and cleanup_timeouts.py removes the files of runs
-- that timed out. They share no state: each works on the contents of files that another program wrote.
--
-- Verifier models tools/verifier.py. Verifier.Solution is parse_solution, Verifier.Cnf parse_cnf
-- (its local variables are the record Cnf; add_line is the body of its loop), Verifier.Evaluate
-- evaluate_clause and verify_solution. Verifier.Console has what is printed and how the program
-- ends. Lines that a function prints are values in the order in which they are printed.
--
-- Trace models tools/trace_lib.py, and src/trace_writer.h and src/trace_writer.cc, which write what
-- it reads. Trace.Varint is _uvarint and _svarint, Trace.Reader the loop of iter_events (turn is one
-- turn, with a function for each tag; the generator's local variables are the record Reader),
-- Trace.Header parse_header and the opening of the file, Trace.Summary summarize. Trace.Event has
-- the events and the views. Trace.Writer has the records that each emit function writes and the
-- closing record. Exceptions are the values of Trace.Error.
--
-- Log models tools/unified_parser.py, which reads logs. Log.Satsolver is
-- parse_satsolver_log: the body of its `try` is a list of steps on the dict that it returns, each with
-- the exception that it may raise. Log.Sections, Log.Caches, Log.Histogram and Log.Activities are the
-- functions for the sections of a log, Log.StatsCsv the one for the .stats.csv file, and Log.Format
-- detect_log_format, format_bytes and the cache size in a directory's name. Floats are a parameter,
-- the record Floats of Log.Value, as are the rows of a CSV file. Log.Minisat and Log.Kissat are
-- parse_minisat_log and parse_kissat_log, and Log.File is parse_log_file and parse_log_directory, over
-- the files that the directory has, sorted. The warnings that are printed are left out.
--
-- Cleanup models tools/cleanup_timeouts.py: parse_timeouts and delete_artifacts. Which file
-- a path names, and if os.remove succeeds on a path, are parameters. Cleanup.Removed has the proofs.
--
-- Query models tools/query_trace.py: the traces under a path, and the commands cmd_header, cmd_summary
-- and cmd_stream as the lines that they print, with the error that ends them if there is one.
-- Query.Format is _fmt_text.
--
-- Analyze models tools/analyze_summary.py: the summary of a batch of runs, the tests that the seed
-- folders name, the runs that are missing and the commands that remove their files.
--
-- Verifier.Main is `main` of tools/verifier.py, with the files and the decompression as parameters.
--
-- Results models tools/parse_results.py. Results.Score is _compute_par2_and_solved, Results.Single the
-- score of a folder without seeds, Results.Label the label of a test over several seeds,
-- Results.Aggregate its averages, Results.Best the best-of-seeds score and rows, Results.Seeds the
-- folder with seeds as a whole, and Results.Csv the rows of write_csv_report, with the names of the
-- columns in Results.Fields. Log.Number is the arithmetic on the figures: a number is an int or a
-- float, and the further operations of Python's float are the record Arithmetic, a parameter. A missing
-- result (none) is an exception.
--
-- Tools models six tools that add up figures of several logs: Tools.Histogram is
-- tools/parse_histogram.py, Tools.Coprocessor is tools/compute_coprocessor.py, Tools.Bandwidth is
-- tools/parse_bandwidth.py, Tools.Satlib is tools/compare_satlib.py, Tools.Breakdown is
-- tools/parse_prop_breakdown.py, and Tools.CacheStats is tools/parse_stats.py. The last one reads the
-- rows of a CSV file, and the others take the results of the log parser.
--
-- Base and Python are shared. Python has what the tools use of str, int, bytes.decode and re: a text is
-- the list of its code points, an exception is the missing result or an error of Base.Result. A dict
-- is a list of pairs in the order of the insertions (Base.Dict), an int is a ℤ or a natural number.
--
-- Fuel. uvarint_loop recurses on the bytes. header_lines and events_loop have one unit of fuel for each
-- byte and one more: a line has at least one byte, and a turn takes at least its tag. Where they run out,
-- the outcome is none or stuck, which is no outcome of the Python code. A loop of a pattern has
-- one unit for each character to come, since a round of `*` that takes none ends the loop.
--
-- Not modelled: the command lines, decompression (a parameter of Verifier.Main) and tables that are
-- only printed; the ring buffer of the trace writer and failing writes, which end or delay a trace;
-- that int() refuses more than 4300 digits; \w and letter case beyond ASCII, save for the letters that
-- fold to an ASCII one. The contents of a text file are those after the translation of its line
-- ends. The solver itself, the plots and the shell scripts are not modelled: they need the SST
-- framework or draw pictures.
pub mod Analyze
pub mod Base
pub mod Cleanup
pub mod Log
pub mod Python
pub mod Query
pub mod Results
pub mod Tools
pub mod Trace
pub mod Verifier
