-- ===== src/Lib.antt =====
-- Artifact Engine, a forensic triage pipeline: it extracts acquisitions, detects the machines in
-- them, runs parsers over each machine's volumes, and consolidates their tables. This library
-- models the parts of its core that decide what is run and what is looked at, and proves what the
-- rest relies on: the detection of machines; the side of the perimeter that an address is on; the
-- Sigma prefilter, which decides the rows that rules get to see; the literals of a regex, which
-- decide the lines that searches with many regexes get to see; the scheduler, which orders the
-- parsers; the registry, which loads their manifests; the record of the lists a parser ran with;
-- the grouping of machines into console lines; the record of what a parser wrote, by which a later
-- run removes what is stale; the acquisitions that are consolidated into one output; the chains of
-- logons over a pivot; the slices that a web timeline is read in; and the processes that are ended
-- with a tool.
--
-- How the parts interact: `detector.detect_machines` gives the machines, and `assign_display_names`
-- their labels; `scheduler.run_all` asks `_applicable`, `_topo_order` and `_plan_pools` what to
-- run, where and with how many workers, and `console_groups.group` which bar a machine's progress
-- belongs to; before a task it asks `asset_state.unchanged`, and around it `asset_state.begin` and
-- `asset_state.record`. Handlers that look for Sigma rules ask `sigma_prefilter.necessary` for each
-- rule's need and drop the rows that the `Gate` of the needs does not pass; handlers that search
-- with many regexes ask `regex_literals.candidates` for texts that a match must hold. When a parser
-- has run, `outputs.settle`, `note` and `retire` clean the folder that it wrote into. After the
-- parse, `consolidate.plan_units` decides the outputs and `lateral` draws the graph of logons.
--
-- Which file models what (paths from the repository's root):
--   * SigmaPrefilter/: src/artifact_engine/core/sigma_prefilter.py. Like is `_like_literal`, with
--     SQLite's LIKE as a relation in Like/Sound; Needs is `Need`, `_leaf`, `_either`, `_both`;
--     Reader is `_Parser` over the tokens, its exceptions as the outcome `failed`; Reader/Grammar
--     gives the conditions and their three-valued truth, against which the reader is proved;
--     Columns is the resolution of columns in `necessary`; Trie is `trie_pattern` and Gate is
--     `Gate`.
--   * RegexLiterals/: src/artifact_engine/core/regex_literals.py. Tree is what `re._parser`
--     gives, with what its nodes match; Finite is `_finite` and `_finite_node`; Options is
--     `_usable`, `_key`, `_seq`, `_node` and `candidates`; LiteralGate is the class of that name.
--   * Scheduler/: src/artifact_engine/core/scheduler.py. Manifest is what it reads of a parser
--     and of a machine; Topo is `_topo_order`; Levels is `_levels`; Tasks is the tasks of `run_all`
--     in the order of its rounds over the machines; Skips is `_older_than_a_dependency` and the
--     loop that accounts tasks as cached, with `is_cached` of
--     src/artifact_engine/core/runner.py; Plan is `_applicable`, `_out_dir` and `_plan_pools`;
--     Waiting is `_Task` and `_dependencies`; Release is `_release` and `_finished` of `run_all`,
--     over one slot per task; Dispatch is `_pump` and the loop over finished futures, whose states
--     are the relation Reached. Run goes from the machines to that loop. Whether a marker is older
--     than a dependency's comes with each event, and so does which futures have ended.
--   * AssetState/: the record of src/artifact_engine/core/asset_state.py, and its use in
--     `run_all`.
--   * Outputs/: src/artifact_engine/core/outputs.py. Record is `_safe`, `_read` and `_write`;
--     Settle is `_current`, `_bootstrap`, `note` and `settle`; Retire is `retire`; Rounds is what
--     one round of their loops does to the files. Due and Retire/Named say which files are to go.
--   * Consolidation/: `plan_units` of src/artifact_engine/core/consolidate.py, and `_labels_for`.
--     Once counts the machines and runs in the units, Merged is about what is folded into one.
--   * Lateral/: of src/artifact_engine/core/lateral.py, the edge and `_mark_brute_success`
--     (Brute), `_pair_times` (Pairs) and `_find_chains` (Chains, with Chains/Pivot for what a chain
--     is to be); the times of edges are of any type with an order (Clock), since the source has
--     floats.
--   * WebShard/: `ranges` and `in_order` of src/artifact_engine/handlers/_webshard.py; the pool
--     is a queue whose results are taken from the front, and the number of workers a parameter:
--     with none, the pool is not made.
--   * Procs/: `tree` of src/artifact_engine/core/procs.py; when a process was created is a
--     function.
--   * Retired/: `sweep` of src/artifact_engine/core/retired.py, on top of `retire`, with the
--     folders of a case in one list; what is logged is left out.
--   * NetClass/: src/artifact_engine/core/netclass.py, whole but what it logs. Declared reads a
--     scope straight from the entries.
--   * Detection/: src/artifact_engine/core/detector.py, and the profiles of
--     src/artifact_engine/models.py. Profiles is `_clause_matches`, `_profile_matches`,
--     `_resolve_name` and `_collect_volumes`; Walk is `detect_machines`, a folder named by its
--     names from its own up to the root's, `matched` a list without order; Displays is
--     `assign_display_names`, Displays/Called what the machines are to be called, and Drops is
--     `name_evtx_drops`.
--   * Registry/: src/artifact_engine/registry.py, whole; reading and validating a manifest are
--     parameters.
--   * ConsoleGroups/: src/artifact_engine/core/console_groups.py, whole.
--   * Prelude/: tests on native numbers, lists, texts as code points, sets, sorting.
--
-- Conventions: a text that the code walks is its list of code points (Prelude/Chars), a text that
-- it only compares is a String; a dict is an association list in insertion order, or is read at a
-- key; a frozenset is a list without repetition; an exception is a value.
--
-- Parameters, for code of the interpreter and its libraries: `str.lower` character by character,
-- with ASCII as documented (Unicode); its one rule that depends on context, the final sigma, is not
-- covered. `str.casefold`. What `re` makes of a character under the flags of a regex (Engine), and
-- what it finds (Search). `str.strip`, `str.upper`, the snapshot suffix and decimal digits in
-- ConsoleGroups. For Outputs: which names stand for one file, `str.casefold`, `str.isdigit`, `int`
-- and `str` (System), and likewise for Consolidation, with paths (Builtins), and for Retired, with
-- globs (Globs); each file has one stamp, and what an attempt to remove it leaves comes with it.
-- Addresses and networks (Addresses).
-- The times of markers (Markers); the fingerprint of a parser and the digest of lists are given
-- texts. For Detection: the tree as `os.walk` and `Path` show it and
-- what `re` finds (Tree), `str` of a number and decimal digits (Digits), and the rows of the tables
-- of events (EventTables); a pattern for a machine's name has a group. Operands that the
-- prefilter's reader skips have any meaning (Meaning).
--
-- Fuel: the reader gets five steps for each token and five more, since between two tokens that it
-- consumes it goes down at most five calls; the recursions of `_topo_order` and `_levels` get one
-- step for each parser and one more, since each call but the innermost sees a parser not seen
-- before; `_finished` gets a round for each task and one more, since a task enters its stack when
-- it is accounted, and `_pump` a round for each task, since each round hands one to a pool. A label
-- of a volume is tried once for each label seen, and once more; the slices of a timeline take at
-- most a round for each byte, since each is longer than nothing; `in_order` takes a round for each
-- part; the search for processes takes a round for the first and one for each child that is named,
-- since no child is found twice. The walk over the tree needs no fuel: its depth is bounded by
-- `max_depth`. The limit that the interpreter sets on recursion is not modelled.
--
-- Not modelled: in sigma_prefilter.py the tokenizer and the match on the SELECT in front of the
-- condition; in scheduler.py the progress output and what is written into run.json; in
-- asset_state.py the digest of the lists and which lists a parser reads; in consolidate.py
-- everything but `plan_units`; in lateral.py the rows that become edges, the names of nodes and the
-- page; in procs.py the calls of the operating system; in detector.py `prepare_evtx_drops`; the
-- other modules of src/artifact_engine, which extract, run tools, write tables and serve reports.
pub mod Prelude
pub mod SigmaPrefilter
pub mod RegexLiterals
pub mod Scheduler
pub mod AssetState
pub mod ConsoleGroups
pub mod Outputs
pub mod Consolidation
pub mod Lateral
pub mod WebShard
pub mod Procs
pub mod Retired
pub mod NetClass
pub mod Detection
pub mod Registry
