-- ===== src/Lib.antt =====
-- The runtime helper of Clamp, runtime/templates/runtime_metadata.py: the Python program by which
-- the setup scripts read the runtime lock and the release manifest, inspect archives and check
-- credential exchanges before anything is installed or run.
--
-- The program is a set of commands. `lock` reads the runtime lock (parse_lock), `manifest` reads
-- the release manifest and picks the record for one target (parse_manifest), `extract` inspects
-- an archive against that record's inventory (archive_entries) and writes it below a new
-- directory (extract_archive), `credential-helper` passes Git's credential exchanges through a
-- filter (setup_credential_helper), `preflight` looks at the machine (local_preflight),
-- `verify-amp` at Amp's place below the home directory (verify_amp), `private-dirs` makes
-- directories below it (private_directories), `install` moves a runtime into place (install),
-- `cache` keeps a manifest (cache), and `enroll-amp` records the Amp executable that a
-- repository has qualified (enroll_amp); `qualify-amp` runs Amp first (bounded_output), lets Git
-- ask its remote through it (check_amp_remote), and then enrolls it (qualify_amp).
-- All metadata are read by read_regular, and JSON goes through parse_json.
--
--   Prelude, Prelude/Results  shared names, tests, lists; exceptions as values
--   Text, Utf8, Regex         Python's str, bytes and re, as far as the program uses them
--   Patterns                  the module-level patterns, as data for the model of re
--   Json                      pairs, bounded, parse_json, exact
--   Paths                     the limits, MANDATORY and valid_path
--   Lock                      release_base and parse_lock, in its two formats
--   Manifest                  parse_manifest
--   Archive                   archive_entries
--   Extract                   extract_archive
--   Credential                valid_credential_protocol
--   Process                   bounded_output
--   Helper                    setup_credential_helper
--   Qualify                   run_amp_version, check_amp_remote and qualify_amp
--   Repository                source_repository and verify_digest
--   Version, Preflight        version_tuple and local_preflight
--   Posix                     os.path
--   Trust                     verify_trusted_chain and verify_amp
--   Amp                       amp_version_result, verify_amp_version and pinned_amp_path
--   Directories               private_directories
--   Enroll                    enroll_amp
--   Install                   installed, rename_noreplace and install
--   Cache                     cache
--   Arguments                 the table at the end of the file
--   Os, Files                 system calls; read_regular, amp_digest, open_amp,
--                             amp_digest_descriptor
--
-- Texts and bytes are lists of numbers. An exception is the error of a Result: `exit` is the
-- SystemExit of fail, and the others are what the library raises through the code. What print
-- writes is the list of its lines. System calls answer by arbitrary functions of the calls made
-- before, so that the theorems hold whatever other processes do in between; the scanner of
-- Python's json module, hashlib, tarfile, subprocess, selectors, the clock and int are parameters.
-- The scanner gives the tree that it reads, in reading order, with the place where it gives up,
-- since the hooks of parse_json run while it reads.
--
-- Loops recur on their data. read_exactly takes as fuel the number of bytes that remain: each
-- round reads one at least; so do the loops of extract_archive, which copies a member, and of
-- enroll_amp, which writes the record. A member of negative size is read without end, until a read
-- gives nothing, which is a failure; its fuel is a number of reads, a field of Library. climb, the
-- loop of verify_trusted_chain, takes the length of the path, since a directory's path is shorter.
-- The rounds of a starred pattern are bounded by the length of the text, since each must consume
-- something. amp_digest reads until the end of the file; its fuel is a number of reads, one more
-- than there are reads that give something.
--
-- bounded_output takes the fuel of its two loops as an argument. The loop that reads needs a round
-- for each byte that it may read and for each byte of the input, and two more; the one that waits
-- for the process needs at most one for each nanosecond that is left, and one more, since each
-- sleeps for a while. To run out of fuel is the error out_of_rounds, which no handler of the
-- program catches. What a run has read of a pipe is the function `heard` of the history of its
-- calls (Os/Heard), by which the text that is returned is told from any other. The selector is made
-- behind the start of the process and in front of the `try`, as the source has it.
--
-- In extract_archive, what archive_entries calls counts as one call, and os.walk lists its tree at
-- once, where the library lists it directory by directory.
--
-- Not modelled: that the call which Arguments selects is made; the calls are the functions of the
-- other modules. The OCaml program, the Telegram bridge and the shell scripts are other programs.
pub mod Prelude
pub mod Text
pub mod Regex
pub mod Patterns
pub mod Utf8
pub mod Json
pub mod Paths
pub mod Lock
pub mod Manifest
pub mod Archive
pub mod Credential
pub mod Os
pub mod Files
pub mod Repository
pub mod Version
pub mod Preflight
pub mod Posix
pub mod Trust
pub mod Amp
pub mod Directories
pub mod Enroll
pub mod Install
pub mod Cache
pub mod Extract
pub mod Process
pub mod Helper
pub mod Qualify
pub mod Arguments
