-- ===== src/Lib.antt =====
-- hacman: a program that reads one project file (SIML), decides by its schedule and its cache
-- record whether there is anything to do, does it, and hands over to the project's program.
--
-- Parts and files:
--   * Base, with Tests, Lists, Strings, Int and Digits: numbers, lists, byte strings, signed
--     integers, digits in a base. A byte string stands for an `hm_str` (pointer and length) or for the text of a char array in
--     front of its NUL; pos and negsuc for a C `long`.
--   * Util (src/util.c, and the buffer writers of src/cache.c): Text has the comparisons and the
--     copy, Number the digit loops and `hm_parse_ulong`, Buffer the bounded appends, Output the
--     prefix of the lines on stderr, Format `hm_vformat` and the buffer of `hm_out`, Hash
--     `hm_hash_hex` with `hm_version` of src/version.c, Source `open_source` and the read loop of
--     `hm_read_all`.
--   * Project (src/hacman.h): the types and limits of a project.
--   * Schedule (src/config.c): `hm_sched_describe` and `parse_schedule`.
--   * Config (src/config.c): State is `hm_cfg` and the errors, Path the path tests, Template
--     `expand_template`, Fields `apply_field`, Entries the functions that add a file, a directory
--     or a program name, Finish `begin_project` and `finish_project`, Events the loop of
--     `hm_config_parse`, one function for each case of its switch, and Lines the cursor over a
--     block with the writers of src/install.c that use it. Invariant holds what is true of a
--     project between two events and at the end.
--   * Cache (src/cache.c): Record is `hm_cache`, the text that `hm_cache_save` writes and the parse
--     in `hm_cache_load`; Load is the rest of `hm_cache_load`, with its read loop; Place is
--     `hm_cache_dir` and `hm_cache_init`, with `hm_identity_build` of src/identity.c; Save is
--     `hm_cache_save` and Lock `hm_cache_lock`, with the walk over the processes above this one.
--   * Check (src/check.c): `hm_check` and what it reads from a response.
--   * Main (src/main.c): Words and Options are `parse_env_words`, `parse_arg_list` and `parse_args`,
--     Due is `is_due`, Duration `fmt_duration`, Run is main from `hm_cache_load` on, with the
--     functions it calls, and Start is the part of main in front of it.
--   * Install (src/install.c): Tree is `remove_tree`, Files is `hm_workdir_ensure` and
--     `hm_materialize_files`, Child the forked child of `hm_install` and of `hm_command_run`, and
--     Setup the process that waits for it, with its temporary files.
--   * Unpack (src/unpack.c): `hm_unpack`, with its walk and its exclusive creation of each file.
--   * Sandbox (src/sandbox.c): the Landlock rules, and the calls that enforce them.
--   * Plan (src/plan.c): the lines of `hm_plan_print`.
--   * Environment (src/env.c): `hm_env_get`.
--   * Stamp (tools/stamp.c): Slot is the search for the slot in an ELF file and its fields, Stamp
--     itself `stamp`, `check` and `save`.
--   * Tests: runs at concrete inputs.
-- A parse fills the `Project` that Main decides on; Main loads a `Cache`, changes it and saves it.
-- In Main the calls of Install, Cache.Lock and Cache.Save are answers; those modules say what each
-- call does. Child uses Sandbox, Plan and Install.Child share the names of the variables.
--
-- State is passed explicitly. A C function that returns -1 after a message gives `none`, `err` with
-- the message, or `failure`. What the kernel, the network and the project's own scripts answer is
-- an input: the `Events` of the SIML parser (third-party code), the `Answer`s of `read` and of
-- `write`, the `Outside` of a run, which logs its calls as `Action`s in their order, and for each
-- part of Install, Cache and Sandbox a record of its answers. A file system is a function from paths
-- to contents; the places of a directory that is removed are a tree.
--
-- Bounds and fuel: an `unsigned long` has 64 bits and wraps (`ulong_mod`), a number is written
-- with at most 24 digits, and a conversion to `long` or `int` keeps the low bits. The loops on
-- fuel (`expand_from`, `lines_from`, `read_words`, `last_from`, `write_lines`) take at least one
-- byte in each round and get the input's length. Times are `long`s that do not overflow.
--
-- Not modelled: the SIML parser and xxHash (vendor/); `run_curl` of src/check.c, `make_temp` and
-- the relaying of output and signals in src/install.c, which only the kernel can answer; the texts
-- of messages, with `hm_err` of src/util.c; and of <elf.h> only the names of its numbers are used,
-- which are parameters.
pub mod Base
pub mod Util
pub mod Cache
pub mod Project
pub mod Schedule
pub mod Config
pub mod Check
pub mod Main
pub mod Plan
pub mod Environment
pub mod Install
pub mod Unpack
pub mod Sandbox
pub mod Stamp
pub mod Tests
