-- ===== src/Lib.antt =====
-- Models of douglas, a daemon that runs containers on one host and supervises, upgrades and rolls
-- back itself.
--
-- The parts and their files:
--   Blueprint            blueprint/src/lib.rs, blueprint/src/bootstrap.rs: commands with `run` and
--                        `rollback`, the executor that journals them (Executor), plans (Plan), the
--                        history (History). A boxed command is a record of functions over a state
--                        of its own, the context is passed along.
--   Upgrade              src/bootstrap/upgrade.rs: `discover` and `create_plan` (Plan), the steps
--                        that change files (Steps), `ConfirmHealthy` (Health); Rollback is
--                        src/bootstrap/rollback.rs.
--   StagedCopy           src/bootstrap/staged_copy.rs, which the steps install files with.
--   Installation         src/bootstrap/compatibility.rs and src/bootstrap/journal.rs: the install
--                        marker that guards a start, and the journal of an upgrade.
--   Retention            src/bootstrap/retention.rs: which earlier binaries are kept, and which one
--                        a rollback goes to. Version is the version of src/verify.rs with its text.
--   Release              release/src/lib.rs: the metadata of a release, what stops a start, how two
--                        releases differ, and the block behind a binary (Trailer).
--   Woodward             woodward/src/lib.rs and heartbeat/src/lib.rs: the tally of one supervised
--                        service (Tally), and a check of it (Check).
--   Seedbank             seedbank/src/lib.rs and the types of seedbank_types/src/lib.rs: the ids
--                        (Ids) and the operations on the seedlings (Operations).
--                        HealthLogs is about the logs of failed health checks.
--   Bract                bract/src: the accounts of the seedlings on the host
--                        (Rolodex: rolodex/mod.rs and rolodex/naming.rs), and the blueprints
--                        blueprints/stop_seedling.rs, blueprints/start_seedling.rs and
--                        blueprints/watchdog.rs (StopSeedling, StartSeedling, Watchdog), over the
--                        containers of blueprints/mod.rs and blueprints/container_steps.rs
--                        (Containers).
--   Resin                resin_types/src and resin/src, the image registry: names (Names),
--                        repositories and their folders (Repositories), the list of them
--                        (Repositories.Listing is repository_store.rs), the pages of tags (Tags is
--                        tags.rs), the digests and the files of blobs (Digests, Blobs:
--                        digest.rs, blob_paths.rs), and the uploads of blobs (Uploads with
--                        their map Registries is blob_uploader.rs; Uploads.Machine has its
--                        requests as steps), and the files of tags (TagStore is
--                        tag_store.rs).
--   Maps                 a hash map as an association list.
--   Strings              refined_string/src/lib.rs: texts that a pattern admits.
--   Stateful             operations that may fail, over a state, and their composition.
--   Host, Disk, Files    file_system/src/lib.rs: the operations on files, their errors; Disk and
--                        Paths are the file system and the paths that they stand on.
--   Base, Text, Sort     shared names and lemmas, strings as lists of codes, and a stable sort.
--   Tests                runs at concrete inputs.
--
-- How they interact: an upgrade retains the running binary under its Retention name by a
-- StagedCopy, installs the new one over it, and restores the retained one when a later step fails.
-- It is planned by the differences of two Releases, and a start is stopped by the conflicts of a
-- Release with the marker of Installation. The steps of a plan are run by the executor of Blueprint.
-- The watchdog of Bract reads the desired status and the health logs of Seedbank and the containers
-- of the docker daemon, and runs a plan of steps that start, stop and check seedlings. The rolodex
-- keeps its records in files of Host and takes the accounts of the host through the interface
-- Credentials, which Bract.Rolodex.Directory gives laws.
--
-- How the state and the environment are modelled:
--   * A `&mut self` or a file system is a value that is passed in and returned. A call that may fail
--     takes its answer from a list in the state (Host.Answer, also in Seedbank), so that every
--     failure at every call is some list; a call beyond its end goes well. A failed write may leave
--     some bytes behind.
--   * A reading of the clock is an argument: nanoseconds in Woodward, milliseconds in
--     Upgrade.Health. In Woodward a Tick holds all that the host answers during one check, and the
--     rounds of a service are a list of ticks.
--   * A `u8` is a natural number with `% 256` written out where the source adds, as in a release
--     build, and the `u64` offset of an upload one with `% 2 ^ 64`. An exit by overflow is not
--     modelled.
--   * A `BTreeMap` is a list in the order of its keys, a `HashMap` an association list.
--   * serde_json is a parameter (Release.Trailer.Json) with its round trip as the one law.
--   * The docker daemon is a list of containers; each call of it takes its answer from a list in the
--     daemon, as the calls of Host do. SHA-256 is a parameter, and so are the text of a uuid, in
--     StartSeedling what the discovery reads of mounts, images and accounts (Surroundings), in
--     Watchdog the whole of reconcile_seedling, in Resin.Repositories the entries of a folder, and in
--     Resin.Tags whether a text parses as the value of a header and how a query is read.
--   * A text of Resin is the list of its codes. The patterns of refined_string are written out as
--     functions on it.
--   * The requests to the uploads of Resin are steps of a machine in any order. A request that writes
--     a chunk begins, appends and ends in steps of their own, or is lost, and a panic under the lock
--     is a flag in the state that every later request finds.
--   * Messages, spans and the words of an error are left out; an error keeps what it carries.
--
-- Bounds: recursion is on lists, on the number of polls, which is 10000 / 1000 + 1 = 11, on the 4096
-- ids of the seedbank and on the 16 attempts of the rolodex, which are the source's own bounds. Fuel
-- is used in Resin.Tags: the client that follows the links has one request more than there are tags,
-- and the text of a `usize` 20 digits, as 2 ^ 64 is below 10 ^ 20.
--
-- Not modelled: reconcile_seedling and the other blueprints of bract (new, drop, deadwood, secrets,
-- routes, logs), the proxied blobs and the handlers of resin, the steps of the upgrade that start and
-- stop services and their processes, the clients of docker and openbao, the servers and their
-- sockets with the errors of the transport, the commands that create accounts, the log, the command
-- line. They are I/O around what is modelled here, or are not done yet. The signature check of
-- src/verify.rs is a library's.
pub mod Base
pub mod Blueprint
pub mod Bract
pub mod Disk
pub mod Files
pub mod Host
pub mod Installation
pub mod Maps
pub mod Paths
pub mod Release
pub mod Resin
pub mod Retention
pub mod Seedbank
pub mod Sort
pub mod StagedCopy
pub mod Stateful
pub mod Strings
pub mod Tests
pub mod Text
pub mod Upgrade
pub mod Version
pub mod Woodward
