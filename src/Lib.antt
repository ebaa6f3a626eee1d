-- ===== src/Lib.antt =====
-- dewy: a daemon that watches a registry for the latest version of an application and deploys it, as
-- a server process, as assets, or as containers behind a TCP proxy.
--
-- The parts, the files that model them, and how they meet:
--
-- * Registry. The registries list names; registry/semver.go and registry/calver.go choose the latest.
--   Registry/Atoi, Registry/Print and Registry/Pattern model what the source uses of strconv, fmt and
--   regexp. Registry/PreRelease is registry/version.go (`compare_pre_release` is comparePreRelease).
--   Registry/SemVer is registry/semver.go (`parse_sem_ver`, `compare`, `string`,
--   `find_latest_sem_ver_with_slot`), Registry/CalVer is registry/calver.go (`new_cal_ver_format`,
--   `parse`, `compare`, `find_latest_cal_ver_with_slot`), and Registry/Latest is the loop that both
--   searches share. Registry/Cached is registry/cached.go: one call of Current, against a shared cache,
--   a clock and a registry that are functions on a world which other instances may change.
--   Registry/Platform is registry/platform.go. Registry/Backends has the `current` of the back ends:
--   Github (registry/ghr.go), S3 and GoogleStorage (registry/s3.go and gs.go, which share
--   Registry/Backends/Objects), and Oci (registry/oci.go). The services are parameters.
-- * Lifecycle. One tick of the server and assets commands: Lifecycle/Phases has a function for each
--   phase of lifecycle.go and for deploy, preserve, startServer and restartServer of release.go, and
--   `run` is Run of dewy.go. Lifecycle/Outside has the state, the trace of what is done, and the
--   answers of the world (registry, cache, downloads, file system, starter), which may be anything.
--   Lifecycle/Releases is the pruning of old release directories. Lifecycle/Containers is one tick of
--   the container command: `run_container` is RunContainer of dewy.go, with the container phases of
--   lifecycle.go and with container_deploy.go; Lifecycle/AppName is app_name.go.
-- * Notifier. The error limiting sender and New of notifier/notifier.go; Notifier/Limits has its
--   specification.
-- * Cache. Cache/File is cache/file.go, with validateKeyPath and the paths of path/filepath in
--   Cache/Paths; the operating system is a parameter. The tick of Lifecycle takes any cache.
-- * Container. Container/Deploy is container/deploy.go: a rolling deployment over a CLI whose answers
--   may depend on all commands before; Container/Ports and Container/Stop are the two operations
--   beside it. Container/Runtime is the part of container/runtime.go that
--   checks the arguments of the user and builds the command line. Container/Images is container/image.go,
--   with the login of container/credentials.go; Container/HealthCheck has the loops of the health checks,
--   and Container/Inspection what container/inspect.go reads in the output of the CLI.
-- * Proxy. The backends of each proxied port, proxy.go and proxy_backend.go, which the deployment
--   changes through the interface BackendUpdater, which Proxy/Updater fills.
-- * Common has lists, texts as lists of bytes, and Go's int; Order has orders and their combination.
-- * Tests runs the code on concrete inputs.
--
-- Bounds and fuel: an int is 64 bits wide and its subtraction wraps around. The loop over a format
-- in Registry/CalVer/Format takes at least one byte each round, so the length of the format is
-- enough. The loop of Current in Registry/Cached is given a number of rounds, since a conflict may
-- send it round for ever. The loop over the pages of GitHub is given a number of rounds too: one more
-- than the number of the last page is enough. The loop over the tags of an image repository has a
-- bound of its own, a hundred pages.
--
-- Not modelled: locks between goroutines (each operation is one step), logging and telemetry except
-- the decision to record, contents of notifications, the clients of remote services, the command
-- line, the JSON of the container CLI, and the time of a response. The HTTP requests of an image
-- repository are numbered, so that no two answers need be the same; the token after an error is not
-- looked at. Symbolic links are not followed: a path is what is left of it when it is cleaned. The
-- extraction of archives and the caches in cloud storage are left out. The order in which
-- sort.Slice leaves images of the same time is open: the sort is a parameter of Container/Images.
pub mod Common
pub mod Order
pub mod Registry
pub mod Tests
pub mod Proxy
pub mod Cache
pub mod Container
pub mod Lifecycle
pub mod Notifier
