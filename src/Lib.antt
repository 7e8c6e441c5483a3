-- ===== src/Lib.antt =====
-- decloud deploys web services on one host: it builds a docker image, replaces the service's container,
-- waits until it answers, records it in a registry, and has Caddy route the service's hosts to it.
--
-- The program's parts, and the files here that model them:
-- - internal/deploy/service.go, Deploy: Deploy/Service.antt, stage by stage in the order of the source
--   (prepare, clear_old, run_new, await_ready, save_registration, regenerate_and_reload), with its
--   requests in Deploy/Requests.antt and its errors in Deploy/Failures.antt. What Deploy calls is the
--   record Dependencies of Deploy/Interface.antt, which newServiceDeployer of Deploy/Constructor.antt
--   makes, over a world W that each call changes: Driver, Store, Capturer, Generator, Reloader, the
--   probe, the clock, the deploy ids and package os. A context is the caller's or one of
--   newCleanupContext. Log lines and output writers are left out.
-- - internal/deploy/lifecycle.go: Deploy/Lifecycle.antt, one function per method.
-- - internal/deploy/readiness.go, Wait: Deploy/Readiness.antt, over a Prober that answers for the
--   driver's ContainerIP, the HTTP client, the clock and the select. Its loop runs on fuel, one unit for
--   each round; with f intervals longer than the timeout, f + 1 rounds are enough.
-- - internal/registry/mount.go and types.go: Registry/Mount.antt and Registry/Types.antt.
-- - internal/registry/store.go: Registry/Files.antt (the calls of os, the paths, writeAtomic) and
--   Registry/Store.antt (the methods). Deploy/Stored.antt and Deploy/Registered.antt join the store with
--   the deployment; Deploy/Caddyfile.antt and its children join both with the generator and the stub, down
--   to the text of the Caddyfile on disk.
-- - internal/registry/errors.go and the other sentinels: Errors.antt, with fmt.Errorf as a list of
--   pieces, errors.Is and the text of an error.
-- - internal/dockerdrv/driver.go and cli_driver.go: Docker/Types.antt, Docker/Args.antt (the arguments
--   of docker run) and Docker/Cli.antt (every method, over a Shell that runs `docker`).
-- - internal/envcap/capture.go: Envcap/Dump.antt and Envcap/Capture.antt.
-- - internal/caddy/generator.go and manager.go: Caddy/Generator.antt and Caddy/Manager.antt.
--   Caddy/Generator/Reader.antt is no part of the program: it reads the Caddyfiles that the generator
--   writes, site by site, and RoundTrip and Routes beside it compare the two; Blocks does
--   without it.
-- - internal/caddy/reloader.go and stub.go, and the generator's writeFileAtomic: Caddy/Reloader.antt and
--   Caddy/Stub.antt.
-- - internal/config/paths.go: Config.antt. internal/logging/logging.go: Logging.antt.
--   internal/ids/ids.go: Ids.antt, with the layouts of the package time in Clock.antt.
-- - internal/cli/deploy_service.go: Cli/DeployCommand.antt (from flags to the request) and
--   Cli/Production.antt (the parts of the program over one System). internal/cli/status.go:
--   Cli/StatusCommand.antt. internal/cli/exit_codes.go: Cli/ExitCodes.antt. The other commands,
--   internal/cli/root.go and cmd/decloud/main.go: Cli/Commands.antt.
--
-- The calls of os are the record Files of Os.antt. Os/Laws.antt says what os documents of them, by the
-- content and the permission bits at each path; Tests/Memory.antt has a file system in memory that does so.
-- Base/Path.antt is path/filepath on Unix: Clean, Join, Dir, Abs and Rel; Base/Path/Clean.antt reads a
-- clean absolute path as a list of names, which is how the theorems on files keep paths apart.
-- Registry/Store/Change.antt says how the store changes a map from names to services; Layout, Held, Frame,
-- Saved, Removed, Refines and Listed beside it have the proofs. The production probe has two rounds more
-- than intervals fit into the timeout.
--
-- A method that acts on the world is a function of type M W A of Exec.antt: it returns its result or
-- its error together with the world, so that what was done before an error stays done. Exec/Triple.antt
-- has the rules for reasoning about such methods on both ends. Deploy/Trace.antt wraps any dependencies
-- so that they log their calls, the latest first; the theorems on the order of calls hold for every
-- environment. Deploy/Host.antt says what docker does to containers, as the theorems on what is left
-- running rely on it. Strings are lists of bytes, a Go map is the list of its entries, and an int is an
-- integer without a bound: the program computes nothing from its integers but the seconds of a timeout.
--
-- Not modelled: Cobra, which parses the command line and gives a value of the type Command; the layout of
-- text/tabwriter and the records of log/slog; signals other than through the errors of a context. The
-- decoders of TOML and JSON, net.ParseIP, net/http and os/exec are outside the program and enter as
-- parameters.
pub mod Base
pub mod Errors
pub mod Exec
pub mod Registry
pub mod Ids
pub mod Config
pub mod Os
pub mod Clock
pub mod Logging
pub mod Docker
pub mod Envcap
pub mod Caddy
pub mod Deploy
pub mod Cli
pub mod Tests
