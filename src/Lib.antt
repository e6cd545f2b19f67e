-- ===== src/Lib.antt =====
-- WinForge tunes a Windows installation: a catalogue of tweaks is applied to the system through an
-- executor, every change is recorded in an append-only log, and the log is what undo reads. This
-- library models the parts that decide what is changed, recorded and put back.
--
-- How the parts interact. The catalogue (internal/config) gives tweaks, lists of typed operations.
-- The orchestrator (internal/tweak/orchestrator.go) reads a snapshot through the executor
-- (internal/tweak/executor.go), decides whether the operation changes anything, calls the executor,
-- and appends an entry to the log (internal/audit/audit.go). Undo reads the log, refuses an entry
-- that was undone, restores the snapshot through the executor and appends an undo record. The
-- health score (internal/tweak/health.go) counts the tweaks that are applied. The application
-- (internal/app/app.go) builds the catalogue from the built-in tweaks and those of the plugins
-- (internal/plugin) and asks for a restore point before a change. The engine (internal/engine) is the
-- executor over Windows: it checks hives, commands and services, and reaches services through
-- internal/service. Packages are installed by winget (internal/appmanager), and
-- internal/updater/github.go looks for a newer release. The dashboard's server (internal/httpapi)
-- checks each request, queues changes as jobs and limits the rate of requests.
--
-- Files and what they model:
--   Prelude, Text, Decimal, Errors   shared types; texts are lists of code points, errors are values
--                                    with a constructor for each place that makes one
--   Config, Config/Json, Values      internal/config/models.go: Tweak, Operation, DwordValue,
--                                    StringValue, QwordValue, BoolValue, ProcessorStateValue, ...
--   Config/Validate                  internal/config/models.go, limits.go: validateOperation and its
--                                    limits
--   Config/Catalogue                 Validate, checkLimits, ValidateRisk, displayName
--   Config/Lists                     Validate of AppsConfig, DnsConfig and ProtectedServices
--   Service                          internal/service/service.go: StartMode, String, ParseStartMode
--   Service/Io, Scm, Control         internal/service/service_windows.go: start, stop, setStartMode,
--                                    waitForState, ...; Polling and Outcome have their proofs
--   Power                            internal/power/power.go: aliases, Resolve, isGUID
--   Power/Guid                       internal/power: guidParts, fromWin32GUID
--   Power/Plans                      internal/power: List, Active, SetActive, GetProcessorState, ...
--   Audit/Entry                      internal/audit/audit.go: Entry, and the log as its clients see it
--   Audit/Store                      Append, logSegmentPath, readAuditDirectory, pruneLocked
--   Audit/Reader                     ReadAll, readAll, readFile
--   Tweak/Executor, Laws             the Executor interface, and what is assumed of it
--   Tweak/Snapshot                   registrySnapshot, formatProcessorState, parseProcessorState, ...
--   Tweak/Effect, Capture, Apply     Effect, Result, applyOp, execUnary
--   Tweak/Orchestrator               Apply and record
--   Tweak/EntryCheck, UndoEntry      validateCapturedEntry, ...; UndoEntry, restoreEntry
--   Tweak/Revert                     Undo
--   Tweak/Verify                     CanVerify, IsApplied, EnsureApplied
--   Tweak/Health                     ComputeHealth
--   Tweak/Preserved                  what the executor's calls keep, Apply, Undo, UndoEntry and
--                                    EnsureApplied keep
--   Engine                           internal/engine/executor.go: the service operations and their
--                                    guard
--   Engine/Executor                  internal/engine/executor.go, command_windows.go and
--                                    internal/registry/registry.go: the Executor of the engine;
--                                    Registry and Settings show the laws of Tweak/Laws of it
--   Http/Jobs                        internal/httpapi/server.go: startJob, the goroutine of a job,
--                                    truncateUTF8, pruneJobs
--   Http/RateLimit                   internal/httpapi/ratelimit.go: allow, sweepLocked; Sweep and Clients
--                                    have the proofs over a limiter with many clients
--   Http/Gate                        internal/httpapi/server.go: ServeHTTP and the checks it makes
--   ProcOut                          internal/procout/procout.go: boundedBuffer
--   AppManager                       internal/appmanager/manager.go: ids and search texts
--   AppManager/Search                parseSearchIDs, searchIDColumns, displayColumnSlice, ...
--   AppManager/Report                collectReportOutput, report, Install, Uninstall, Search, ...
--   Updater, Updater/Release         internal/updater/github.go: CheckForUpdate, CheckGitHubRelease
--   Maintenance                      internal/maintenance/maintenance.go: ValidateFeatureName,
--                                    ValidateDnsServers, parseProvisionedPackages, ...
--   Plugin, Plugin/Discover          internal/plugin/plugin.go: readPluginFile, load,
--                                    DiscoverWithOptions, MergeTweaks
--   App                              internal/app/app.go: newApp's catalogue, EnsureRestorePoint,
--                                    CreateRestorePoint
--   App/Operations, History          Apply and Undo; History and UndoEntry
--   App/Health, Maintenance          AppliedMap, Health; RunMaintenance, ScheduleMaintenance, ...
--   App/Packages                     InstallPackage, SearchPackages
--   App/Requests                     sequences of the calls of App that change the system
--   Tweak/Sample, the Tests modules  a system in memory and the theorems at concrete inputs
--
-- What is assumed. The operating system is an Executor; RegistryLaws and SettingLaws say that a read
-- returns the value that is there and that a write without an error puts the value there, and that a
-- REG_EXPAND_SZ read as a string comes with its variables expanded, as registry_windows.go asks for it.
-- Tweak/Sample has an executor of which they hold, and Engine/Executor/Registry and Settings derive
-- them for the engine's executor from what the calls of Windows do. Unicode case mapping is an instance
-- argument. The JSON encoder and decoder, the test for valid UTF-8, time formatting and
-- the text of a new id are arguments. The rate limiter counts in exact fractions of a token, where the
-- source has a float64, and the age of a restore point is counted in whole seconds. A line of the log is
-- one list, read as bytes by the limits and as characters by the trimming of blanks.
--
-- The Service Control Manager is the record Scm, over a state in which services go on by themselves;
-- its clock does not run backwards over a query, and a sleep takes at least 100 ms. The calls of
-- Windows that the engine makes are the record Windows, winget is the record Winget, the HTTP client
-- and JSON are the record Client, and the functions of net and net/url are the record Net. The tables
-- of unicode for characters without a width, and the parser of addresses, are instance arguments. A
-- plugin's files are the record Files, and package json and the script runtimes the record Host. The
-- clock and the making of restore points are the record RestorePoints, the Task Scheduler the record
-- Scheduler. powercfg and the power API are the record PowerApi, of which PowerLaws says what is used.
--
-- Recursion is structural throughout. The loop of Append over segments counts down from 10000, and
-- the loop of start from 16, as the source's loops do. The polling loops have 1202 rounds: a round
-- takes 100 ms at least, and the deadline is two minutes away. The search for the columns of a table
-- has one round more than the line has characters, and a round takes one character at least.
--
-- Not modelled: calls of Windows, the network and child processes; the command line, the web
-- dashboard, the runtimes of plugins, Windows Update, the ISO builder and the making of restore
-- points; faults of the file system under the log; and interleavings inside a call that holds a
-- mutex.
pub mod Prelude
pub mod Text
pub mod Decimal
pub mod Errors
pub mod Config
pub mod Service
pub mod Power
pub mod Audit
pub mod Tweak
pub mod Http
pub mod Engine
pub mod ProcOut
pub mod AppManager
pub mod Updater
pub mod Maintenance
pub mod Plugin
pub mod App
