-- ===== src/Lib.antt =====
-- The dynamic credential provider: a kubelet credential provider plugin that asks other such
-- plugins for the credentials of an image and, with a mirror configured, for those of the mirror.
--
-- The parts, and the files that model them:
--
-- Api, Apiversions, Kubernetes, Dynamic/Provider
--   The API types of apis/config/v1alpha1 and of the kubelet, the table of
--   pkg/credentialprovider/dynamic/apiversions, and the interfaces to the Kubernetes codecs and to
--   a plugin. Two versions of a response are one record here; their conversion is a parameter.
-- Urlglobber
--   pkg/urlglobber: Url has ParsePotentiallySchemelessURL, Matcher has SplitURL, URLsMatch and
--   URLsMatchStr (`split_url`, `urls_match`, `urls_match_str`), Globber has GlobbedDomainForImage.
-- Dynamic
--   pkg/credentialprovider/dynamic: Select has getCredentialsForImage of dynamic.go, loop by loop,
--   Response has GetCredentials and the mirror's part, Register has NewProviderFromConfigFile and
--   the registration; Plugin and Executor have plugin_executor.go, the provider over a plugin and
--   the run of its binary. A registered plugin is what Select asks, through `Provider`; Whole puts
--   the two together, Response/Caching looks at the duration of the answer, Response/Agree at
--   providers that answer alike, Response/Returns and Select/Answers at when there is an answer,
--   Response/Strategy at the strategies, Register/Origin at where a registered plugin comes from,
--   and Register/Admitted at the registration of what the webhook admits.
-- Plugin, Static
--   pkg/credentialprovider/plugin/plugin.go, which the kubelet runs: it reads a request, asks a
--   `CredentialSource` and writes the response. Both the dynamic provider and the static one
--   (pkg/credentialprovider/static) are such a source.
-- Install
--   pkg/install/install.go: Files is the file system with the errors of each call, Compare has
--   destinationUpToDate, Copy has copyFileAndPermissions, Run has the configuration and Install.
--   Compare takes a file as the list of its reads; Compare/Loop has the loop over two open files,
--   `compare_loop`, and relates it to that. Whole is the installation from end to end,
--   Atomic what one that fails leaves, and Again a second one after it.
-- Webhooks
--   pkg/webhooks: Validation has validateCredentialProviderConfig, Webhook has the handlers.
--   Validation/Checks has the checks one by one, Validation/Fields looks at the fields that the
--   errors name.
-- Filewatcher, Sync
--   pkg/filewatcher/watcher.go, and cmd/dynamic-credential-provider/sync_config.go: the callback
--   that copies a watched configuration file (`sync_file`), the function that watches one file
--   (`sync_worker`) and the default files. `watch` is the loop as a function of its signals;
--   Filewatcher/System has the loop in an environment that edits files and sends signals between
--   its rounds, as a step relation, and Sync/System a watched file and its copy in it. Sync/Group
--   has the command with a worker for each file: all of them, the interrupt and the environment
--   are one step relation, in which the begin of a worker (Group/Begin) and its rounds overlap
--   with the others'. Group/Seen is each worker's part of it, Group/Ending what the command
--   reports.
-- Commands
--   What the commands get-credentials (cmd/dynamic-credential-provider/get_credentials.go) and
--   static-credential-provider (cmd/static-credential-provider/main.go) run. Exchange has the
--   executor of Dynamic on one side of a pipe and such a program on the other.
--   Loaded goes from the configuration file to the credentials that its plugins answer, Served
--   says which requests get an output, and Chained puts static-credential-provider among
--   the plugins.
-- Api/DeepCopy
--   The deep copies of apis/config/v1alpha1/zz_generated.deepcopy.go, over memory with addresses.
-- Go
--   Models of the functions of Go's standard library that the program uses on texts:
--   strings.Split, net.SplitHostPort and net.JoinHostPort, filepath.Match.
-- Base
--   Texts as lists of bytes, errors and results, maps, integers, Boolean tests.
-- Tests
--   Runs on concrete inputs, and the theorems at such inputs.
--
-- How the code is modelled:
--
-- A text is the list of its bytes. A call that can fail returns a `Result`: a value, a Go error
-- with the errors that it wraps, or a crash, which is a panic or a fatal log entry. A Go map is an
-- association list in the order in which `range` visits it; what depends on that order is said of
-- lists in any order, and the commands visit the plugins in the order of their registration.
-- Durations are integers without bounds. State is passed explicitly: the files of an installation,
-- the state that a watcher's callback works on, the memory of the deep copies. Every loop but one
-- is recursion on the list that it goes over and needs no fuel. The loop that reads two files is
-- recursion on fuel: a read without an error gives a byte at least, so that one round more than a
-- file has bytes left is enough.
--
-- Parameters, each a record of functions with the documented behaviour that a theorem relies on as
-- a named hypothesis: net/url (`UrlLib`), distribution/reference (`ReferenceLib`), the Kubernetes
-- codecs (`Codec`) and conversions (`Convert`, `IsFaithful`), the system calls and copy library
-- under the installation with the writability check (`Os`, `IsLawful`), the execution of a command
-- (`Runner`), the files of the configuration (`ConfigFiles`) and of the synchronisation
-- (`SyncFiles`, `CopiesContent`, `KeepsSource`), what a watch is told by the system
-- (`WatchSystem`), a read of an open file (`Reader`, `Progresses`), the making of a directory
-- (`KeepsFiles`), what the Wait of an errgroup returns (`Errgroup`, `IsErrgroup`), a pair of codecs
-- that understand each other (`IsWire`), an encoder for every response (`EncodesAll`), a writer
-- that takes everything (`IsLossless`), and the deep copy of the kubelet's type.
--
-- Not modelled: logging, command line flags and the trees of the commands, scheme registration, the
-- end to end tests. The single flight around a plugin is the library's: `execute` is what its `Do`
-- returns. The locks of the dynamic provider are left out, since it only changes while it is made.
-- Symbolic links among the files of an installation are left out.
pub mod Api
pub mod Apiversions
pub mod Base
pub mod Commands
pub mod Dynamic
pub mod Filewatcher
pub mod Go
pub mod Install
pub mod Kubernetes
pub mod Plugin
pub mod Static
pub mod Sync
pub mod Tests
pub mod Urlglobber
pub mod Webhooks
