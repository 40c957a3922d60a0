-- ===== src/Lib.antt =====
-- llmfit-dra, a Kubernetes dynamic resource allocation driver for LLM inference: its nodes
-- publish what their devices can do, and a controller turns a ModelClaim into a
-- ResourceClaimTemplate whose CEL selector admits the devices that fit the model.
--
-- Parts, and the files that model them:
-- Resource: the fields of the resource.k8s.io/v1 objects that the program reads. Index: the
-- capability index and the NVIDIA board table of internal/index; the embedded JSON is a
-- parameter of whatever uses a table.
-- ModelClaim/Backend, ModelClaim/Bounds, ModelClaim/Resolver: backend.go and resolver.go. In a
-- pass the answer of the resolver is a parameter (Env.resolver).
-- ModelClaim/Thresholds: migThresholdMiB, migMinSMs and gpuAdmits of nvidia.go, on int64 with
-- its wrap-around (Prelude/Int64). Thresholds/Machine and its siblings are about boards whose
-- products stay in the int64 range.
-- ModelClaim/Cel: CEL expressions, their text and their meaning on a device, with the error of
-- a missing key as a third truth value. Cel/Fit is FitCEL, and Cel/Agrees compares it with the
-- static evaluation. Cel/Nvidia is NvidiaFitCEL: Render has its text as an expression, Groups
-- and Meaning what the groups and the expression stand for, Floor its quantities, Agrees and
-- Counts compare it with EvaluateNvidiaSlices.
-- ModelClaim/Satisfiable: EvaluateSlices (Llmfit), EvaluateNvidiaSlices (Nvidia), their
-- messages, tallies (Tally, with Tally/Matching for what both count) and pool generations. The
-- float64 score that picks the device which a message names is a parameter (Score); no theorem
-- depends on it.
-- ModelClaim/MigProfile, ModelClaim/Event: parseMIGProfile of nvidia.go, and events.go.
-- ModelClaim/Types, ModelClaim/Template: the ModelClaim of api/v1alpha1, BuildTemplate and
-- TemplateNeedsUpdate.
-- ModelClaim/Controller: controller.go. A pass is an action on the controller's own state (the
-- resolve cache, the last events, the log of its calls) that may end in an error (Act); the
-- answers of the API server, of the informer caches and of the resolver during the pass are a
-- record (Env). Sync, Report, Verdict and Reconcile follow reconcile; Watch has the predicates
-- that decide which notifications enqueue the claims, and Watch/Notify the handlers of New,
-- Watch/Slices what they pass over; Run has the handlers and the workers around the work queue
-- as interleaved steps, where the queue is a parameter (WorkQueue) with the documented laws of
-- client-go's (Run/Served.QueueLaws); Memory is about what the controller keeps between passes;
-- Writes, Retry and Conditions are about what a pass writes and reports, and Satisfied about
-- what the verdict means.
-- NodePlugin: internal/nodeplugin, with the device record of pkg/probe. Inventory, Edits,
-- Prepare and Specs follow a claim from its allocation to its file and back; SpecFile has
-- writeSpec by its system calls, with what a power loss leaves (SpecFile/Crash) and the map of
-- files that they implement (SpecFile/Refines); Serve has the kubelet's calls with what they
-- count, Start and HandleError.
-- Probe: pkg/probe. Parse has its texts, Sysfs its readings, Devices the class directories and
-- Walk the whole walk; the files of sysfs and procfs are a parameter. Functions is about the
-- PCI functions of the fabric, Keys and Order about the order of the devices.
-- Llmfit: the report of internal/llmfit, VendorOf, and the Detector that falls back from the
-- API to the binary to its last report (Detector). What the requests and runs answer is an
-- input (Transport). Floating-point numbers are a parameter (FloatOps) with the operations that
-- the code applies to them.
-- Publisher: BuildDevices of internal/publisher with its pairing (Match), attributes
-- (Attributes) and loop (Build), coexist.go (Coexist) and its Start (Start). Writes, Schema and
-- Marks are about the attributes that are published, Names and Resolves about the names,
-- Fitness about what claims see of it, Memory about the capacity, and Classes about the
-- DeviceClasses of deploy/deviceclass.yaml.
-- Hotplug: parseUevent (Uevent), and the reader, the coalescer and the consumer of Listen as
-- one machine with interleaved steps (Listener); the channel of 16 events is a number, and time
-- is left to the steps.
-- Agent: a cycle of cmd/llmfit-dra/main.go, which joins the probe, the Detector, the publisher
-- and the inventory of the kubelet plugin; what a cycle reads is its input (World). Agent/Run
-- has the start with its guards and errors and the select loop, a turn of which is the arm that
-- select chose; Main has the choice of the mode and the start of the controller.
-- Observe: internal/observe, its gauges (Gauges), counters (Counters) and health endpoints
-- (Health); Heartbeat is about what /healthz tells of the loop.
-- Tests: the theorems at concrete inputs.
--
-- Strings are sequences of characters. A Go map is an association list without order
-- (Prelude/Maps); where the code iterates over a map, it sorts afterwards or the order does not
-- matter to what is proved. Every loop is over a list, so there is no fuel.
--
-- Not modelled: the informers themselves, the clients, signals, log lines and the HTTP server,
-- the controller's heartbeats, its counter and its shutdown, the socket of Listen, the HTTP
-- request and the run of the binary, and generated code. Of the work queue and the file system
-- the models have what their documentation says. Times are natural numbers of nanoseconds. The
-- library functions on conditions are parameters with their documented laws (ConditionLaws).
pub mod Prelude
pub mod Resource
pub mod Index
pub mod Llmfit
pub mod ModelClaim
pub mod Probe
pub mod Publisher
pub mod Hotplug
pub mod NodePlugin
pub mod Agent
pub mod Observe
pub mod Main
pub mod Tests
