-- ===== src/Lib.antt =====
-- titus-isolate places the workloads of a host on its hardware threads and writes the placement to their
-- cgroups. Docker and a scheduler put events in the queue of the event manager (titus_isolate/event);
-- its handlers call the workload manager (titus_isolate/isolate/workload_manager.py), which asks an
-- allocator (titus_isolate/allocate) for a placement on the CPU (titus_isolate/model/processor) and
-- applies what changed through a cgroup manager (titus_isolate/cgroup). The reconciler compares the CPU
-- to the cgroups (titus_isolate/isolate/reconciler.py).
--
-- Files:
--   Prelude            shared names: lists, dicts, sets, exceptions as values
--   Text, Json         Python texts as code points, with split, strip, str and int (lemmas in Decimal
--                      and Parts); values of JSON
--   Processor          titus_isolate/model/processor: Thread, Core, Package, Cpu and Config, each the
--                      file of that name, with the functions of utils.py; Claims, Empty and Everywhere
--                      are lemmas on claimed threads; Visualize is `==` of CPUs and what the picture
--                      of a CPU for the log raises, with Pictured on when it does
--   Workload           titus_isolate/model/legacy_workload.py
--   Config             titus_isolate/config/config_manager.py: the flags that a response reads, and in
--                      Manager the other reads and a cache; Watcher is restart_property_watcher.py,
--                      with Changes on what it notices
--   Allocate           titus_isolate/allocate: Request and Response; Greedy, Naive, Noop and
--                      Fallback, one allocator each. Below Greedy: Rounds (the loop in a
--                      package), Claiming (one workload), Placement (the loop over the workloads),
--                      Isolation (the allocator). Below Naive: Flat (a change at a position of the
--                      CPU) and Kept (the two loops). Below Fallback: Answers. Forms are the dicts of
--                      responses and CPUs, read back in RoundTrip; Remote is remote/allocator.py,
--                      with Layouts on its requests, and Positions
--                      and Claims on its answers; Choice is
--                      titus_isolate/isolate/utils.py
--   Isolate            titus_isolate/isolate: Detect, Balance, MetricsUtils and Reconciler, each the
--                      file of that name; below them CrossPackage, Improves, Totals, Index and Entries
--                      (what the reconciler reads off the CPU), Sorted and Verdict (when it succeeds)
--   Cgroup             Interface: the operations of a cgroup manager that the workload manager calls;
--                      File: titus_isolate/cgroup/file_cgroup_manager.py, which fills that interface, with
--                      its runs in Steps, why a container is isolated in Justified, its releases in
--                      Released, its reads in Reads and ReadBack, the cpusets that its writers leave in
--                      Settled and the order of two writers in Order; Utils is
--                      titus_isolate/cgroup/utils.py, with Cpusets and Paths
--   Event              an event; Queue is titus_isolate/event/event_manager.py, Handlers the handlers
--                      of container batches and of rebalances, Others the other two; lemmas in
--                      Batches and Adds. Threads are the manager's two threads and the scheduler as
--                      a step relation: Batched and Kept on the queue, Processed on the handlers,
--                      Ending on stop_processing_events
--   Rounds             calls of the workload manager on the file cgroup manager, each with the writer
--                      threads that follow, and then the reconciler: Outcome on a call, Applied on
--                      its updates, InSync on the cgroup files, Reconciled on a run. Allocations,
--                      Granted and Greedily are about the responses of the greedy allocator, which
--                      Calls puts in the place of any
--   Manager            the workload manager; below it Counts, Failure, Workloads, Keyed and Updates, and
--                      Metrics, its report to the registry of the module Metrics, with Totals
--   Pod                what is read of a pod (titus_isolate/model/pod_utils.py, titus_isolate/pod/utils.py);
--                      PodManager is titus_isolate/pod/pod_manager.py, which refines the view in View;
--                      Workload is kubernetes_workload.py with get_workload, whose loop is in Retries
--   Crd                titus_isolate/crd/model: predictions, their sums in Condensed; Resources is
--                      resources.py, Predictions the answer of the prediction service, Object what
--                      is published of a node
--   Predict            titus_isolate/predict/resource_usage_predictor.py
--   Publish            titus_isolate/crd/publish/kubernetes_predicted_usage_publisher.py: its loops in
--                      Totals, what it sends in Sent
--   Keystone           titus_isolate/metrics/keystone_event_log_manager.py, with Delivery
--   Startup            titus_isolate/utils.py: the globals and the cell; its loop in Scheduling
--   Api                titus_isolate/api/status.py, with Latency
--   Monitor            ResourceUsage is titus_isolate/monitor/resource_usage.py: its padding in Padded,
--                      its texts in RoundTrip; Collected is utils.py and
--                      workload_monitor_manager.py, with Latest; Prometheus is the answers in
--                      prom_resource_usage_provider.py, with Series
--   Samples            the CPUs and requests that the tests share; each Tests module has the tests and
--                      examples of its part
--
-- Correspondence. A Python method that changes an object returns the changed object, and an exception is
-- a value of Result beside the state at that point. A `set` is a list without duplicates in the order of
-- insertion, a dict an association list in that order. The source keeps references to thread and core
-- objects inside a CPU; the model keeps their positions, which no operation changes. `reduce` over cores
-- or packages is a fold on lists that the constructors keep nonempty; on an empty list the model raises
-- where the source does. Numbers that the source checks against zero are of the type ℤ at the
-- constructors and ℕ behind them. A call of the workload manager runs under its lock and is one step; the
-- file cgroup manager is a step relation, in which the calls and the three steps of each writer thread
-- come in any order, and so are the threads of the event manager with its queue. An increment of a
-- counter is one step, and so are the start of a writer with its entry in the list and a write that its
-- caller waits for. A report of the manager's counters takes no lock: calls come between its two parts.
-- random.shuffle, the resource usage provider, the event log, the property provider, the file system, the
-- exit handler, floats with their texts, quantities of kubernetes, the answers of the services, and for
-- the handler of container batches the construction of a workload are parameters.
-- Where the source keeps a value of a type that its own writer never gives, the reader of the model
-- raises a type error. What a watch, a queue or a schedule is given from outside is a list or a
-- function of its position.
--
-- Fuel. The `while` loop of the greedy allocator claims at least one thread per round, and so does a
-- call of `__assign_threads` before it calls itself; both have one more unit of fuel than threads are
-- wanted, and out_of_fuel is never returned.
--
-- Not modelled: the scheduler's own code, the parsing of lscpu, the queries to Prometheus and their
-- URL, the URL and the credentials of the prediction service, the job descriptor of a pod, the dict of
-- a request, and the clients of kubernetes, S3 and gRPC, which are input and output or of other
-- projects; the generated messages of the remote allocator, beyond the fields it uses.
pub mod Prelude
pub mod Processor
pub mod Text
pub mod Json
pub mod Workload
pub mod Pod
pub mod Crd
pub mod Keystone
pub mod Metrics
pub mod Startup
pub mod Api
pub mod Samples
pub mod Isolate
pub mod Config
pub mod Allocate
pub mod Cgroup
pub mod Manager
pub mod Event
pub mod Monitor
pub mod Rounds
pub mod Predict
pub mod Publish
