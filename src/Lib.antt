-- ===== src/Lib.antt =====
-- A model of the distributed federated LoRA fine-tuning of this repository, with the theorems that
-- make its control plane, its wire formats, its rank scheduler, its pruning and its exchange of LoRA
-- weights of different ranks correct.
--
-- The program has a control plane that registers devices and starts and stops the containers of the
-- workers, wire formats between it, the C++ device agent and the workers, and methods on top of
-- FederatedScope that give each client a LoRA rank or a set of LoRA components.
--
-- Prelude: names of the libraries, tests on native numbers, lists, dictionaries as association lists
--   in Python's order, sums of ranks over clients, exceptions as values, and the operations on
--   floats, which are a parameter (Prelude.Floats).
-- Wire: distributed/control_plane/proto_bridge.py (MsgType, Frame) and
--   distributed/comm/serialization.py (Envelope). A str or bytes is a list of bytes (Bytes).
--   Protobuf and base64 are parameters; pickle with zlib is a Serializer with its round trip as a
--   law.
-- ControlPlane: distributed/control_plane/service.py. Types has the records, and Platform, the
--   parameter for time, pickle, protobuf and json. Manifest reads the client manifest. Service has
--   the state of ControlPlaneService and a function for each method; the REP and the PUB socket are
--   the lists of what was sent. The background thread is the function `receive` on one frame; the
--   lock of the registry makes each method one step. The wait for devices reads its clock and its
--   registry from a list of readings. Registry is a registry without a representation. Containers,
--   Refreshed, Protocol, Routing and Refinement have the theorems.
-- Fah: federatedscope/contrib/worker/methods/fah_rank_scheduler.py. Scheduler has the state of
--   FahRankScheduler, Stage1 the statistics and the average rank, Stage2 the heuristic and the
--   redistribution, Assign the rounding and `solve_p1_for_round`. The convex solver is a parameter:
--   an optional list of continuous ranks. Adjust, Orders, Feasible, Heuristic, Passes, Redistribute
--   and Rounds have the theorems. Server and Process model
--   federatedscope/contrib/worker/methods/fah_qlora_server.py, with the handler of the statistics in
--   federatedscope/core/workers/server.py; what a round is computed with is the record Env. Runtime,
--   Kept, Serving and Collected have the theorems on them.
-- AdaSparse: federatedscope/contrib/common/adasparse_lora_utils.py (Indices, Expand, Budget,
--   Residuals), rank_utils.py beside it (RankUtils),
--   federatedscope/contrib/worker/methods/adasparse_lora_client.py (Client) and
--   adasparse_lora_server.py (Server, with the synchronisation of the client). A LoRA tensor is the
--   list of its components, rows of an A and columns of a B; norms of tensors are parameters.
--   Counts, Sorting, Pruning, Exact, Placing, GlobalRoundTrip, Select, Feedback, Validation,
--   Consistent and Agreement have the theorems.
-- HetLora: federatedscope/contrib/common/hetlora_restriction.py (Restriction),
--   federatedscope/contrib/worker/methods/hetlora_client.py (Client) and hetlora_server.py (Server).
--   A tensor is the list of its components along the rank; the tail score is a parameter, and so is
--   what sending a message returns or raises. Rounds has the rounds of training around the
--   restriction, and Frozen, Inactive, Pruning, Ranks and Weighted have the theorems. Sparsity
--   models federatedscope/core/aggregators/hetlora_aggregator.py on the aggregation of Hetero.
-- Hetero: federatedscope/contrib/common/heterolora_utils.py (Keys, Distribute, Load), the update of
--   the configuration in federatedscope/contrib/worker/methods/heterolora_server.py and the keys of
--   rank_utils.py (Config), and federatedscope/core/aggregators/heterolora_aggregator.py (Aggregate,
--   Average). A name is the list of its parts between the dots; Python's `in` on names is a
--   parameter. The error of torch on tensors that do not fit in their other dimension is a
--   runtime_error. Totals describes the sums apart from the code. PerClient, Fitting, Sent, Served,
--   Download, Unchecked, Averaging, Checked, Initial, Found, Shapes, Aggregation, Patterns and
--   Update have the theorems.
-- The Tests of each part have concrete data on which the theorems are applied.
--
-- The loops of the heuristic run on fuel, the number `max_iterations` of the source, which the
-- theorem on it shows to be enough; those of the redistribution run on the deficit, which every pass
-- but the last lowers. All other loops are structural.
--
-- Not modelled: threads, sockets and the command line; the tensors themselves; the later versions of
-- AdaSparse, the bandwidth manager and the configuration, which need models of their own; devices
-- and dtypes of tensors; the rest of FederatedScope, a copy of another project.
pub mod Prelude
pub mod Wire
pub mod ControlPlane
pub mod Fah
pub mod AdaSparse
pub mod HetLora
pub mod Hetero
