-- ===== src/Lib.antt =====
-- Verification of the rollout side of Tiny-DSV41.
--
-- Tiny-DSV41 trains small DeepSeek-V4.1 models by reinforcement learning. A learner
-- (dsv41_train/rl) asks a manager process for groups of sampled answers. The manager
-- (dsv41_train/rl/manager.py) keeps the groups in a mailbox until the learner has committed them,
-- and has them sampled by a coordinator (rollout_manager/coordinator.py), which admits episodes to
-- backends within workers, groups and the capacities of executors. The episodes use a cache of
-- input features that the processes of a machine share (rollout_manager/input_cache.py). What the
-- learner trains on are records with checked fields (rollout_manager/training.py), made from the
-- rollout groups of dsv41_train/rl/rollout.py. The browser relay
-- (rollout_manager/terminal_bench/browser_relay) stands between a laptop that makes tasks and the
-- GPUs that answer them: its GPU side (relay_server.py) sends generations to a sampler and journals
-- them, its CPU side claims jobs from a spool, and artifacts of many chunks pass between the two
-- (artifacts.py). Evaluators on one machine share a budget of memory
-- (rollout_manager/host_memory.py).
--
-- The files:
-- - Base: names of the library, Boolean tests, lists, and dictionaries as association lists in the
--   order of insertion, with their laws.
-- - Cache: rollout_manager/input_cache.py, class InputCache. Cache.State has the cache as a record;
--   Cache.Space is _remove, _used and _space, Cache.Leases is begin, release and end, Cache.Acquire
--   is acquire, Cache.Calls is publish, snapshot, dispatch and clear. A request is served in full
--   under the lock, so a history is a list of requests and of waits that end. Cache.Invariant states
--   when a cache is well-formed; the other files prove that every operation keeps it.
-- - Mailbox: the function _serve of dsv41_train/rl/manager.py. Mailbox.State is its prologue, with
--   the recovery record; Mailbox.Commands has the commands of the learner, Mailbox.Rounds one round
--   of the loop: the arrivals, the completion of the sampled group, the drained boundary, the next
--   group. Packets are of any type with a group; the backend's packet of a group is a parameter, and
--   so is the test by which _decode_packet refuses a packet. A packet that is not refused comes back
--   from its form as a dict as it was.
--   Mailbox.Shape and Mailbox.Delivery hold the invariant, Mailbox.Runs the runs, Mailbox.Restart
--   the recovery from a snapshot.
-- - Coordinator: Coordinator.run of rollout_manager/coordinator.py under the policy
--   "native-groups", with ResourceRequirements, EpisodePlan, EpisodeResult and CancellationToken of
--   rollout_manager/contracts.py. Coordinator.Plans has the checks before a run, Coordinator.Ledger
--   _fits, _charge and _quarantine, with the rounding of Coordinator.Floats, Coordinator.Admission
--   the admission pass,
--   Coordinator.Completion the end of an episode, Coordinator.Loop the loop and its finally clause.
--   A turn of the loop is told what happened: a cancellation, a deadline that has passed, the tasks
--   that are done. Coordinator.Accounts and Amounts have when amounts add up without rounding,
--   Coordinator.Invariant, Admitting, Completing, Progress and Turns what Coordinator.Results
--   concludes from.
-- - Training: rollout_manager/training.py. Training.Records has turns and trajectories with the
--   checks of their constructors, Training.Groups the groups and the passage from rollout groups
--   and back.
-- - Transport: RequestLedger and RpcTransport of rollout_manager/transports.py. Transport.Calls has
--   the claim and the states of a request, the bindings of episodes and Client.call, and what may
--   happen to a transport, the restart of its process included. The validation of a payload and of
--   a receipt, the answer of the route and the file system are inputs of a call.
-- - Planner: plan_learner_microbatches of dsv41_train/rl/learner_batch_planner.py, which packs the
--   responses of a group into microbatches of the learner. Its loop has as much fuel as there are
--   responses, and each turn packs one at least.
-- - Relay: the GPU side of class RelayState in
--   rollout_manager/terminal_bench/browser_relay/relay_server.py. Relay.State has the journal, the
--   slots and the running threads; Relay.Generations the admission, the acknowledgements and the
--   withdrawals of a generation, Relay.Threads the thread of a generation, in its steps between two
--   locks, and what may happen. The answers of the sampler are inputs. Relay.Invariant to Running
--   hold the invariant, which Safety, Cancelling, Delivery and Publication conclude from.
-- - Claims: the CPU side of the same class: the spool with its inbox, its claims and its outbox, and
--   claim, result, cancel_claim and recover.
-- - Artifacts: class ArtifactQueue of rollout_manager/terminal_bench/browser_relay/artifacts.py.
--   Artifacts.Sending is the outgoing side, Artifacts.Receiving the incoming one; Artifacts.Passage
--   runs the two against each other. The size of a chunk, the bounds and the hash functions are a
--   parameter, the record Config.
-- - Budget: class ByteBudget and evaluator_memory of rollout_manager/host_memory.py. A turn of the
--   loop of acquire is one step under the lock.
-- - Dispatch: dsv41_train/dispatch.py, which moves the tokens of a mixture of experts to the ranks
--   that own the experts and back. The tensors are lists of rows. Dispatch.State has both
--   dispatchers; torch is a parameter, the record Torch, with the laws of Dispatch.Laws, which
--   Dispatch.Model shows to have a model. All ranks enter the exchange together. Dispatch.Experts
--   puts experts between dispatch and combine. The final view of combine fails without elements.
--
-- Numbers: native natural numbers. Byte counts, group numbers and amounts of resources are
-- nonnegative in the code, and where it subtracts, an invariant shows that nothing falls below 0.
-- CPU amounts, which are floats, count in a power of two that divides all amounts of a run; a sum or
-- a difference is rounded to 53 bits, and where rounding would take it below 0 it stops at 0. Names and identities that are only compared are
-- numbers too. An exception is the result `none`.
--
-- Loops: apart from that of the planner, the loops run over lists. The outer loops of the mailbox
-- and the coordinator, which wait for events, go once over the list of what happens, and need no
-- fuel. The count of the chunks of an artifact has as much fuel as there are chunks.
--
-- Not modelled: the policy "terminal-waves" and the persistent stream of the coordinator, the start
-- and the closing of backends, event stores, sockets and files, the learner's side of the manager,
-- the JSON form of the training records, all other code on tensors (dsv41_train/models and the
-- losses), the backends, and the harness of Terminal-Bench but for its relay. Of the relay: HTTP
-- and the checks of its messages, the pairing, and the receipts of claims.
pub mod Artifacts
pub mod Base
pub mod Budget
pub mod Cache
pub mod Claims
pub mod Coordinator
pub mod Dispatch
pub mod Mailbox
pub mod Planner
pub mod Relay
pub mod Training
pub mod Transport
