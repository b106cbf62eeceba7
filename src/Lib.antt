-- ===== src/Lib.antt =====
-- A model of contention_prof, a profiler for contended pthread mutexes: the hooks time the waits
-- for a lock, the collector gathers the samples of all threads and the profiler writes them out.
--
-- Paths are from the repository's root.
-- BoundedQueue models src/common/bounded_queue.h over slots that hold an item or are raw. A read
-- of a raw slot or outside the storage is a fault. Deque is its specification.
-- LinkedList models src/common/linked_list.h over a heap of two pointers for each node, one
-- write for each assignment; Ring is the list that stands in the heap.
-- SpeedLimit models the rate control in src/collector.cpp and src/collector.h:
-- update_speed_limit and is_collectable.
-- Collector models the two threads of src/collector.cpp and Collected::submit. Its chains of
-- samples are lists, which is what LinkedList shows of the links. The threads interleave by the
-- relation Reach. Limits adds the update of the speed limits by SpeedLimit after each round.
-- Shutdown models the destructor, the locks, the waits and signals of the two threads as single
-- steps; the samples are only counted there.
--
-- Hash models Util::fmix64 of src/common/common.cpp, src/common/murmurhash3.cpp and
-- SampledContention::hash_code of src/collector.h, which nothing calls.
-- Contention models the lock hooks of src/contention.cpp: the slots of a thread, the map of
-- mutexes, the timing of a wait and what is submitted. It uses SpeedLimit for is_collectable,
-- Collector for Collected::submit and Hash for the index in the map. What other threads do to
-- the map during a call is given between the accesses of remove_pthread_contention_site only;
-- Race there has two threads at one entry.
-- ObjectPool models src/common/object_pool_inl.h; Steps has the calls of all threads in any
-- order, Info describe_objects. Race takes add_block and add_block_group apart, one shared
-- access at a time, for any number of threads up to 2^32, so that no counter of 64 bits wraps;
-- Alone there joins it to the sequential place_block. Locals has the life of the local pools,
-- through the functions of ThreadExit. The memory orders of the atomic counters are not
-- modelled.
-- Combiner models AgentCombiner of src/common/combiner.h and operator<< of src/common/reducer.h,
-- for any operator. Lifetime has many combiners that are constructed and destroyed, with the ids
-- of AgentGroup and one agent for each thread and id; each live one is a Combiner of its own. An
-- agent and a combiner are destroyed one after the other there, not at once.
-- AgentGroup models the ids and blocks of src/common/agent_group.h; Apart has that each thread
-- has one agent for each id, which Combiner relies on.
-- Series models the cascade of src/common/series.h.
-- ThreadExit models src/common/thread_local.cpp and, in Locals, src/common/thread_local_inl.h;
-- FastRand models src/common/fast_rand.cpp, Timespec models src/common/time.h.
-- Sampler models src/common/sampler.h over BoundedQueue: the samples, in Window what get_value
-- and get_samples give of them, and in Rounds the thread of src/common/sampler.cpp that visits
-- the samplers; a list of what the clock says bounds the pause of a round there, and a pause
-- that needs more readings is none. Reducer models src/common/reducer.h: the threads that add
-- values through Combiner, and the Sampler that reads them.
-- Chains models what src/collector.cpp and src/common/sampler.cpp do with chains of linked
-- samples, on the links of LinkedList: CombineCollected, the loops that take samples out of a
-- list, and the moves of a list to another root. It is why Collector can take a chain for a
-- list.
-- Profiler models src/profiler.cpp: the samples that wait to be written, and the start and the
-- stop; Lifecycle adds SampledContention of src/collector.h, whose samples come while the
-- profiler is started and stopped.
--
-- Bounds. The loop of _mod is given one round more than its offset, which is enough unless the
-- capacity is 0. The loop of fast_rand_impl draws as often as its fuel says; no fuel is enough
-- for every seed. The other loops run over a list or a count. The move of samples to a larger
-- queue is given one round more than there are samples, and so are the loop over a window of
-- samples and the loops over a list of linked nodes. In Race a thread that moves alone needs 14
-- steps at most from the start of the loop of add_block to its return. The dump loop of Chains
-- is given how often it finds stop_ false. Capacities of a BoundedQueue are at most 2 ^ 31,
-- since _start + _count could wrap above that. Counters of type int64_t are numbers.
--
-- Clocks, random words, gflags, the answers of the real lock functions and of memory, and the
-- virtual functions of samples and preprocessors are arguments. In Shutdown both threads are
-- created without an error, and the wait of grab_thread for its next round is one step, since it
-- ends by a timeout. Not modelled: thread creation, logging, and the files that the manifest of
-- the components names as not modelled.
pub mod Base
pub mod BoundedQueue
pub mod LinkedList
pub mod SpeedLimit
pub mod Collector
pub mod Hash
pub mod Contention
pub mod ObjectPool
pub mod Combiner
pub mod AgentGroup
pub mod Series
pub mod ThreadExit
pub mod FastRand
pub mod Profiler
pub mod Timespec
pub mod Sampler
pub mod Reducer
pub mod Chains
