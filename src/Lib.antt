-- ===== src/Lib.antt =====
-- paged-llm serves a language model with a paged cache of keys and values. Each request is a
-- Sequence. The Scheduler keeps the sequences in a waiting and a running queue, and decides before
-- each forward pass how many tokens of which sequence are computed; the BlockManager gives the
-- sequences blocks of the cache, shares them by reference counts and finds the blocks of a prompt
-- that are computed already; the ModelRunner turns the decision into the inputs of the model; the
-- LLMEngine repeats this step and hands the sampled tokens back to the scheduler.
--
-- The files:
-- - Base and its children: lists, dictionaries, exceptions as a Result, and arithmetic of blocks.
-- - Config: `EngineConfig` of pagedllm/config.py.
-- - Sequence: `Sequence`, `SequenceStatus` and `SamplingParams` of pagedllm/sequence.py.
-- - BlockManager, with BlockManager/Slots and BlockManager/PrefixCache: the class of
--   pagedllm/block_manager.py. Its proofs are in BlockManager/Invariant (what is valid), Pool
--   (single blocks), Reuse (the oldest free block), Loops, Copies and Allocation (copy-on-write),
--   Grants (`allocate_slots`), Availability (`can_allocate`), Sequences (`free`, `fork`, the
--   slots), Disjoint (distinct slots), Sharing (fork and free), Conservation (counting the blocks),
--   Caching (the prefix cache keeps the invariant), Chain (the chain of hashes along the tokens),
--   Labels (what is cached) and Hits (what is found), Private, Growth and Hashed (a block that is
--   not cached is not shared).
-- - Scheduler, with Scheduler/Schedule and Scheduler/Update: the class of pagedllm/scheduler.py.
--   Its proofs are in Scheduler/Invariant, Exclusive (the blocks that running sequences write),
--   Preempt, Order (what preemption leaves alone), Cramped (when the pool is too small), Room and
--   Eviction (the allocation loop), Visit and Running (the loop over the running sequences),
--   Admission, Joining and Queue (the loop over the waiting ones), Plan (`schedule`), Retire,
--   Unhashed, Advance and Progress (`update`), Requests (`add` and `abort`) and Limits (shared
--   parameters).
-- - Runner: `ModelRunner` of pagedllm/engine.py. Its proofs are in Runner/Shapes (the inputs),
--   Largest (`max` of a list), Tokens (the sampled tokens), Layout (what the loop fills in) and
--   Owners (no two tokens of a step get one slot).
-- - Engine: `LLMEngine` of pagedllm/engine.py, with its proofs in Engine/Loop (a step, and any
--   number of steps), Carried and Advance (what a step does to the requests in line), Finish (the
--   loop of `generate` ends), Adding, Collect, Generate (`generate` serves its prompts) and Startup
--   (the constructors).
-- - KvCache: `KVCache` of pagedllm/kv_cache.py and `gather_kv` of pagedllm/attention/reference.py,
--   with the laws of the tensors in KvCache/Laws, and proofs in Gather (what is read), Write (what
--   is written is read back), Isolation (and by no other sequence), Copy (copy-on-write), Parts,
--   Windows and Batch (one write for a batch of sequences).
-- - Memory: the number of blocks that `LLMEngine` gives the cache, of pagedllm/engine.py and
--   pagedllm/kv_cache.py.
-- - Attention: `select_backend` of pagedllm/attention/__init__.py; Attention/Reference:
--   `paged_attention_reference` of pagedllm/attention/reference.py, with its proof in
--   Attention/Segments.
-- - Llama: the forward pass of pagedllm/model/llama.py. Llama/Dense is its specification, what the
--   model computes for one sequence alone; the proofs are in Llama/Rows (rows of a batch), Layer
--   and Cached (the steps of a layer), Layers (a layer), Padding (rows of the block tables),
--   Stack (all layers), Forward (the model), Backend (the reference kernel as the backend of
--   attention), Lasts (the rows that are sampled) and Step (the model on the inputs that the runner
--   makes).
-- - Loader: the weights that `load_model` of pagedllm/model/loader.py sets, with proofs in
--   Loader/Sets and Loader/Weights.
-- - Tests and its children: concrete pools and schedulers, and the theorems at these.
--
-- The correspondence. A method is a function of the same name from the object's record to a Result
-- with the new record: an exception is a `raise` with its class. Loops are functions of their own,
-- named for what they do. A Sequence is mutable and shared, so the scheduler's queues hold ids, and
-- the objects are in a heap `seqs`; the objects SamplingParams are in a heap `params`, which
-- several sequences may refer to. The free queue is a list in its order; a set of ids is a list;
-- the dictionary of cached blocks is an association list. A token, an id and a hash are natural
-- numbers.
--
-- Fuel. The `while True` of `schedule` runs on fuel (`make_room`): the number of running sequences
-- and one more, which is enough since a round that does not end the loop takes a sequence out of
-- the running queue. `run_steps`, the loop of `generate`, takes its fuel as an argument, since the
-- loop of the source need not end for every configuration; where it does, each step brings the
-- first request in line nearer to its end, and twice the model's length for each request is enough.
--
-- Parameters. The hash of a block (`hash` of Python, over the previous hash and the tokens) is any
-- function, collisions included. The model, the tensors and the sampler are
-- the record `Backend` of functions on a state; of the sampler it is assumed, where a theorem says
-- so, that it returns one token for each set of parameters (`OneEach`). The byte counts of the
-- device and the contents of the weight files are arguments. The operations of torch on the tensors
-- of the cache are the record `Tensors`, of which `Laws` states what their documentation says of
-- indices in range. The cache is not part of the runner's state: the runner's model is a `Backend`,
-- and KvCache and Llama are about the tensors alone. The attention of one sequence, in floating
-- point, is an argument of the reference kernel. In the model, the operations on elements, the mean
-- and the linear maps are the record `Floats`, of which nothing is assumed; shapes are those of the
-- checkpoint. Of the backend of attention it is assumed that it computes each sequence of a batch
-- for itself (`IsPagedAttention`), which Llama/Backend proves of the reference kernel.
--
-- Not modelled: the constructors of pagedllm/model/llama.py with the tables of the rotary
-- embedding, the tensor code of the other kernels in pagedllm/attention and of pagedllm/sampler.py;
-- paths, downloads and configuration files; the tokenizer, clocks, logs and progress bars;
-- benchmarks, examples and tests.
pub mod Base
pub mod Config
pub mod Sequence
pub mod BlockManager
pub mod Scheduler
pub mod Runner
pub mod Engine
pub mod KvCache
pub mod Llama
pub mod Memory
pub mod Attention
pub mod Loader
mod Tests
