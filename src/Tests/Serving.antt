-- ===== src/Tests/Serving.antt =====
-- The theorems on the runner and the engine, for a model that always answers with token 5.
use paged_llm.Base.{refl, false, none, some, ℕ, ◌+◌, ◌≡◌, [], ◌∷◌, length, map, ok, arith}
use paged_llm.Scheduler.{SchedulerOutput, empty_output}
use paged_llm.Runner.{Inputs, Backend, build_inputs, run}
use paged_llm.Runner.Shapes.{Fits, length-map, build_inputs_total}
use paged_llm.Runner.Tokens.{OneEach, Ran, run_total}
use paged_llm.Engine.{Engine, SamplingArgument, zip_params, step, run_steps, generate}
use paged_llm.Config.{EngineConfig}
use paged_llm.Memory.{ModelShape, Readings}
use paged_llm.Engine.Startup.{new_engine, new_engine-generate}
use paged_llm.Engine.Generate.{Serves, generate-Serves}
use paged_llm.Engine.Loop.{Stepped, Ended, step_total, run_steps_total}
use paged_llm.Engine.Advance.{Ready, Advances, step-Advances}
use paged_llm.Engine.Finish.{Completes, run_steps-Completes}
use paged_llm.Tests.Data.{
  demo_hash, config, busy, busy-IsWell, scheduled, scheduled-IsWell, spare, spare-IsWell, item,
}

-- The world counts the forward passes.
abbrev model : Backend ℕ
model = record {
  Logits = ℕ;
  apply_copies = λ w ops. w;
  forward = λ w inputs. (length inputs.logits_idx, w + 1);
  sample = λ w logits params. (map (λ p. 5) params, w);
}

model-OneEach : OneEach model
model-OneEach w logits params = length-map (λ p. 5) params

abbrev engine : Engine ℕ
engine = record {
  scheduler = busy;
  world = 0;
  stats = record {
    num_steps = 0;
    num_prefill_tokens = 0;
    num_decode_tokens = 0;
    num_preemptions = 0;
  };
  requests = 0 ∷ 1 ∷ [];
  next_id = 2;
}

abbrev output : SchedulerOutput
output = record empty_output { scheduled = item ∷ []; num_prefill_tokens = 1 }

build_inputs_example :
    (inputs : Inputs) × (build_inputs scheduled output ≡ ok inputs) × Fits inputs (item ∷ [])
build_inputs_example = build_inputs_total scheduled output scheduled-IsWell (omega arith)

run_example : Ran model model-OneEach scheduled output (run model 0 scheduled output)
run_example = run_total model model-OneEach 0 scheduled output scheduled-IsWell (omega arith)

step_example : Stepped demo_hash model model-OneEach engine (step demo_hash model engine)
step_example = step_total demo_hash model model-OneEach engine busy-IsWell

run_steps_example : Ended demo_hash model model-OneEach engine (run_steps demo_hash model 9 engine)
run_steps_example = run_steps_total demo_hash model model-OneEach 9 engine busy-IsWell

abbrev roomy : Engine ℕ
roomy = record engine { scheduler = spare }

roomy-Ready : Ready spare
roomy-Ready = record { budget = omega arith; seqs = omega arith; chunks = refl; room = omega arith }

step-Advances_example : Advances demo_hash model model-OneEach roomy 0 (step demo_hash model roomy)
step-Advances_example =
    step-Advances demo_hash model model-OneEach roomy 0 (1 ∷ []) spare-IsWell roomy-Ready refl

run_steps-Completes_example :
    Completes demo_hash model model-OneEach roomy (run_steps demo_hash model 100 roomy)
run_steps-Completes_example =
    run_steps-Completes demo_hash model model-OneEach 100 roomy spare-IsWell roomy-Ready
      (omega arith)

generate-Serves_example :
    Serves demo_hash model model-OneEach roomy
      (zip_params ((1 ∷ 2 ∷ 3 ∷ []) ∷ (4 ∷ []) ∷ []) (SamplingArgument.shared 0))
      (generate demo_hash model 100 roomy
        ((1 ∷ 2 ∷ 3 ∷ []) ∷ (4 ∷ []) ∷ [])
        (SamplingArgument.shared 0))
unfolding zip_params
generate-Serves_example =
    generate-Serves demo_hash model model-OneEach 100 roomy ((1 ∷ 2 ∷ 3 ∷ []) ∷ (4 ∷ []) ∷ [])
      (SamplingArgument.shared 0) spare-IsWell roomy-Ready (λ j h. ground arith)
      (omega arith, omega arith, (omega arith, omega arith, tt)) (omega arith)

-- A configuration for the CPU, and a device without CUDA.
abbrev on_cpu : EngineConfig
on_cpu = record config { num_gpu_blocks = none }

abbrev device : Readings
device = record { on_cuda = false; total = 0; free = 0; allocated = 0; peak = 0; granted = 0 }

abbrev shape : ModelShape
shape = record { num_hidden_layers = 2; num_key_value_heads = 2; head_dim = 8; element_size = 2 }

new_engine-generate_example :
    (e : Engine ℕ) × (new_engine shape device (some 2) busy.seqs busy.params (λ n. n) 0 on_cpu
      ≡ ok e)
    × Serves demo_hash model model-OneEach e
        (zip_params ((1 ∷ 2 ∷ 3 ∷ []) ∷ (4 ∷ []) ∷ []) (SamplingArgument.shared 0))
        (generate demo_hash model 100 e
          ((1 ∷ 2 ∷ 3 ∷ []) ∷ (4 ∷ []) ∷ [])
          (SamplingArgument.shared 0))
unfolding zip_params
new_engine-generate_example =
    new_engine-generate shape device (some 2) busy.seqs busy.params (λ n. n) 0 demo_hash model
      model-OneEach on_cpu 100 ((1 ∷ 2 ∷ 3 ∷ []) ∷ (4 ∷ []) ∷ []) (SamplingArgument.shared 0)
      (omega arith) refl (omega arith) (omega arith) refl refl refl
      (omega arith, omega arith, (omega arith, omega arith, tt)) (omega arith)
