-- ===== src/Shrewd.antt =====
-- The inference over a window of ticks of seb/runtime/shrewd/shrewd_rtx.rs. `f32` is an interface;
-- the files and the variables of the host are arguments. `none` is a panic. An array of eight
-- floats is a tuple, one of four a record with a field for each verdict.
pub mod Features
pub mod Tallies
pub mod Predictions
pub mod ShortWindows
pub mod Turns
pub mod Tests
use sovereign_event_bus.Base.{
  ℕ, zero, suc, ◌+◌, ◌-◌, ◌*◌, ◌%◌, ◌^◌, Ordering, Option, none, some, Bool, true, false, ◌||◌,
  List, [], ◌∷◌, ◌++◌, if◌then◌else◌, leb, ltb, length, drop, replicate,
}
use mathlib.Core.Option
use sovereign_event_bus.Base.Text.{Text, codes}
use sovereign_event_bus.Base.Float.{Float}

pub data Verdict : Type 0 where
  sker_proven sker_shrewd sker_causal sker_noise : Verdict

unfoldable pub from_idx : ℕ → Verdict
from_idx zero = sker_proven
from_idx (suc zero) = sker_shrewd
from_idx (suc (suc zero)) = sker_causal
from_idx _ = sker_noise

pub record PerVerdict {ℓ} (A : Type ℓ) : Type ℓ where
  pub proven : A
  pub shrewd : A
  pub causal : A
  pub noise : A

-- `a[i]` for an index of at most 3.
unfoldable pub at {ℓ} : {A : Type ℓ} → PerVerdict A → ℕ → A
at a zero = a.proven
at a (suc zero) = a.shrewd
at a (suc (suc zero)) = a.causal
at a _ = a.noise

pub record TickFeatures (f : Float) : Type 0 where
  pub verdict_enc : f.W
  pub has_proof : f.W
  pub agent_hash : f.W
  pub tick_delta : f.W
  pub ts_hour : f.W
  pub op_hash : f.W
  pub is_sovereign : f.W
  pub seal_entropy : f.W

abbrev pub Row : Float → Type 0
Row f = f.W × f.W × f.W × f.W × f.W × f.W × f.W × f.W

pub record OnnxSession : Type 0 where
  pub path : Text

pub record ShrewdRtxEngine : Type 0 where
  pub onnx_session : Option OnnxSession
  pub cuda_available : Bool
  pub window_size : ℕ

-- What the engine asks of the host.
pub record Host : Type 0 where
  pub has_variable : Text → Bool
  pub exists : Text → Bool

unfoldable pub detect_cuda : Host → Bool
detect_cuda host =
    host.has_variable (codes "CUDA_VISIBLE_DEVICES")
    || (host.exists (codes "/dev/nvidia0") || host.exists (codes "/dev/dxg"))

unfoldable pub open_session : Host → Option Text → Option OnnxSession
open_session host none = none
open_session host (some p) = if host.exists p then some (record { path = p }) else none

unfoldable pub new : Host → Option Text → ShrewdRtxEngine
new host model_path = record {
  onnx_session = open_session host model_path;
  cuda_available = detect_cuda host;
  window_size = 1000;
}

pub record ShrewdPrediction (f : Float) : Type 0 where
  pub verdict : Verdict
  pub confidence : f.W
  pub probs : PerVerdict f.W
  pub backend : Text
  pub cuda : Bool

pub record GovernanceCommand (f : Float) : Type 0 where
  pub command : Text
  pub target : Option f.W
  pub scope : Text
  pub rationale : Text
  pub expires_ticks : ℕ

-- `out[i] = x`, which panics behind the end.
unfoldable pub write {ℓ} : {A : Type ℓ} → ℕ → A → List A → Option (List A)
write i x [] = none
write zero x (y ∷ ys) = some (x ∷ ys)
write (suc i) x (y ∷ ys) = Option.map (◌∷◌ y) (write i x ys)

-- `if session.is_some() { "onnx" } else { "rule_based" }`.
unfoldable pub backend_of : Option OnnxSession → Text
backend_of none = codes "rule_based"
backend_of (some session) = codes "onnx"

unfoldable pub add_one : ℕ → ℕ
add_one n = (n + 1) % 2 ^ 32

unfoldable pub count_at : ℕ → PerVerdict ℕ → PerVerdict ℕ
count_at zero c = record c { proven = add_one c.proven }
count_at (suc zero) c = record c { shrewd = add_one c.shrewd }
count_at (suc (suc zero)) c = record c { causal = add_one c.causal }
count_at _ c = record c { noise = add_one c.noise }

-- One step of `max_by` on indexes, whose later argument wins a tie; floats without an order panic.
unfoldable pub keep_larger : Option Ordering → ℕ → ℕ → Option ℕ
keep_larger none i j = none
keep_larger (some Ordering.gt) i j = some i
keep_larger (some Ordering.eq) i j = some j
keep_larger (some Ordering.lt) i j = some j

unfoldable pub is_greater : Option Ordering → Bool
is_greater (some Ordering.gt) = true
is_greater (some Ordering.eq) = false
is_greater (some Ordering.lt) = false
is_greater none = false

module _ (f : Float) where
  open f use {of_nat, ratio, mul, div, trunc, round, partial_cmp}

  unfoldable pub to_array : TickFeatures f → Row f
  to_array t = (
    t.verdict_enc, t.has_proof, t.agent_hash, t.tick_delta, t.ts_hour, t.op_hash, t.is_sovereign,
    t.seal_entropy,
  )

  abbrev pub zeros : Row f
  zeros = (of_nat 0, of_nat 0, of_nat 0, of_nat 0, of_nat 0, of_nat 0, of_nat 0, of_nat 0)

  -- The loop over the rest of the source, from the place `at` of the output on.
  unfoldable pub write_rows : ℕ → List (TickFeatures f) → List (Row f) → Option (List (Row f))
  write_rows i [] out = some out
  write_rows i (t ∷ ts) out = Option.bind (write i (to_array t) out) (write_rows (suc i) ts)

  unfoldable pub prepare_features : ShrewdRtxEngine → List (TickFeatures f) → Option (List (Row f))
  prepare_features engine window =
      let size = engine.window_size in
      let start = if leb size (length window) then length window - size else 0 in
      let src = drop start window in write_rows (size - length src) src (replicate size zeros)

  -- `((f[0] * 3.0).round() as usize).min(3)`.
  unfoldable pub verdict_idx : Row f → ℕ
  verdict_idx row = let idx = trunc (round (mul row.0 (of_nat 3))) in if leb idx 3 then idx else 3

  unfoldable pub count_rows : List (Row f) → PerVerdict ℕ → PerVerdict ℕ
  count_rows [] c = c
  count_rows (row ∷ rows) c = count_rows rows (count_at (verdict_idx row) c)

  unfoldable pub shares : PerVerdict ℕ → ℕ → PerVerdict f.W
  shares c total = record {
    proven = div (of_nat c.proven) (of_nat total);
    shrewd = div (of_nat c.shrewd) (of_nat total);
    causal = div (of_nat c.causal) (of_nat total);
    noise = div (of_nat c.noise) (of_nat total);
  }

  unfoldable pub larger : PerVerdict f.W → ℕ → ℕ → Option ℕ
  unfolding keep_larger
  larger probs i j = keep_larger (partial_cmp (at probs i) (at probs j)) i j

  unfoldable pub best_idx : PerVerdict f.W → Option ℕ
  best_idx probs =
      Option.bind (larger probs 0 1) (λ i. Option.bind (larger probs i 2) (λ j. larger probs j 3))

  unfoldable pub rule_based_predict : ShrewdRtxEngine → List (Row f) → Option (ShrewdPrediction f)
  rule_based_predict engine features =
      let zero_counts : PerVerdict ℕ = record { proven = 0; shrewd = 0; causal = 0; noise = 0 } in
      let probs = shares (count_rows features zero_counts) (length features) in
      Option.map
        (λ best. record {
          verdict = from_idx best;
          confidence = at probs best;
          probs = probs;
          backend = backend_of engine.onnx_session;
          cuda = engine.cuda_available;
        })
        (best_idx probs)

  -- The stub of the inference.
  unfoldable pub onnx_predict :
      ShrewdRtxEngine → List (Row f) → OnnxSession → Option (ShrewdPrediction f)
  onnx_predict engine features sess = rule_based_predict engine features

  unfoldable pub predict_with :
      ShrewdRtxEngine → Option OnnxSession → List (Row f) → Option (ShrewdPrediction f)
  predict_with engine (some sess) features = onnx_predict engine features sess
  predict_with engine none features = rule_based_predict engine features

  unfoldable pub predict : ShrewdRtxEngine → List (TickFeatures f) → Option (ShrewdPrediction f)
  predict engine window =
      Option.bind (prepare_features engine window) (predict_with engine engine.onnx_session)

  -- `x > y`.
  unfoldable pub greater : f.W → f.W → Bool
  unfolding is_greater
  greater x y = is_greater (partial_cmp x y)

  abbrev pub lower_threshold : Text → GovernanceCommand f
  lower_threshold dominant_agent = record {
    command = codes "LOWER_SHREWD_THRESHOLD";
    target = some (ratio 4 5);
    scope = dominant_agent;
    rationale = codes "sustained high-confidence proven verdicts";
    expires_ticks = 100;
  }

  abbrev pub raise_zero_trust : GovernanceCommand f
  raise_zero_trust = record {
    command = codes "RAISE_ZERO_TRUST";
    target = some (of_nat 1);
    scope = codes "all";
    rationale = codes "noise rate rising — elevate scrutiny";
    expires_ticks = 50;
  }

  abbrev pub maintain_policy : Text → GovernanceCommand f
  maintain_policy dominant_agent = record {
    command = codes "MAINTAIN_POLICY";
    target = none;
    scope = dominant_agent;
    rationale = codes "window stable";
    expires_ticks = 500;
  }

  unfoldable pub command_for : Verdict → Bool → Text → GovernanceCommand f
  command_for sker_proven true dominant_agent = lower_threshold dominant_agent
  command_for sker_noise confident dominant_agent = raise_zero_trust
  command_for _ confident dominant_agent = maintain_policy dominant_agent

  unfoldable pub to_governance_command : ShrewdPrediction f → Text → GovernanceCommand f
  to_governance_command p dominant_agent =
      command_for p.verdict (greater p.confidence (ratio 4 5)) dominant_agent

  -- One turn of the loop of `run_shrewd_rtx`, with what it publishes.
  unfoldable pub run_tick :
      ShrewdRtxEngine → List (TickFeatures f) → Option (List (GovernanceCommand f))
  run_tick engine window =
      let published =
        Option.map (λ pred. to_governance_command pred (codes "unknown") ∷ [])
          (predict engine window) in
      if ltb (length window) 10 then some [] else published

  -- The first turns of the loop, over the window that it was started with.
  unfoldable pub run_ticks :
      ℕ → ShrewdRtxEngine → List (TickFeatures f) → Option (List (GovernanceCommand f))
  run_ticks zero engine window = some []
  run_ticks (suc n) engine window =
      let rest = run_ticks n engine window in
      Option.bind (run_tick engine window) (λ cmds. Option.map (λ more. cmds ++ more) rest)

  -- Without the feature of the bus the function only warns.
  unfoldable pub run_shrewd_rtx :
      (nats_bus : Bool) → Host → Option Text → ℕ → Option (List (GovernanceCommand f))
  run_shrewd_rtx nats_bus host model_path turns =
      let loop = run_ticks turns (new host model_path) [] in if nats_bus then loop else some []
