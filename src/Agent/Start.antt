-- ===== src/Agent/Start.antt =====
-- The public API of include/meshanics/agent.h, which lib/meshanics_agent.c implements:
-- meshanics_agent_start, meshanics_report_metric, meshanics_agent_state and meshanics_agent_version.
use mcu_sdk.Base.{
  ℕ, ◌+◌, ◌≡◌, refl, ap, ◌∙◌, arith, Bool, true, false, Option, none, some, Bytes, List, [], ◌∷◌,
  length, ◌==◌, if◌then◌else◌,
}
use mcu_sdk.Agent.{MeshState, boot}

-- meshanics_status
pub data MeshStatus : Type 0 where
  ok err_config err_network err_enroll err_state err_nomem : MeshStatus

-- meshanics_config: the callbacks, which take `user`, as numbers.
pub record MeshConfig : Type 0 where
  pub firmware_version : Option Bytes
  pub on_state : Option ℕ
  pub health : Option ℕ
  pub user : ℕ

-- `self`, as far as the API's functions use it, and the number of threads that were created.
pub record Api : Type 0 where
  pub cfg : MeshConfig
  pub version : Option Bytes
  pub state : MeshState
  pub started : Bool
  pub threads : ℕ

-- Static storage: all of it is 0, which is MESHANICS_STATE_BOOT.
abbrev pub unstarted : Api
unstarted = record {
  cfg = record { firmware_version = none; on_state = none; health = none; user = 0 };
  version = none;
  state = boot;
  started = false;
  threads = 0;
}

-- The calls of an application that change something or can be refused.
pub data Call : Type 0 where
  agent_start : Option MeshConfig → Call
  report_metric : Call

-- What the results ought to be, by whether the agent has been started.
unfoldable pub expected : Bool → List Call → List MeshStatus
expected started [] = []
expected true (agent_start cfg ∷ xs) = err_state ∷ expected true xs
expected false (agent_start cfg ∷ xs) = ok ∷ expected true xs
expected true (report_metric ∷ xs) = ok ∷ expected true xs
expected false (report_metric ∷ xs) = err_state ∷ expected false xs

-- One thread for an agent that was started.
unfoldable pub threads_for : Option Bytes → ℕ
threads_for none = 0
threads_for (some v) = 1

-- `fw_version` is CONFIG_MESHANICS_FW_VERSION.
module _ (fw_version : Bytes) where
  unfoldable pub chosen_version : MeshConfig → Bytes
  chosen_version cfg = elim (cfg.firmware_version) [
    | none ↦ fw_version
    | some v ↦ if length v == 0 then fw_version else v
  ]

  unfoldable pub meshanics_agent_start : Option MeshConfig → Api → MeshStatus × Api
  unfolding chosen_version
  meshanics_agent_start cfg s =
      let cfg' : MeshConfig = elim cfg [ none ↦ s.cfg | some x ↦ x ] in
      if s.started then (err_state, s) else (
        ok,
        record s {
          cfg = cfg';
          version = some (chosen_version cfg');
          started = true;
          threads = s.threads + 1;
        },
      )

  -- The metric itself is only logged.
  unfoldable pub meshanics_report_metric : Api → MeshStatus × Api
  meshanics_report_metric s = if s.started then (ok, s) else (err_state, s)

  unfoldable pub meshanics_agent_state : Api → MeshState
  meshanics_agent_state s = s.state

  unfoldable pub meshanics_agent_version : Api → Bytes
  meshanics_agent_version s = elim s.version [ none ↦ fw_version | some v ↦ v ]

  unfoldable pub call : Call → Api → MeshStatus × Api
  unfolding meshanics_agent_start meshanics_report_metric
  call (agent_start cfg) s = meshanics_agent_start cfg s
  call report_metric s = meshanics_report_metric s

  -- A sequence of calls, with their results.
  unfoldable pub run_calls : List Call → Api → List MeshStatus × Api
  run_calls [] s = ([], s)
  run_calls (x ∷ xs) s = let (r, s1) = call x s in let (rs, s2) = run_calls xs s1 in (r ∷ rs, s2)

  -- What the first start of the calls asks for: the application's version where it gives one that is
  -- not empty, or else CONFIG_MESHANICS_FW_VERSION.
  unfoldable pub asked_version : Option Bytes → Bytes
  asked_version none = fw_version
  asked_version (some []) = fw_version
  asked_version (some (c ∷ v)) = c ∷ v

  unfoldable pub first_version : List Call → Option Bytes
  unfolding asked_version
  first_version [] = none
  first_version (agent_start none ∷ xs) = some fw_version
  first_version (agent_start (some cfg) ∷ xs) = some (asked_version cfg.firmware_version)
  first_version (report_metric ∷ xs) = first_version xs

  -- What meshanics_agent_version is to give.
  abbrev pub or_default : Option Bytes → Bytes
  or_default none = fw_version
  or_default (some v) = v

  chosen_version_lem : (cfg : MeshConfig) → chosen_version cfg ≡ asked_version cfg.firmware_version
  unfolding chosen_version asked_version
  chosen_version_lem cfg = go cfg.firmware_version
    where
      go :
          (o : Option Bytes)
          → elim o as (λ x. Bytes) [
            | none ↦ fw_version
            | some v ↦ if length v == 0 then fw_version else v
          ]
            ≡ asked_version o
      go none = refl
      go (some []) = refl
      go (some (c ∷ v)) = ground arith

  agent_version_lem : (s : Api) → meshanics_agent_version s ≡ or_default s.version
  unfolding meshanics_agent_version
  agent_version_lem s = go s.version
    where
      go :
          (o : Option Bytes)
          → elim o as (λ x. Bytes) [ none ↦ fw_version | some v ↦ v ] ≡ or_default o
      go none = refl
      go (some v) = refl

  if_true : {A : Type 0} (t : Bool) (x y : A) → t ≡ true → (if t then x else y) ≡ x
  if_true true x y e = refl
  if_true false x y e = absurd (ground arith)

  -- The status of a call once the agent runs.
  abbrev status_of : Call → MeshStatus
  status_of (agent_start cfg) = err_state
  status_of report_metric = ok

  call-started : (x : Call) (s : Api) → s.started ≡ true → call x s ≡ (status_of x, s)
  unfolding call meshanics_agent_start meshanics_report_metric
  call-started (agent_start cfg) s e = if_true s.started _ _ e
  call-started report_metric s e = if_true s.started _ _ e

  run_calls-started :
      (xs : List Call) (s : Api)
      → s.started ≡ true
      → ((run_calls xs s).0 ≡ expected true xs) × ((run_calls xs s).1 ≡ s)
  unfolding run_calls expected
  run_calls-started [] s e = (refl, refl)
  run_calls-started (agent_start cfg ∷ xs) s e =
      let (h, k) = run_calls-started xs s e in
      rw (call-started (agent_start cfg) s e) (ap (λ t. err_state ∷ t) h, k)
  run_calls-started (report_metric ∷ xs) s e =
      let (h, k) = run_calls-started xs s e in
      rw (call-started report_metric s e) (ap (λ t. ok ∷ t) h, k)

  -- Whatever calls an application makes: the first start succeeds and every later one is refused
  -- with MESHANICS_ERR_STATE, a metric is refused exactly before the first start, at most one thread
  -- is created, one if there was a start, and the version that meshanics_agent_version gives is the
  -- one that the first start asked for, where it asked for one that is not empty, and
  -- CONFIG_MESHANICS_FW_VERSION otherwise.
  pub run_calls-expected :
      (xs : List Call)
      → ((run_calls xs unstarted).0 ≡ expected false xs)
        × ((run_calls xs unstarted).1.threads ≡ threads_for (first_version xs))
        × (meshanics_agent_version (run_calls xs unstarted).1 ≡ or_default (first_version xs))
  unfolding run_calls expected call meshanics_agent_start meshanics_report_metric first_version
      threads_for chosen_version
  run_calls-expected xs = let (h, k, v) = go xs in (h, k, agent_version_lem _ ∙ ap or_default v)
    where
      go :
          (xs : List Call)
          → ((run_calls xs unstarted).0 ≡ expected false xs)
            × ((run_calls xs unstarted).1.threads ≡ threads_for (first_version xs))
            × ((run_calls xs unstarted).1.version ≡ first_version xs)
      go [] = (refl, refl, refl)
      go (agent_start none ∷ xs) =
          let (h, k) = run_calls-started xs (meshanics_agent_start none unstarted).1 refl in
          (ap (λ t. ok ∷ t) h, ap (λ s. s.threads) k, ap (λ s. s.version) k)
      go (agent_start (some cfg) ∷ xs) =
          let (h, k) = run_calls-started xs (meshanics_agent_start (some cfg) unstarted).1 refl in
          (
            ap (λ t. ok ∷ t) h,
            ap (λ s. s.threads) k,
            ap (λ s. s.version) k ∙ ap some (chosen_version_lem cfg),
          )
      go (report_metric ∷ xs) = let (h, k, v) = go xs in (ap (λ t. err_state ∷ t) h, k, v)
