-- ===== src/Service/Steps.antt =====
-- The steps of the service, and what holds in every state that it reaches.
use dnshealth_exporter.Prelude.{
  ℕ, Bool, true, false, Option, none, some, List, ◌≡◌, refl, ◌∙◌, arith, ap, any,
}
use dnshealth_exporter.Text.{Text}
use dnshealth_exporter.Cache.{DelegationCache}
use dnshealth_exporter.Config.{Config, Loaded, ok, err}
use dnshealth_exporter.Resolver.Delegation.{DelegationResult}
use dnshealth_exporter.Service.{
  Service, Stage, at_config, at_addresses, at_roots, at_cache, Applying, advanced, call_at,
  put_call, write_stage, advance_in, advance_call, apply_reloaded_config, start, begin_cycle,
  end_cycle, Response, serve_metrics, serve_reload, on_sighup, metrics, service_unavailable,
}

-- The configuration that a reload comes to.
abbrev pub reloaded : Config → Bool → Loaded Config → Config
reloaded c false l = c
reloaded c true (err e) = c
reloaded c true (ok c') = c'

module _ {Registry : Type 0} (canonical : Text → Option Text) where
  -- A probe keeps the time to live of the cache, since it only looks up and stores. The calls of
  -- applyReloadedConfig that the handlers make go on in any order, one write at a time; the
  -- goroutine of SIGHUP makes one call at a time.
  pub data Step : Service Registry → Service Registry → Type 0 where
    begins : {s t : Service Registry} → begin_cycle s ≡ some t → Step s t
    ends :
        (reg : Registry) (cache : DelegationCache DelegationResult) {s : Service Registry}
        → s.running ≡ true
        → cache.ttl ≡ s.delegation_cache.ttl
        → Step s (end_cycle reg cache s)
    reloads :
        (is_post : Bool) (loaded : Loaded Config) {s : Service Registry}
        → Step s (serve_reload is_post loaded s).1
    signals :
        (loaded : Loaded Config) {s : Service Registry}
        → any (λ a. a.by_signal) s.applying ≡ false
        → Step s (on_sighup loaded s)
    advances : (i : ℕ) {s : Service Registry} → Step s (advance_call canonical i s)

  infixl 5 ◌then_step◌
  pub data Run (s : Service Registry) : Service Registry → Type 0 where
    here : Run s s
    ◌then_step◌ : {t u : Service Registry} → Run s t → Step t u → Run s u

  -- The registry of the last cycle that ended in a run.
  abbrev pub last_registry : {s t : Service Registry} → Run s t → Option Registry
  last_registry here = none
  last_registry (r then_step begins e) = last_registry r
  last_registry (r then_step ends reg cache e k) = some reg
  last_registry (r then_step reloads p l) = last_registry r
  last_registry (r then_step signals l q) = last_registry r
  last_registry (r then_step advances i) = last_registry r

  abbrev pub last_config : {s t : Service Registry} → Config → Run s t → Config
  last_config c here = c
  last_config c (r then_step begins e) = last_config c r
  last_config c (r then_step ends reg cache e k) = last_config c r
  last_config c (r then_step reloads p l) = reloaded (last_config c r) p l
  last_config c (r then_step signals l q) = reloaded (last_config c r) true l
  last_config c (r then_step advances i) = last_config c r

  pub begin_cycle-changes :
      (s t : Service Registry) → begin_cycle s ≡ some t → t ≡ record s { running = true }
  unfolding begin_cycle
  begin_cycle-changes s t h = ground arith

  -- What no write of a reload changes.
  abbrev pub Kept : Service Registry → Service Registry → Type 0
  Kept s t = (t.cycle_registry ≡ s.cycle_registry) × (t.running ≡ s.running)

  write_stage-Kept :
      (st : Stage) (c : Config) (s : Service Registry) → Kept s (write_stage canonical st c s)
  unfolding write_stage
  write_stage-Kept at_config c s = (refl, refl)
  write_stage-Kept at_addresses c s = (refl, refl)
  write_stage-Kept at_roots c s = (refl, refl)
  write_stage-Kept at_cache c s = (refl, refl)

  pub advance_in-Kept :
      (calls : List Applying) (i : ℕ) (s : Service Registry)
      → Kept s (advance_in canonical calls i s)
  unfolding advance_in
  advance_in-Kept calls i s = by_call (call_at calls i)
    where
      by_call :
          (o : Option Applying)
          → Kept s (elim o as (λ _. Service Registry) [
            | none ↦ record s { applying = calls }
            | some a ↦ record (write_stage canonical a.stage a.config s) {
              applying = put_call calls i (advanced a);
            }
          ])
      by_call none = (refl, refl)
      by_call (some a) = write_stage-Kept a.stage a.config s

  -- In every state that a run of the service reaches from its start, the handler of /metrics serves
  -- the registry of the last cycle that ended in the run, and 503 while none has ended, whatever
  -- reloads and cycles in progress there were.
  pub serve_metrics-last :
      (c : Config) (cache : DelegationCache DelegationResult) (t : Service Registry)
      (r : Run (start canonical c cache) t)
      → serve_metrics t
        ≡ (elim (last_registry r) [ none ↦ service_unavailable | some reg ↦ metrics reg ])
  unfolding advance_call serve_metrics start end_cycle serve_reload on_sighup apply_reloaded_config
  serve_metrics-last c cache t r =
      ap
        (λ (o : Option Registry). elim o as (λ _. Response Registry) [
          | none ↦ service_unavailable
          | some reg ↦ metrics reg
        ])
        (registry r)
    where
      registry :
          {u : Service Registry} (q : Run (start canonical c cache) u)
          → u.cycle_registry ≡ last_registry q
      registry here = refl
      registry (q then_step begins {s} {t} e) =
          ap (λ x. x.cycle_registry) (begin_cycle-changes s t e) ∙ registry q
      registry (q then_step ends reg cache' e k) = refl
      registry (q then_step reloads false l) = registry q
      registry (q then_step reloads true (ok c')) = registry q
      registry (q then_step reloads true (err e)) = registry q
      registry (q then_step signals (ok c') k) = registry q
      registry (q then_step signals (err e) k) = registry q
      registry (q then_step advances i {s}) = (advance_in-Kept s.applying i s).0 ∙ registry q
