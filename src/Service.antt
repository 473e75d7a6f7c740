-- ===== src/Service.antt =====
-- main.go: the background loop, the reload of the configuration and the HTTP handlers.
pub mod Steps
pub mod Reloads
pub mod Process
use dnshealth_exporter.Prelude.{
  ℕ, zero, suc, Bool, true, false, Option, none, some, List, [], ◌∷◌, if◌then◌else◌, is_nil,
}
use dnshealth_exporter.Text.{Text, bytes}
use dnshealth_exporter.Config
use dnshealth_exporter.Config.{Config, ConfigError, Loaded, ok, err, join_host_port}
use dnshealth_exporter.Cache
use dnshealth_exporter.Cache.{DelegationCache, invalidate}
use dnshealth_exporter.Resolver.Delegation.{DelegationResult}

-- prober.DefaultRootServers
abbrev pub default_root_servers : List Text
default_root_servers =
    bytes "198.41.0.4:53"
    ∷ bytes "170.247.170.2:53"
    ∷ bytes "192.33.4.12:53"
    ∷ bytes "199.7.91.13:53"
    ∷ bytes "192.203.230.10:53"
    ∷ []

-- The next write of a call of applyReloadedConfig.
pub data Stage : Type 0 where
  at_config at_addresses at_roots at_cache : Stage

-- A call of applyReloadedConfig in progress: of a handler, or of the goroutine of SIGHUP.
pub record Applying : Type 0 where
  pub config : Config
  pub stage : Stage
  pub by_signal : Bool

-- The state that the handlers and the loop share. `cycle_registry` is the registry of the last
-- cycle that is complete, `running` the place in the channel cycleRunning, and `applying` lists the
-- calls of applyReloadedConfig in progress, which no lock keeps apart.
pub record Service (Registry : Type 0) : Type 0 where
  pub current_config : Config
  pub resolve_address : Text → Text
  pub root_servers : List Text
  pub delegation_cache : DelegationCache DelegationResult
  pub cycle_registry : Option Registry
  pub running : Bool
  pub applying : List Applying

pub data Response (Registry : Type 0) : Type 0 where
  metrics : Registry → Response Registry
  plain_ok : Response Registry
  landing_page : Response Registry
  service_unavailable : Response Registry
  method_not_allowed : Response Registry
  reload_failed : ConfigError → Response Registry

module _ {Registry : Type 0} where
  -- runCycle up to the probe: nothing where a cycle is running.
  unfoldable pub begin_cycle : Service Registry → Option (Service Registry)
  begin_cycle s = if s.running then none else some (record s { running = true })

  -- runCycle behind the probe, with the cache that the probe left.
  unfoldable pub end_cycle :
      Registry → DelegationCache DelegationResult → Service Registry → Service Registry
  end_cycle reg cache s = record s {
    cycle_registry = some reg;
    delegation_cache = cache;
    running = false;
  }

  -- GET /metrics
  unfoldable pub serve_metrics : Service Registry → Response Registry
  serve_metrics s = elim s.cycle_registry [ none ↦ service_unavailable | some reg ↦ metrics reg ]

-- The stage behind a write; none is the return.
abbrev pub next_stage : Stage → Option Stage
next_stage at_config = some at_addresses
next_stage at_addresses = some at_roots
next_stage at_roots = some at_cache
next_stage at_cache = none

abbrev pub advanced : Applying → Option Applying
advanced a = elim (next_stage a.stage) [ none ↦ none | some st ↦ some (record a { stage = st }) ]

abbrev pub call_at : List Applying → ℕ → Option Applying
call_at [] i = none
call_at (a ∷ calls) zero = some a
call_at (a ∷ calls) (suc i) = call_at calls i

abbrev pub cons_call : Option Applying → List Applying → List Applying
cons_call none calls = calls
cons_call (some a) calls = a ∷ calls

-- The calls when one of them has gone on, or has returned.
abbrev pub put_call : List Applying → ℕ → Option Applying → List Applying
put_call [] i o = []
put_call (a ∷ calls) zero o = cons_call o calls
put_call (a ∷ calls) (suc i) o = a ∷ put_call calls i o

module _ {Registry : Type 0} where
  -- A call of applyReloadedConfig begins.
  unfoldable pub apply_reloaded_config : Bool → Config → Service Registry → Service Registry
  apply_reloaded_config by_signal c s = record s {
    applying = record { config = c; stage = at_config; by_signal = by_signal } ∷ s.applying;
  }

module _ {Registry : Type 0} (canonical : Text → Option Text) where
  -- The write of a stage.
  unfoldable pub write_stage : Stage → Config → Service Registry → Service Registry
  unfolding invalidate Config.resolve_address
  write_stage at_config c s = record s { current_config = c }
  write_stage at_addresses c s = record s { resolve_address = Config.resolve_address canonical c }
  write_stage at_roots c s = record s {
    root_servers = (if is_nil c.root_servers then default_root_servers else c.root_servers);
  }
  write_stage at_cache c s = record s { delegation_cache = invalidate s.delegation_cache }

  -- One write of the call at a position of the list; nothing where there is none.
  unfoldable pub advance_in : List Applying → ℕ → Service Registry → Service Registry
  unfolding write_stage
  advance_in calls i s = elim (call_at calls i) [
    | none ↦ record s { applying = calls }
    | some a ↦ record (write_stage a.stage a.config s) { applying = put_call calls i (advanced a) }
  ]

  unfoldable pub advance_call : ℕ → Service Registry → Service Registry
  unfolding advance_in
  advance_call i s = advance_in s.applying i s

  -- The state when main has loaded its configuration; `ttl` is the time to live in nanoseconds.
  unfoldable pub start : Config → DelegationCache DelegationResult → Service Registry
  unfolding Config.resolve_address join_host_port
  start c cache = record {
    current_config = c;
    resolve_address =
        (if is_nil c.address_overrides then join_host_port else Config.resolve_address canonical c);
    root_servers = (if is_nil c.root_servers then default_root_servers else c.root_servers);
    delegation_cache = cache;
    cycle_registry = none;
    running = false;
    applying = [];
  }

module _ {Registry : Type 0} where
  -- The answer is sent when the call has returned.
  abbrev pub reload_with : Loaded Config → Service Registry → Response Registry × Service Registry
  reload_with (ok c) s = (plain_ok, apply_reloaded_config false c s)
  reload_with (err e) s = (reload_failed e, s)

  -- /-/reload, with what loading the file gives.
  unfoldable pub serve_reload :
      Bool → Loaded Config → Service Registry → Response Registry × Service Registry
  unfolding apply_reloaded_config
  serve_reload is_post loaded s = if is_post then reload_with loaded s else (method_not_allowed, s)

  -- SIGHUP
  unfoldable pub on_sighup : Loaded Config → Service Registry → Service Registry
  unfolding apply_reloaded_config
  on_sighup (ok c) s = apply_reloaded_config true c s
  on_sighup (err e) s = s
