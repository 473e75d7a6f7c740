-- ===== src/Examples/Process.antt =====
-- main.go and NewRunner on small inputs.
use dnshealth_exporter.Prelude.{
  ℕ, ◌≤◌, ◌+◌, ◌*◌, ◌≡◌, refl, true, false, Option, none, some, List, [], ◌∷◌, if◌then◌else◌,
}
use dnshealth_exporter.Prelude.Int.{pos, negsuc}
use dnshealth_exporter.Text.{Text, bytes, contains}
use dnshealth_exporter.Cache.{DelegationCache}
use dnshealth_exporter.Config.{Config, ok, err, no_zones}
use dnshealth_exporter.Resolver.Delegation.{DelegationResult}
use dnshealth_exporter.Service.{Service, method_not_allowed, landing_page}
use dnshealth_exporter.Service.Process.{
  Process, exits, boot, first_process, enter_cycle, finish_cycle, on_tick, wake, to_ticker, crashed,
  wakes, serve, Turns, still, ◌then_turn◌, calls, completes, ticks,
}
use dnshealth_exporter.Service.Process.Guard.{Guarded, Turns-Guarded}
use dnshealth_exporter.Service.Process.Progress.{loop_turns, begun, Moves, Turns-Advances}
use dnshealth_exporter.Cycle.Registration.{
  MetricDesc, PermanentLib, is_well_formed, runner_metrics, build_info, metric_names,
  permanent_registry,
}
use dnshealth_exporter.Cycle.Registration.Total.{reverse_onto, permanent_registry-total}

abbrev canonical : Text → Option Text
canonical ip = none

abbrev config : Config
config = record {
  zones = bytes "example.com" ∷ [];
  probe_interval = pos 60;
  delegation_cache_ttl = pos 1800;
  query_timeout = pos 5;
  zone_deadline = pos 30;
  address_overrides = [];
  root_servers = bytes "192.0.2.1:53" ∷ [];
}

abbrev cache : DelegationCache DelegationResult
cache = record { entries = []; ttl = 1800 }

abbrev idle : Service ℕ
idle = record {
  current_config = config;
  resolve_address = λ ip. ip;
  root_servers = config.root_servers;
  delegation_cache = cache;
  cycle_registry = none;
  running = false;
  applying = [];
}

abbrev first : Process ℕ
first = first_process canonical idle

-- The first cycle, a tick in the middle of it, and its end.
abbrev cycled : Process ℕ
cycled = finish_cycle 7 cache (on_tick (enter_cycle first))

abbrev to_cycled : Turns canonical first cycled
unfolding enter_cycle finish_cycle on_tick
to_cycled =
    still then_turn calls refl then_turn ticks refl then_turn completes config 7 cache refl refl

-- The ticker is not there before the first cycle is complete.
early_tick : on_tick (enter_cycle first) ≡ enter_cycle first
unfolding on_tick enter_cycle
early_tick = refl

Turns-Guarded_example : Guarded cycled
Turns-Guarded_example = Turns-Guarded canonical idle cycled refl to_cycled

-- A tick, the wake of the loop, and the next cycle.
abbrev cycled_again : Process ℕ
cycled_again = enter_cycle (wake (on_tick cycled))

abbrev to_next : Turns canonical cycled cycled_again
unfolding enter_cycle finish_cycle to_ticker on_tick wake
to_next = still then_turn ticks refl then_turn wakes refl refl then_turn calls refl

Turns-Advances_example :
    (loop_turns canonical to_next ≤ 3 * begun canonical to_next + 2)
    × Moves canonical config.probe_interval cycled_again cycled_again.loop_at
Turns-Advances_example = Turns-Advances canonical idle cycled cycled_again refl to_cycled to_next

-- A negative interval passes the loading, and the process crashes when the first cycle is complete.
abbrev negative : Service ℕ
negative = record idle { current_config = record config { probe_interval = negsuc 59 } }

crashes : (finish_cycle 7 cache (enter_cycle (first_process canonical negative))).loop_at ≡ crashed
unfolding finish_cycle to_ticker enter_cycle
crashes = refl

-- A configuration without zones ends the process.
boot_fails : boot {Registry = ℕ} canonical (λ c. 1800) (err no_zones) ≡ exits 1
unfolding boot
boot_fails = refl

reload_by_get :
    (serve canonical (ok config) (record { path = bytes "/-/reload"; is_post = false }) idle).0
    ≡ method_not_allowed
unfolding serve
reload_by_get = refl

other_path :
    (serve canonical (ok config) (record { path = bytes "/favicon.ico"; is_post = false }) idle).0
    ≡ landing_page
unfolding serve
other_path = refl

-- A registry that is the list of the names, and refuses what the document says.
abbrev register_name : List Text → MetricDesc → Option (List Text)
register_name names d =
    if is_well_formed d then if contains names d.name then none else some (d.name ∷ names) else none

register_name-fresh :
    (names : List Text) (d : MetricDesc)
    → is_well_formed d ≡ true
    → contains names d.name ≡ false
    → register_name names d ≡ some (d.name ∷ names)
register_name-fresh names d h k = rw (h, k) refl

abbrev name_registry : PermanentLib
name_registry = record {
  Registry = List Text;
  new_registry = [];
  register = register_name;
  registered = λ names. names;
  registered_new = refl;
  register_fresh = λ names d h k. (d.name ∷ names, register_name-fresh names d h k, refl);
}

permanent_registry-total_example :
    (reg : List Text) × (permanent_registry name_registry ≡ some reg)
    × (reg ≡ reverse_onto (metric_names runner_metrics) (metric_names (build_info ∷ [])))
permanent_registry-total_example = permanent_registry-total name_registry
