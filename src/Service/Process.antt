-- ===== src/Service/Process.antt =====
-- main.go: the process around the shared state. The start and its exit codes, the background loop
-- with its ticker, and the requests that the handlers of the mux answer.
pub mod Guard
pub mod Progress
use dnshealth_exporter.Prelude.{
  ℕ, suc, ◌≡◌, Bool, true, false, Option, none, some, List, if◌then◌else◌, any, ◌||◌,
}
use dnshealth_exporter.Prelude.Int.{ℤ, is_positive}
use dnshealth_exporter.Text.{Text, bytes, ◌==◌}
use dnshealth_exporter.Config.{Config, Loaded, ok, err}
use dnshealth_exporter.Cache.{DelegationCache, new_delegation_cache}
use dnshealth_exporter.Resolver.Delegation.{DelegationResult}
use dnshealth_exporter.Service.{
  Service, Response, start, begin_cycle, end_cycle, serve_metrics, serve_reload, on_sighup,
  advance_call, plain_ok, landing_page,
}

-- Where the goroutine of the loop is: at a call of runCycle, in runner.Run with the configuration
-- that it loaded, or at the channel of the ticker; or the process has crashed, since time.NewTicker
-- panics on an interval that is not positive.
pub data LoopAt : Type 0 where
  calling waiting crashed : LoopAt
  probing : Config → LoopAt

abbrev pub is_crashed : LoopAt → Bool
is_crashed calling = false
is_crashed waiting = false
is_crashed crashed = true
is_crashed (probing c) = false

-- `ticking` holds when the ticker is made, which is after the first cycle; `tick_pending` is the
-- place in the ticker's channel, `probe_interval` is the one of the configuration of the start, and
-- `skipped` counts the warnings of runCycle.
pub record Process (Registry : Type 0) : Type 0 where
  pub service : Service Registry
  pub loop_at : LoopAt
  pub ticking : Bool
  pub tick_pending : Bool
  pub probe_interval : ℤ
  pub skipped : ℕ

-- What main comes to: os.Exit or the end of main with a code, or a process that serves.
pub data Life (Registry : Type 0) : Type 0 where
  exits : ℕ → Life Registry
  serves : Process Registry → Life Registry

-- A request that the mux routes by its path, and whether its method is POST.
pub record Request : Type 0 where
  pub path : Text
  pub is_post : Bool

module _ {Registry : Type 0} where
  -- The return from runCycle: to the ticker, which is made behind the first cycle.
  unfoldable pub to_ticker : Process Registry → Process Registry
  to_ticker p =
      if p.ticking || is_positive p.probe_interval
      then record p { loop_at = waiting; ticking = true }
      else record p { loop_at = crashed }

  -- runCycle up to the probe: skipped with a warning where the guard finds a cycle running.
  unfoldable pub enter_cycle : Process Registry → Process Registry
  unfolding begin_cycle to_ticker
  enter_cycle p = elim (begin_cycle p.service) [
    | none ↦ to_ticker (record p { skipped = suc p.skipped })
    | some s ↦ record p { service = s; loop_at = probing s.current_config }
  ]

  -- runCycle behind the probe, and the return to the loop.
  unfoldable pub finish_cycle :
      Registry → DelegationCache DelegationResult → Process Registry → Process Registry
  unfolding end_cycle to_ticker
  finish_cycle reg cache p = to_ticker (record p { service = end_cycle reg cache p.service })

  -- The ticker sends, and drops the tick where its channel is full.
  unfoldable pub on_tick : Process Registry → Process Registry
  on_tick p = if p.ticking then record p { tick_pending = true } else p

  -- for range ticker.C
  unfoldable pub wake : Process Registry → Process Registry
  wake p = record p { loop_at = calling; tick_pending = false }

module _ {Registry : Type 0} (canonical : Text → Option Text) where
  -- The handlers of the mux; each path without a handler of its own falls to the one of "/".
  unfoldable pub serve :
      Loaded Config → Request → Service Registry → Response Registry × Service Registry
  unfolding serve_metrics serve_reload ◌==◌
  serve loaded req s =
      if req.path == bytes "/metrics"
      then (serve_metrics s, s)
      else if req.path == bytes "/-/healthy"
      then (plain_ok, s)
      else if req.path == bytes "/-/reload"
      then serve_reload req.is_post loaded s
      else (landing_page, s)

  abbrev pub first_process : Service Registry → Process Registry
  first_process s = record {
    service = s;
    loop_at = calling;
    ticking = false;
    tick_pending = false;
    probe_interval = s.current_config.probe_interval;
    skipped = 0;
  }

  -- The start of main, with what loading the file gives and the time to live in nanoseconds.
  unfoldable pub boot : (Config → ℕ) → Loaded Config → Life Registry
  unfolding start new_delegation_cache
  boot ttl (err e) = exits 1
  boot ttl (ok c) = serves (first_process (start canonical c (new_delegation_cache (ttl c))))

  -- One step of a goroutine of the process, or of its environment; none is left after a crash.
  pub data Turn : Process Registry → Process Registry → Type 0 where
    calls : {p : Process Registry} → p.loop_at ≡ calling → Turn p (enter_cycle p)
    completes :
        (c : Config) (reg : Registry) (cache : DelegationCache DelegationResult)
        {p : Process Registry}
        → p.loop_at ≡ probing c
        → cache.ttl ≡ p.service.delegation_cache.ttl
        → Turn p (finish_cycle reg cache p)
    ticks : {p : Process Registry} → is_crashed p.loop_at ≡ false → Turn p (on_tick p)
    wakes : {p : Process Registry} → p.loop_at ≡ waiting → p.tick_pending ≡ true → Turn p (wake p)
    requests :
        (loaded : Loaded Config) (req : Request) {p : Process Registry}
        → is_crashed p.loop_at ≡ false
        → Turn p (record p { service = (serve loaded req p.service).1 })
    hangs_up :
        (loaded : Loaded Config) {p : Process Registry}
        → is_crashed p.loop_at ≡ false
        → any (λ a. a.by_signal) p.service.applying ≡ false
        → Turn p (record p { service = on_sighup loaded p.service })
    reload_goes_on :
        (i : ℕ) {p : Process Registry}
        → is_crashed p.loop_at ≡ false
        → Turn p (record p { service = advance_call canonical i p.service })

  infixl 5 ◌then_turn◌
  pub data Turns (p : Process Registry) : Process Registry → Type 0 where
    still : Turns p p
    ◌then_turn◌ : {q r : Process Registry} → Turns p q → Turn q r → Turns p r
