-- ===== src/Service/Process/Guard.antt =====
-- The guard of runCycle in the states that the process reaches.
use dnshealth_exporter.Prelude.{
  ◌||◌, ◌≡◌, refl, ap, ◌∙◌, Bool, true, false, Option, arith, if◌then◌else◌, false≢true,
}
use dnshealth_exporter.Prelude.Int.{is_positive}
use dnshealth_exporter.Text.{Text}
use dnshealth_exporter.Config.{Config, Loaded, ok, err}
use dnshealth_exporter.Service.{
  Service, begin_cycle, end_cycle, serve_reload, on_sighup, apply_reloaded_config, advance_call,
}
use dnshealth_exporter.Service.Steps.{advance_in-Kept}
use dnshealth_exporter.Service.Process.{
  to_ticker, LoopAt, calling, waiting, probing, Process, enter_cycle, finish_cycle, on_tick, wake,
  serve, first_process, Turn, calls, completes, ticks, wakes, requests, hangs_up, reload_goes_on,
  crashed, Turns, still, ◌then_turn◌,
}

abbrev pub is_probing : LoopAt → Bool
is_probing calling = false
is_probing waiting = false
is_probing crashed = false
is_probing (probing c) = true

abbrev pub is_waiting : LoopAt → Bool
is_waiting calling = false
is_waiting waiting = true
is_waiting crashed = false
is_waiting (probing c) = false

-- No call was skipped, the place of the running cycle is taken exactly during a probe, and the
-- loop waits for ticks only when the ticker is made.
pub record Guarded {Registry : Type 0} (p : Process Registry) : Type 0 where
  pub none_skipped : p.skipped ≡ 0
  pub marked : p.service.running ≡ is_probing p.loop_at
  pub ticker_made : is_waiting p.loop_at ≡ true → p.ticking ≡ true

module _ {Registry : Type 0} where
  pub enter_cycle-idle :
      (p : Process Registry)
      → p.service.running ≡ false
      → enter_cycle p ≡ record p {
        service = record p.service { running = true };
        loop_at = probing p.service.current_config;
      }
  unfolding enter_cycle begin_cycle
  enter_cycle-idle p h = rw h refl

module _ {Registry : Type 0} (canonical : Text → Option Text) where
  serve_reload-running :
      (is_post : Bool) (loaded : Loaded Config) (s : Service Registry)
      → (serve_reload is_post loaded s).1.running ≡ s.running
  unfolding serve_reload apply_reloaded_config
  serve_reload-running false loaded s = refl
  serve_reload-running true (ok c) s = refl
  serve_reload-running true (err e) s = refl

  serve-running :
      (loaded : Loaded Config) (is_post : Bool) (path : Text) (s : Service Registry)
      → (serve canonical loaded (record { path = path; is_post = is_post }) s).1.running ≡ s.running
  unfolding serve
  serve-running loaded is_post path s = ground (arith, serve_reload-running is_post loaded s)

  on_sighup-running :
      (loaded : Loaded Config) (s : Service Registry) → (on_sighup loaded s).running ≡ s.running
  unfolding on_sighup apply_reloaded_config
  on_sighup-running (ok c) s = refl
  on_sighup-running (err e) s = refl

  ticked-Guarded :
      (b : Bool) (p : Process Registry)
      → Guarded p
      → Guarded (if b then record p { tick_pending = true } else p)
  ticked-Guarded false p g = g
  ticked-Guarded true p g = record {
    none_skipped = g.none_skipped;
    marked = g.marked;
    ticker_made = g.ticker_made;
  }

  to_ticker-Guarded :
      (b : Bool) (p : Process Registry)
      → p.skipped ≡ 0
      → p.service.running ≡ false
      → Guarded (
          if b
          then record p { loop_at = waiting; ticking = true }
          else record p { loop_at = crashed })
  to_ticker-Guarded true p h k = record { none_skipped = h; marked = k; ticker_made = λ e. refl }
  to_ticker-Guarded false p h k = record {
    none_skipped = h;
    marked = k;
    ticker_made = λ e. absurd (false≢true e);
  }

  pub Turn-Guarded : {p q : Process Registry} → Turn canonical p q → Guarded p → Guarded q
  unfolding finish_cycle to_ticker end_cycle on_tick wake advance_call
  Turn-Guarded (calls {p} h) g = rw (enter_cycle-idle p (g.marked ∙ ap is_probing h)) (record {
    none_skipped = g.none_skipped;
    marked = refl;
    ticker_made = λ e. absurd (false≢true e);
  })
  Turn-Guarded (completes c reg cache {p} h k) g =
      to_ticker-Guarded (p.ticking || is_positive p.probe_interval)
        (record p { service = end_cycle reg cache p.service }) g.none_skipped refl
  Turn-Guarded (ticks {p} l) g = ticked-Guarded p.ticking p g
  Turn-Guarded (wakes h k) g = record {
    none_skipped = g.none_skipped;
    marked = g.marked ∙ ap is_probing h;
    ticker_made = λ e. absurd (false≢true e);
  }
  Turn-Guarded (requests loaded req {p} l) g = record {
    none_skipped = g.none_skipped;
    marked = serve-running loaded req.is_post req.path p.service ∙ g.marked;
    ticker_made = g.ticker_made;
  }
  Turn-Guarded (hangs_up loaded {p} l q) g = record {
    none_skipped = g.none_skipped;
    marked = on_sighup-running loaded p.service ∙ g.marked;
    ticker_made = g.ticker_made;
  }
  Turn-Guarded (reload_goes_on i {p} l) g = record {
    none_skipped = g.none_skipped;
    marked = (advance_in-Kept canonical p.service.applying i p.service).1 ∙ g.marked;
    ticker_made = g.ticker_made;
  }

  -- In every state that the process reaches from a service that runs no cycle, whatever requests,
  -- signals and ticks there were, no call of runCycle has found a cycle running and been skipped,
  -- the service is marked as running exactly while the loop is in a probe, so that at most one
  -- cycle runs at a time, and the loop waits for the ticker only when it is made.
  pub Turns-Guarded :
      (s : Service Registry) (t : Process Registry)
      → s.running ≡ false
      → Turns canonical (first_process canonical s) t
      → Guarded t
  Turns-Guarded s t h still = record {
    none_skipped = refl;
    marked = h;
    ticker_made = λ e. absurd (false≢true e);
  }
  Turns-Guarded s t h (ts then_turn u) = Turn-Guarded u (Turns-Guarded s _ h ts)
