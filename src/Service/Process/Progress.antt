-- ===== src/Service/Process/Progress.antt =====
-- The loop goes on: what it can do in each state that the process reaches, and how often a cycle
-- begins.
use dnshealth_exporter.Prelude.{
  ℕ, suc, ◌+◌, ◌*◌, ◌≤◌, ◌≡◌, refl, sym, ap, ◌∙◌, Bool, true, false, ◌||◌, Option, arith,
  if◌then◌else◌, false≢true,
}
use dnshealth_exporter.Prelude.Int.{ℤ, is_positive}
use dnshealth_exporter.Text.{Text}
use dnshealth_exporter.Cache.{DelegationCache}
use dnshealth_exporter.Resolver.Delegation.{DelegationResult}
use dnshealth_exporter.Service.{Service, end_cycle}
use dnshealth_exporter.Service.Process.{
  LoopAt, calling, waiting, crashed, probing, is_crashed, Process, to_ticker, enter_cycle,
  finish_cycle, on_tick, wake, first_process, calls, completes, ticks, wakes, requests, hangs_up,
  reload_goes_on, Turn, Turns, still, ◌then_turn◌,
}
use dnshealth_exporter.Service.Process.Guard.{
  is_probing, is_waiting, Guarded, enter_cycle-idle, Turn-Guarded, Turns-Guarded,
}

-- The turns of the loop that are left before the next call of runCycle.
abbrev remaining : LoopAt → ℕ
remaining calling = 0
remaining waiting = 1
remaining crashed = 1
remaining (probing c) = 2

remaining-le : (at : LoopAt) → remaining at ≤ 2
remaining-le calling = omega arith
remaining-le waiting = omega arith
remaining-le crashed = omega arith
remaining-le (probing c) = omega arith

-- A process that has crashed was started with an interval that is not positive.
abbrev Timed : {Registry : Type 0} → ℤ → Process Registry → Type 0
Timed interval p =
    (p.probe_interval ≡ interval) × (is_crashed p.loop_at ≡ true → is_positive interval ≡ false)

module _ {Registry : Type 0} (canonical : Text → Option Text) where
  -- The turns that the goroutine of the loop takes, and the cycles that begin in them.
  abbrev pub loop_turns : {p q : Process Registry} → Turns canonical p q → ℕ
  loop_turns still = 0
  loop_turns (ts then_turn calls h) = suc (loop_turns ts)
  loop_turns (ts then_turn completes c reg cache h k) = suc (loop_turns ts)
  loop_turns (ts then_turn ticks l) = loop_turns ts
  loop_turns (ts then_turn wakes h k) = suc (loop_turns ts)
  loop_turns (ts then_turn requests loaded req l) = loop_turns ts
  loop_turns (ts then_turn hangs_up loaded l q) = loop_turns ts
  loop_turns (ts then_turn reload_goes_on i l) = loop_turns ts

  abbrev pub begun : {p q : Process Registry} → Turns canonical p q → ℕ
  begun still = 0
  begun (ts then_turn calls {p} h) =
      if is_probing (enter_cycle p).loop_at then suc (begun ts) else begun ts
  begun (ts then_turn completes c reg cache h k) = begun ts
  begun (ts then_turn ticks l) = begun ts
  begun (ts then_turn wakes h k) = begun ts
  begun (ts then_turn requests loaded req l) = begun ts
  begun (ts then_turn hangs_up loaded l q) = begun ts
  begun (ts then_turn reload_goes_on i l) = begun ts

  -- What the loop does next: a call begins a cycle of the configuration that is current, a probe
  -- may end with any registry and cache, and a loop that waits wakes at the next tick; a process
  -- that has crashed had no positive interval.
  abbrev pub Moves : ℤ → Process Registry → LoopAt → Type 0
  Moves interval p calling = (enter_cycle p).loop_at ≡ probing p.service.current_config
  Moves interval p waiting = Turn canonical (on_tick p) (wake (on_tick p))
  Moves interval p crashed = is_positive interval ≡ false
  Moves interval p (probing c) =
      (reg : Registry) (cache : DelegationCache DelegationResult)
      → cache.ttl ≡ p.service.delegation_cache.ttl
      → Turn canonical p (finish_cycle reg cache p)

  on_tick-pending : (p : Process Registry) → p.ticking ≡ true → (on_tick p).tick_pending ≡ true
  unfolding on_tick
  on_tick-pending p h = ground arith

  on_tick-loop_at : (p : Process Registry) → (on_tick p).loop_at ≡ p.loop_at
  unfolding on_tick
  on_tick-loop_at p = ground arith

  enter_cycle-probing :
      (p : Process Registry)
      → Guarded p
      → p.loop_at ≡ calling
      → (enter_cycle p).loop_at ≡ probing p.service.current_config
  enter_cycle-probing p g h =
      ap (λ (x : Process Registry). x.loop_at) (enter_cycle-idle p (g.marked ∙ ap is_probing h))

  finish_cycle-remaining :
      (reg : Registry) (cache : DelegationCache DelegationResult) (p : Process Registry)
      → remaining (finish_cycle reg cache p).loop_at ≡ 1
  unfolding finish_cycle to_ticker
  finish_cycle-remaining reg cache p = ground arith

  Turns-keep : {p q : Process Registry} → Guarded p → Turns canonical p q → Guarded q
  Turns-keep g still = g
  Turns-keep g (ts then_turn t) = Turn-Guarded canonical t (Turns-keep g ts)

  begun-remaining :
      {p q : Process Registry} (g : Guarded p) (us : Turns canonical p q)
      → loop_turns us + remaining q.loop_at ≡ 3 * begun us + remaining p.loop_at
  unfolding wake
  begun-remaining g still = refl
  begun-remaining g (us then_turn calls {p = r} e) =
      rw (enter_cycle-probing r (Turns-keep g us) e)
        (omega (arith, begun-remaining g us, ap remaining e))
  begun-remaining g (us then_turn completes c reg cache {p = r} e k) =
      rw (finish_cycle-remaining reg cache r) (omega (arith, begun-remaining g us, ap remaining e))
  begun-remaining g (us then_turn ticks {p = r} l) = rw (on_tick-loop_at r) (begun-remaining g us)
  begun-remaining g (us then_turn wakes {p = r} e k) =
      omega (arith, begun-remaining g us, ap remaining e)
  begun-remaining g (us then_turn requests loaded req l) = begun-remaining g us
  begun-remaining g (us then_turn hangs_up loaded l q) = begun-remaining g us
  begun-remaining g (us then_turn reload_goes_on i l) = begun-remaining g us

  to_ticker-Timed :
      (interval : ℤ) (b : Bool) (p : Process Registry)
      → p.probe_interval ≡ interval
      → (b ≡ false → is_positive interval ≡ false)
      → Timed interval (
          if b
          then record p { loop_at = waiting; ticking = true }
          else record p { loop_at = crashed })
  to_ticker-Timed interval true p h k = (h, λ e. absurd (false≢true e))
  to_ticker-Timed interval false p h k = (h, λ e. k refl)

  Turn-Timed :
      {p q : Process Registry} (interval : ℤ)
      → Guarded p
      → Turn canonical p q
      → Timed interval p
      → Timed interval q
  unfolding finish_cycle to_ticker on_tick wake
  Turn-Timed interval g (calls {p} e) (t, k) =
      rw (enter_cycle-idle p (g.marked ∙ ap is_probing e)) (t, λ f. absurd (false≢true f))
  Turn-Timed interval g (completes c reg cache {p} e l) (t, k) =
      to_ticker-Timed interval (p.ticking || is_positive p.probe_interval)
        (record p { service = end_cycle reg cache p.service }) t
        (λ f. ap is_positive (sym t) ∙ ground (arith, f))
  Turn-Timed interval g (ticks {p} l) t = on_tick-Timed interval p.ticking p t
    where
      on_tick-Timed :
          (i : ℤ) (b : Bool) (x : Process Registry)
          → Timed i x
          → Timed i (if b then record x { tick_pending = true } else x)
      on_tick-Timed i true x t = t
      on_tick-Timed i false x t = t
  Turn-Timed interval g (wakes e l) (t, k) = (t, λ f. absurd (false≢true f))
  Turn-Timed interval g (requests loaded req l) t = t
  Turn-Timed interval g (hangs_up loaded l q) t = t
  Turn-Timed interval g (reload_goes_on i l) t = t

  Turns-Timed :
      {p q : Process Registry} (interval : ℤ)
      → Guarded p
      → Turns canonical p q
      → Timed interval p
      → Timed interval q
  Turns-Timed interval g still t = t
  Turns-Timed interval g (ts then_turn u) t =
      Turn-Timed interval (Turns-keep g ts) u (Turns-Timed interval g ts t)

  Moves-Guarded :
      (interval : ℤ) (p : Process Registry) (at : LoopAt)
      → Guarded p
      → Timed interval p
      → p.loop_at ≡ at
      → Moves interval p at
  Moves-Guarded interval p calling g t h = enter_cycle-probing p g h
  Moves-Guarded interval p waiting g t h =
      wakes (on_tick-loop_at p ∙ h) (on_tick-pending p (g.ticker_made (ap is_waiting h)))
  Moves-Guarded interval p crashed g t h = t.1 (ap is_crashed h)
  Moves-Guarded interval p (probing c) g t h = λ reg cache k. completes c reg cache h k

  -- In every sequence of turns between two states that the process reaches from a service that runs
  -- no cycle, whatever requests, signals, reloads and ticks come in between, a cycle begins at least
  -- once in three turns of the loop. The loop is never stuck in the state that is reached: a call
  -- begins a cycle of the configuration that is current, a probe may end whatever it comes to, and
  -- a loop that waits can wake at the next tick, unless the process has crashed, which happens only
  -- where the configuration of the start has an interval that is not positive.
  pub Turns-Advances :
      (s : Service Registry) (p q : Process Registry)
      → s.running ≡ false
      → Turns canonical (first_process canonical s) p
      → (us : Turns canonical p q)
      → (loop_turns us ≤ 3 * begun us + 2) × Moves s.current_config.probe_interval q q.loop_at
  Turns-Advances s p q h ts us =
      let g = Turns-Guarded canonical s p h ts in
      let first = Turns-Guarded canonical s (first_process canonical s) h still in
      let timed =
        Turns-Timed s.current_config.probe_interval first ts (refl, λ e. absurd (false≢true e)) in
      (
        omega (arith, begun-remaining g us, remaining-le p.loop_at),
        Moves-Guarded s.current_config.probe_interval q q.loop_at (Turns-keep g us)
            (Turns-Timed s.current_config.probe_interval g us timed) refl,
      )
