-- ===== src/Service/Reloads.antt =====
-- Which configuration the service follows, and what overlapping reloads leave.
use dnshealth_exporter.Prelude.{
  ℕ, zero, suc, Bool, true, false, Option, List, [], ◌∷◌, ◌≡◌, refl, ◌∙◌, if◌then◌else◌, is_nil, ap,
  sym, subst,
}
use dnshealth_exporter.Text.{Text, lookup}
use dnshealth_exporter.Cache.{DelegationCache, invalidate}
use dnshealth_exporter.Config
use dnshealth_exporter.Config.{Config, Loaded, ok, err, join_host_port}
use dnshealth_exporter.Resolver.Delegation.{DelegationResult}
use dnshealth_exporter.Service.{
  Service, Stage, at_config, at_addresses, at_roots, at_cache, Applying, write_stage, advance_in,
  advance_call, default_root_servers, apply_reloaded_config, start, end_cycle, serve_reload,
  on_sighup,
}
use dnshealth_exporter.Service.Steps.{
  Run, here, ◌then_step◌, begins, ends, reloads, signals, advances, last_config,
  begin_cycle-changes,
}

resolve_address-none :
    (canonical : Text → Option Text) (c : Config) (ip : Text)
    → c.address_overrides ≡ []
    → Config.resolve_address canonical c ip ≡ join_host_port ip
unfolding Config.resolve_address lookup
resolve_address-none canonical c ip h = rw h refl

start-addresses :
    (canonical : Text → Option Text) (c : Config) (m : List (Text × Text))
    → m ≡ c.address_overrides
    → (ip : Text)
    → (if is_nil m then join_host_port else Config.resolve_address canonical c) ip
      ≡ Config.resolve_address canonical c ip
start-addresses canonical c [] e ip = sym (resolve_address-none canonical c ip (sym e))
start-addresses canonical c (k ∷ m) e ip = refl

-- What a state makes of a configuration, part by part.
abbrev pub ConfigOf : {Registry : Type 0} → Config → Service Registry → Type 0
ConfigOf c t = t.current_config ≡ c

abbrev pub AddressesOf :
    {Registry : Type 0} → (Text → Option Text) → Config → Service Registry → Type 0
AddressesOf canonical c t =
    (ip : Text) → t.resolve_address ip ≡ Config.resolve_address canonical c ip

abbrev pub RootsOf : {Registry : Type 0} → Config → Service Registry → Type 0
RootsOf c t =
    t.root_servers ≡ (if is_nil c.root_servers then default_root_servers else c.root_servers)

module _ {Registry : Type 0} (canonical : Text → Option Text) where
  abbrev pub Follows : ℕ → Config → Service Registry → Type 0
  Follows ttl c t =
      ConfigOf c t × AddressesOf canonical c t × RootsOf c t × (t.delegation_cache.ttl ≡ ttl)

  -- What the writes before a stage have made of a configuration.
  abbrev Written : ℕ → Config → Service Registry → Stage → Type 0
  Written ttl c t at_config = t.delegation_cache.ttl ≡ ttl
  Written ttl c t at_addresses = ConfigOf c t × (t.delegation_cache.ttl ≡ ttl)
  Written ttl c t at_roots =
      ConfigOf c t × AddressesOf canonical c t × (t.delegation_cache.ttl ≡ ttl)
  Written ttl c t at_cache = Follows ttl c t

  -- A state with no call of applyReloadedConfig in progress, or with one.
  abbrev Following : ℕ → Config → Service Registry → List Applying → Type 0
  Following ttl c t [] = Follows ttl c t
  Following ttl c t (a ∷ []) = (a.config ≡ c) × Written ttl c t a.stage
  Following ttl c t (a ∷ b ∷ calls) = ⊥

  -- No call of applyReloadedConfig begins while another one is in progress.
  abbrev pub Alone : {s t : Service Registry} → Run canonical s t → Type 0
  Alone here = Unit
  Alone (r then_step begins e) = Alone r
  Alone (r then_step ends reg cache e k) = Alone r
  Alone (r then_step reloads p l {s}) = (s.applying ≡ []) × Alone r
  Alone (r then_step signals l {s} k) = (s.applying ≡ []) × Alone r
  Alone (r then_step advances i) = Alone r

  write_stage-Following :
      (ttl : ℕ) (c c' : Config) (st : Stage) (by_signal : Bool) (t : Service Registry)
      → c' ≡ c
      → Written ttl c t st
      → let a : Applying = record { config = c'; stage = st; by_signal = by_signal } in
        let u = advance_in canonical (a ∷ []) 0 t in Following ttl c u u.applying
  unfolding advance_in write_stage invalidate
  write_stage-Following ttl c c' at_config by_signal t p h = (p, (p, h))
  write_stage-Following ttl c c' at_addresses by_signal t p (h, l) =
      (p, (h, λ ip. ap (λ x. Config.resolve_address canonical x ip) p, l))
  write_stage-Following ttl c c' at_roots by_signal t p (h, k, l) = (
    p,
    (
      h,
      k,
      ap (λ (x : Config). if is_nil x.root_servers then default_root_servers else x.root_servers) p,
      l,
    ),
  )
  write_stage-Following ttl c c' at_cache by_signal t p h = h

  advance_in-Following :
      (ttl : ℕ) (c : Config) (calls : List Applying) (i : ℕ) (t : Service Registry)
      → Following ttl c t calls
      → let u = advance_in canonical calls i t in Following ttl c u u.applying
  unfolding advance_in
  advance_in-Following ttl c [] i t h = h
  advance_in-Following ttl c (a ∷ []) zero t (p, h) =
      write_stage-Following ttl c a.config a.stage a.by_signal t p h
  advance_in-Following ttl c (a ∷ []) (suc i) t h = h
  advance_in-Following ttl c (a ∷ b ∷ calls) i t h = absurd h

  end_cycle-Written :
      (ttl : ℕ) (c : Config) (st : Stage) (reg : Registry)
      (cache : DelegationCache DelegationResult) (t : Service Registry)
      → cache.ttl ≡ t.delegation_cache.ttl
      → Written ttl c t st
      → Written ttl c (end_cycle reg cache t) st
  unfolding end_cycle
  end_cycle-Written ttl c at_config reg cache t k h = k ∙ h
  end_cycle-Written ttl c at_addresses reg cache t k (h, l) = (h, k ∙ l)
  end_cycle-Written ttl c at_roots reg cache t k (h, a, l) = (h, a, k ∙ l)
  end_cycle-Written ttl c at_cache reg cache t k (h, a, r, l) = (h, a, r, k ∙ l)

  end_cycle-Following :
      (ttl : ℕ) (c : Config) (calls : List Applying) (reg : Registry)
      (cache : DelegationCache DelegationResult) (t : Service Registry)
      → cache.ttl ≡ t.delegation_cache.ttl
      → Following ttl c t calls
      → Following ttl c (end_cycle reg cache t) calls
  end_cycle-Following ttl c [] reg cache t k h = end_cycle-Written ttl c at_cache reg cache t k h
  end_cycle-Following ttl c (a ∷ []) reg cache t k (p, h) =
      (p, end_cycle-Written ttl c a.stage reg cache t k h)
  end_cycle-Following ttl c (a ∷ b ∷ calls) reg cache t k h = absurd h

  apply-Following :
      (ttl : ℕ) (c c' : Config) (by_signal : Bool) (t : Service Registry)
      → t.applying ≡ []
      → Following ttl c t t.applying
      → let u = apply_reloaded_config by_signal c' t in Following ttl c' u u.applying
  unfolding apply_reloaded_config
  apply-Following ttl c c' by_signal t e h =
      let f : Follows ttl c t = subst (Following ttl c t) e h in rw e (refl, f.3)

  Run-Following :
      (c : Config) (cache : DelegationCache DelegationResult) (t : Service Registry)
      (r : Run canonical (start canonical c cache) t)
      → Alone r
      → Following cache.ttl (last_config canonical c r) t t.applying
  unfolding start end_cycle serve_reload on_sighup advance_call apply_reloaded_config
  Run-Following c cache t here a =
      (refl, start-addresses canonical c c.address_overrides refl, refl, refl)
  Run-Following c cache t (q then_step begins {s} e) a =
      rw (begin_cycle-changes canonical s t e) (Run-Following c cache s q a)
  Run-Following c cache t (q then_step ends reg cache' {s} e k) a =
      end_cycle-Following cache.ttl _ s.applying reg cache' s k (Run-Following c cache s q a)
  Run-Following c cache t (q then_step reloads false l {s}) (e, a) = Run-Following c cache s q a
  Run-Following c cache t (q then_step reloads true (ok c') {s}) (e, a) =
      apply-Following cache.ttl (last_config canonical c q) c' false s e
        (Run-Following c cache s q a)
  Run-Following c cache t (q then_step reloads true (err x) {s}) (e, a) =
      Run-Following c cache s q a
  Run-Following c cache t (q then_step signals (ok c') {s} k) (e, a) =
      apply-Following cache.ttl (last_config canonical c q) c' true s e
        (Run-Following c cache s q a)
  Run-Following c cache t (q then_step signals (err x) {s} k) (e, a) = Run-Following c cache s q a
  Run-Following c cache t (q then_step advances i {s}) a =
      advance_in-Following cache.ttl (last_config canonical c q) s.applying i s
        (Run-Following c cache s q a)

  -- In every state that a run of the service reaches in which no reload began while another one was
  -- in progress, and in which none is in progress now, the configuration, the root servers (the
  -- built-in ones where it lists none) and the addresses that the probers dial are those of the last
  -- configuration that was loaded without an error; the time to live of the delegation cache is
  -- still the one of the start, whatever the reloaded configurations say.
  pub Run-Follows :
      (c : Config) (cache : DelegationCache DelegationResult) (t : Service Registry)
      (r : Run canonical (start canonical c cache) t)
      → Alone r
      → t.applying ≡ []
      → Follows cache.ttl (last_config canonical c r) t
  Run-Follows c cache t r a e =
      subst (Following cache.ttl (last_config canonical c r) t) e (Run-Following c cache t r a)

  -- Without a lock two reloads may mix: for any two configurations a run of the service from its
  -- start leads to a state in which no reload is in progress, with the configuration of the one and
  -- with the addresses and the root servers of the other, the one loaded last.
  pub reloads-mix :
      (c c1 c2 : Config) (cache : DelegationCache DelegationResult)
      → (t : Service Registry) × (r : Run canonical (start canonical c cache) t) × (t.applying ≡ [])
        × (last_config canonical c r ≡ c2)
        × ConfigOf c1 t
        × AddressesOf canonical c2 t
        × RootsOf c2 t
  unfolding start serve_reload apply_reloaded_config advance_call write_stage
  reloads-mix c c1 c2 cache = (
    _,
    here
        then_step reloads true (ok c1)
        then_step reloads true (ok c2)
        then_step advances 0
        then_step advances 1
        then_step advances 1
        then_step advances 1
        then_step advances 1
        then_step advances 0
        then_step advances 0
        then_step advances 0,
    refl,
    refl,
    refl,
    λ ip. refl,
    refl,
  )
