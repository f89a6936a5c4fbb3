-- ===== src/Gateway/Launch/Processes.antt =====
-- The processes that `launch_services` starts.
use mathlib.Core.Path.{subst}
use ara_nes_lms_core.Base.{
  string_eq, nat_eq, ℕ, ◌+◌, String, Bool, true, not, ◌||◌, none, List, [], ◌∷◌, any, ◌==◌, ==_iff,
  ==_refl, ok, raise, ◌≡◌, ◌≢◌, refl, sym, arith, Bool-cases, inl, inr, All, All-map_of, All-filter,
}
use ara_nes_lms_core.Dict.{Dict, get, set}
use ara_nes_lms_core.Dict.Laws.{get-set}
use ara_nes_lms_core.Gateway.Manifest.{DiscoveredService}
use ara_nes_lms_core.Gateway.Ports.{
  Allocation, allocated, no_free_port, bind_raised, out_of_fuel, allocate_free_port,
}
use ara_nes_lms_core.Gateway.Readiness as Readiness
use ara_nes_lms_core.Gateway.Readiness.{Waited}
use ara_nes_lms_core.Gateway.Launch.{
  System, ManagedServiceRuntime, Gateway, wait_error, Launched, is_skipped, terminate_each,
  shutdown_services, registered, runtime_of, after_wait, wait_for, launch_on, launch_next,
  launch_services, go_on, build_start_command,
}

any-set_fresh :
    {V : Type 0} (p : String × V → Bool) (d : Dict String V) (k : String) (v : V)
    → get d k ≡ none
    → any p (set d k v) ≡ (any p d || p (k, v))
unfolding get set
any-set_fresh p [] k v h = ground arith
any-set_fresh p ((j, w) ∷ d) k v h = ground (arith, any-set_fresh p d k v)

module _ {F : Type 0} where
  abbrev has_process : Dict String (ManagedServiceRuntime F) → ℕ → Bool
  has_process registry process = any (λ e. e.1.process == process) registry

  -- Each process that was started and not terminated is in the registry.
  abbrev pub IsOwned : Gateway F → Type 0
  IsOwned g = All (λ process. any (λ e. e.1.process == process) g.registry ≡ true) g.started

  -- The names of the services are distinct, and none is registered yet.
  abbrev pub IsFresh : Dict String (ManagedServiceRuntime F) → List (DiscoveredService F) → Type 0
  IsFresh registry [] = Unit
  IsFresh registry (service ∷ services) =
      (get registry service.name ≡ none)
      × All (λ other. service.name ≢ other.name) services
      × IsFresh registry services

  terminate_each-nil :
      (registry : Dict String (ManagedServiceRuntime F)) (started : List ℕ)
      → All (λ process. has_process registry process ≡ true) started
      → terminate_each registry started ≡ []
  unfolding terminate_each
  terminate_each-nil [] [] h = refl
  terminate_each-nil [] (p ∷ ps) h = absurd (cc)
  terminate_each-nil ((name, service) ∷ registry) started h = terminate_each-nil registry _ (
      All-map_of _ _ _ (λ p both. still p both)
        (All-filter (λ p. (service.process == p || has_process registry p) ≡ true)
          (λ p. not (p == service.process)) started h))
    where
      still :
          (p : ℕ)
          → ((service.process == p || has_process registry p) ≡ true)
            × (not (p == service.process) ≡ true)
          → has_process registry p ≡ true
      still p (among, other) =
          ground (arith, among, other, ==_iff service.process p, ==_iff p service.process)

  set-IsFresh :
      (registry : Dict String (ManagedServiceRuntime F)) (name : String)
      (runtime : ManagedServiceRuntime F) (services : List (DiscoveredService F))
      → All (λ other. name ≢ other.name) services
      → IsFresh registry services
      → IsFresh (set registry name runtime) services
  set-IsFresh registry name runtime [] h fresh = tt
  set-IsFresh registry name runtime (service ∷ services) h (absent, distinct, fresh) = (
    ground
        (arith, get-set registry name runtime service.name, ==_iff name service.name, h.0, absent),
    distinct,
    set-IsFresh registry name runtime services h.1 fresh,
  )

  -- What is so after a launch. When a service does not become ready, all are shut down.
  abbrev pub IsSettled : Launched F → Type 0
  IsSettled (raise (wait_error waited), g) = (g.registry ≡ []) × (g.started ≡ [])
  IsSettled (raise e, g) = IsOwned g
  IsSettled (ok _, g) = IsOwned g

  module _ (system : System F) (readiness_timeout : F) where
    registered-IsOwned :
        (service : DiscoveredService F) (port : ℕ) (g : Gateway F)
        → get g.registry service.name ≡ none
        → IsOwned g
        → IsOwned (registered system service port g)
    registered-IsOwned service port g absent owned =
        let name = service.name in
        let runtime = runtime_of system service port g.next_process in
        let grown : (p : ℕ)
            → has_process (set g.registry name runtime) p
              ≡ (has_process g.registry p || g.next_process == p) =
          λ p. any-set_fresh (λ e. e.1.process == p) g.registry name runtime absent in
        (
          ground (arith, grown g.next_process, ==_refl g.next_process),
          All-map_of _ _ g.started (λ p h. ground (arith, grown p, h)) owned,
        )

    after_wait-IsSettled :
        (waited : Waited) (g : Gateway F) → IsOwned g → IsSettled (after_wait system waited g)
    unfolding shutdown_services
    after_wait-IsSettled (Readiness.ready k) g owned = owned
    after_wait-IsSettled Readiness.process_exited g owned =
        (refl, terminate_each-nil g.registry g.started owned)
    after_wait-IsSettled Readiness.timed_out g owned =
        (refl, terminate_each-nil g.registry g.started owned)
    after_wait-IsSettled Readiness.probe_raised g owned =
        (refl, terminate_each-nil g.registry g.started owned)
    after_wait-IsSettled Readiness.out_of_fuel g owned =
        (refl, terminate_each-nil g.registry g.started owned)

    after_wait-ok :
        (waited : Waited) (g : Gateway F)
        → (after_wait system waited g).0 ≡ ok tt
        → (after_wait system waited g).1 ≡ g
    after_wait-ok (Readiness.ready k) g h = refl
    after_wait-ok Readiness.process_exited g h = absurd (cc)
    after_wait-ok Readiness.timed_out g h = absurd (cc)
    after_wait-ok Readiness.probe_raised g h = absurd (cc)
    after_wait-ok Readiness.out_of_fuel g h = absurd (cc)

    module _ (service : DiscoveredService F) (port : ℕ) (g : Gateway F) where
      launch_on-IsSettled :
          get g.registry service.name ≡ none
          → IsOwned g
          → IsSettled (launch_on system readiness_timeout service port g)
      unfolding launch_on
      launch_on-IsSettled absent owned =
          elim (Bool-cases
            (system.popen g.next_process (build_start_command system service port))) [
              | inl runs ↦ rw runs (
                  after_wait-IsSettled
                    (wait_for system readiness_timeout service port g.next_process)
                    (registered system service port g)
                    (registered-IsOwned service port g absent owned))
              | inr refused ↦ rw refused owned
            ]

      launch_on-ok :
          (launch_on system readiness_timeout service port g).0 ≡ ok tt
          → (launch_on system readiness_timeout service port g).1 ≡ registered system service port g
      unfolding launch_on
      launch_on-ok =
          elim (Bool-cases
            (system.popen g.next_process (build_start_command system service port))) [
              | inl runs ↦ rw runs (
                  after_wait-ok (wait_for system readiness_timeout service port g.next_process)
                    (registered system service port g))
              | inr refused ↦ rw refused (λ h. absurd (cc))
            ]

    go_on-IsSettled :
        (rest : Gateway F → Launched F) (r : Launched F)
        → IsSettled r
        → (r.0 ≡ ok tt → IsSettled (rest r.1))
        → IsSettled (go_on system readiness_timeout rest r)
    go_on-IsSettled rest (ok _, g) h k = k refl
    go_on-IsSettled rest (raise e, g) h k = h

    launch_next-IsSettled :
        (rest : ℕ → Gateway F → Launched F) (service : DiscoveredService F) (a : Allocation)
        (g : Gateway F)
        → get g.registry service.name ≡ none
        → IsOwned g
        → ((port : ℕ) → IsSettled (rest (port + 1) (registered system service port g)))
        → IsSettled (launch_next system readiness_timeout rest service a g)
    launch_next-IsSettled rest service (allocated port) g absent owned settled =
        go_on-IsSettled (rest (port + 1)) _ (launch_on-IsSettled service port g absent owned) (λ h.
          subst (λ g'. IsSettled (rest (port + 1) g')) (sym (launch_on-ok service port g h))
            (settled port))
    launch_next-IsSettled rest service no_free_port g absent owned settled = owned
    launch_next-IsSettled rest service bind_raised g absent owned settled = owned
    launch_next-IsSettled rest service out_of_fuel g absent owned settled = owned

    -- For services with distinct names of which none is registered yet: a launch that ends because
    -- a service did not become ready leaves an empty registry and no process that it has started
    -- and not terminated. In every other case each process that was started and not terminated is
    -- in the registry, if it was so before.
    pub launch_services-IsSettled :
        (services : List (DiscoveredService F)) (next_port : ℕ) (g : Gateway F)
        → IsFresh g.registry services
        → IsOwned g
        → IsSettled (launch_services system readiness_timeout services next_port g)
    unfolding launch_services
    launch_services-IsSettled [] next_port g fresh owned = owned
    launch_services-IsSettled (service ∷ services) next_port g (absent, distinct, fresh) owned =
        elim (Bool-cases (is_skipped service.manifest)) [
          | inl skipped ↦ rw skipped (launch_services-IsSettled services next_port g fresh owned)
          | inr wanted ↦ rw wanted (
              launch_next-IsSettled (launch_services system readiness_timeout services) service
                (allocate_free_port (system.bind g.next_process) next_port) g absent owned
                (λ port.
                  launch_services-IsSettled services (port + 1) (registered system service port g)
                    (set-IsFresh g.registry service.name
                      (runtime_of system service port g.next_process) services distinct fresh)
                    (registered-IsOwned service port g absent owned)))
        ]
