-- ===== src/Gateway/Launch/Distinct.antt =====
-- The ports that `launch_services` gives to the services.
use ara_nes_lms_core.Base.{
  string_eq, nat_eq, ℕ, ◌+◌, ◌≤◌, ◌<◌, String, List, [], ◌∷◌, ◌==◌, ok, raise, ◌≢◌, arith,
  Bool-cases, inl, inr, All, All-map_of,
}
use ara_nes_lms_core.Dict.{Dict, set}
use ara_nes_lms_core.Gateway.Manifest.{DiscoveredService}
use ara_nes_lms_core.Gateway.Ports.{
  Allocation, allocated, no_free_port, bind_raised, out_of_fuel, allocate_free_port, IsFirstFree,
  allocate_free_port-IsFirstFree,
}
use ara_nes_lms_core.Gateway.Readiness as Readiness
use ara_nes_lms_core.Gateway.Readiness.{Waited}
use ara_nes_lms_core.Gateway.Launch.{
  System, ManagedServiceRuntime, Gateway, Launched, is_skipped, shutdown_services, registered,
  runtime_of, after_wait, wait_for, launch_on, launch_next, launch_services, go_on,
  build_start_command,
}

abbrev Registry : Type 0 → Type 0
Registry F = Dict String (ManagedServiceRuntime F)

module _ {F : Type 0} where
  -- No two services of the registry have one port.
  abbrev pub HasDistinctPorts : Dict String (ManagedServiceRuntime F) → Type 0
  HasDistinctPorts [] = Unit
  HasDistinctPorts (e ∷ d) = All (λ f. f.1.port ≢ e.1.port) d × HasDistinctPorts d

  -- The ports are distinct and less than `next_port`.
  abbrev IsBelow : ℕ → Registry F → Type 0
  IsBelow next_port registry = All (λ e. e.1.port < next_port) registry × HasDistinctPorts registry

  set-All :
      (P : String × ManagedServiceRuntime F → Type 0) (d : Registry F) (name : String)
      (r : ManagedServiceRuntime F)
      → ((k : String) → P (k, r))
      → All P d
      → All P (set d name r)
  unfolding set
  set-All P [] name r p h = (p name, tt)
  set-All P ((k, q) ∷ d) name r p h = elim (Bool-cases (k == name)) [
    | inl same ↦ rw same (p k, h.1)
    | inr other ↦ rw other (h.0, set-All P d name r p h.1)
  ]

  set-HasDistinctPorts :
      (d : Registry F) (name : String) (r : ManagedServiceRuntime F)
      → All (λ e. e.1.port < r.port) d
      → HasDistinctPorts d
      → HasDistinctPorts (set d name r)
  unfolding set
  set-HasDistinctPorts [] name r h g = (tt, tt)
  set-HasDistinctPorts ((k, q) ∷ d) name r h g = elim (Bool-cases (k == name)) [
    | inl same ↦ rw same (All-map_of _ _ d (λ f lt e. omega (arith, lt, e)) h.1, g.1)
    | inr other ↦ rw other (
      set-All (λ f. f.1.port ≢ q.port) d name r (λ _ e. omega (arith, h.0, e)) g.0,
      set-HasDistinctPorts d name r h.1 g.1,
    )
  ]

  weaken : (n m : ℕ) (d : Registry F) → n ≤ m → IsBelow n d → IsBelow m d
  weaken n m d le h = (All-map_of _ _ d (λ f lt. omega (arith, lt, le)) h.0, h.1)

  module _ (system : System F) (readiness_timeout : F) where
    registered-IsBelow :
        (service : DiscoveredService F) (port : ℕ) (g : Gateway F)
        → IsBelow port g.registry
        → IsBelow (port + 1) (registered system service port g).registry
    registered-IsBelow service port g h = (
      set-All (λ e. e.1.port < port + 1) g.registry service.name
          (runtime_of system service port g.next_process) (λ _. omega arith)
          (All-map_of _ _ g.registry (λ f lt. omega (arith, lt)) h.0),
      set-HasDistinctPorts g.registry service.name (runtime_of system service port g.next_process)
          h.0 h.1,
    )

    after_wait-IsBelow :
        (n : ℕ) (waited : Waited) (g : Gateway F)
        → IsBelow n g.registry
        → IsBelow n (after_wait system waited g).1.registry
    unfolding shutdown_services
    after_wait-IsBelow n (Readiness.ready k) g h = h
    after_wait-IsBelow n Readiness.process_exited g h = (tt, tt)
    after_wait-IsBelow n Readiness.timed_out g h = (tt, tt)
    after_wait-IsBelow n Readiness.probe_raised g h = (tt, tt)
    after_wait-IsBelow n Readiness.out_of_fuel g h = (tt, tt)

    launch_on-IsBelow :
        (service : DiscoveredService F) (port : ℕ) (g : Gateway F)
        → IsBelow port g.registry
        → IsBelow (port + 1) (launch_on system readiness_timeout service port g).1.registry
    unfolding launch_on
    launch_on-IsBelow service port g h =
        elim (Bool-cases (system.popen g.next_process (build_start_command system service port))) [
          | inl runs ↦ rw runs (
              after_wait-IsBelow (port + 1)
                (wait_for system readiness_timeout service port g.next_process)
                (registered system service port g) (registered-IsBelow service port g h))
          | inr refused ↦ rw refused (weaken port (port + 1) g.registry (omega arith) h)
        ]

    go_on-HasDistinctPorts :
        (rest : Gateway F → Launched F) (r : Launched F) (n : ℕ)
        → IsBelow n r.1.registry
        → ((g : Gateway F) → IsBelow n g.registry → HasDistinctPorts (rest g).1.registry)
        → HasDistinctPorts (go_on system readiness_timeout rest r).1.registry
    go_on-HasDistinctPorts rest (ok _, g) n h k = k g h
    go_on-HasDistinctPorts rest (raise e, g) n h k = h.1

    launch_next-HasDistinctPorts :
        (rest : ℕ → Gateway F → Launched F) (service : DiscoveredService F) (next_port : ℕ)
        (a : Allocation) (g : Gateway F)
        → IsFirstFree (system.bind g.next_process) next_port a
        → IsBelow next_port g.registry
        → ((n : ℕ) (g' : Gateway F)
            → IsBelow n g'.registry
            → HasDistinctPorts (rest n g').1.registry)
        → HasDistinctPorts (launch_next system readiness_timeout rest service a g).1.registry
    launch_next-HasDistinctPorts rest service next_port (allocated port) g first h k =
        go_on-HasDistinctPorts (rest (port + 1)) (launch_on system readiness_timeout service port g)
          (port + 1) (launch_on-IsBelow service port g (weaken next_port port g.registry first.0 h))
          (k (port + 1))
    launch_next-HasDistinctPorts rest service next_port no_free_port g first h k = h.1
    launch_next-HasDistinctPorts rest service next_port bind_raised g first h k = h.1
    launch_next-HasDistinctPorts rest service next_port out_of_fuel g first h k = h.1

    -- Whatever the system does, the services that a launch leaves in the registry have distinct
    -- ports, if those that were there before it had distinct ports below the first one asked for.
    pub launch_services-HasDistinctPorts :
        (services : List (DiscoveredService F)) (next_port : ℕ) (g : Gateway F)
        → All (λ e. e.1.port < next_port) g.registry × HasDistinctPorts g.registry
        → HasDistinctPorts
            (launch_services system readiness_timeout services next_port g).1.registry
    unfolding launch_services
    launch_services-HasDistinctPorts [] next_port g h = h.1
    launch_services-HasDistinctPorts (service ∷ services) next_port g h =
        elim (Bool-cases (is_skipped service.manifest)) [
          | inl skipped ↦ rw skipped (launch_services-HasDistinctPorts services next_port g h)
          | inr wanted ↦ rw wanted (
              launch_next-HasDistinctPorts (launch_services system readiness_timeout services)
                service next_port (allocate_free_port (system.bind g.next_process) next_port) g
                (allocate_free_port-IsFirstFree (system.bind g.next_process) next_port) h
                (launch_services-HasDistinctPorts services))
        ]
