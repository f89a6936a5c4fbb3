-- ===== src/Gateway/Launch.antt =====
-- `launch_services` and `shutdown_services` of gateway_server/gateway.py, and what they are built
-- of. The system is a parameter: which ports can be bound, whether a command can be started, and
-- what the readiness loop observes of a process. A process is named by the number of processes
-- started before it. The OpenAPI documents that are kept for later are left out.
pub mod Processes
pub mod Distinct
use ara_nes_lms_core.Base.{
  string_eq, nat_eq, ℕ, ◌+◌, String, Bool, true, false, not, Option, none, some, List, [], ◌∷◌,
  ◌++◌ as ◌++ᴸ◌, map, filter, is_empty, ◌==◌, if◌then◌else◌, Result, ok, raise,
}
use Prim.Native.String.{◌++◌}
use ara_nes_lms_core.Dict.{Dict, set}
use ara_nes_lms_core.Gateway.Manifest.{PluginManifest, DiscoveredService}
use ara_nes_lms_core.Gateway.Ports.{Bind, Allocation, allocated, allocate_free_port}
use ara_nes_lms_core.Gateway.Readiness.{Round, Waited, ready, wait_for_service_ready}

-- `replace` is `part.replace("${PORT}", port)`; `units` gives a timeout in the units of the clock,
-- and `clock` the time at which the wait for a process starts.
pub record System (F : Type 0) : Type 0 where
  pub bind : ℕ → ℕ → Bind
  pub popen : ℕ → List String → Bool
  pub observe : ℕ → String → ℕ → Round
  pub clock : ℕ → ℕ
  pub units : F → ℕ
  pub str : ℕ → String
  pub replace : String → String → String

pub record ManagedServiceRuntime (F : Type 0) : Type 0 where
  pub name : String
  pub port : ℕ
  pub base_url : String
  pub process : ℕ
  pub manifest : Option (PluginManifest F)

-- The registry, the processes that were started and for which `terminate_process` was not called,
-- and the number of processes started so far.
pub record Gateway (F : Type 0) : Type 0 where
  pub registry : Dict String (ManagedServiceRuntime F)
  pub started : List ℕ
  pub next_process : ℕ

pub data LaunchError : Type 0 where
  port_error : Allocation → LaunchError
  popen_error : LaunchError
  wait_error : Waited → LaunchError

abbrev pub Launched : Type 0 → Type 0
Launched F = Result LaunchError (Unit {0}) × Gateway F

module _ {F : Type 0} where
  unfoldable pub service_health_path : Option (PluginManifest F) → String
  service_health_path none = "/health"
  service_health_path (some manifest) = manifest.health_path

  unfoldable pub service_startup_timeout_seconds : Option (PluginManifest F) → F → F
  service_startup_timeout_seconds none default = default
  service_startup_timeout_seconds (some manifest) default = manifest.startup_timeout_seconds

  -- `manifest and not manifest.auto_start`
  abbrev pub is_skipped : Option (PluginManifest F) → Bool
  is_skipped none = false
  is_skipped (some manifest) = not manifest.auto_start

  -- The loop over the registry's values.
  unfoldable pub terminate_each : Dict String (ManagedServiceRuntime F) → List ℕ → List ℕ
  terminate_each [] started = started
  terminate_each ((name, service) ∷ services) started =
      terminate_each services (filter (λ process. not (process == service.process)) started)

  unfoldable pub shutdown_services : Gateway F → Gateway F
  unfolding terminate_each
  shutdown_services g = record g { registry = []; started = terminate_each g.registry g.started }

  module _ (system : System F) where
    abbrev scripted : DiscoveredService F → List String
    scripted service = "bash" ∷ service.run_script ∷ []

    abbrev command_of : DiscoveredService F → ℕ → Option (PluginManifest F) → List String
    command_of service port none = scripted service
    command_of service port (some manifest) =
        if is_empty manifest.start_command
        then scripted service
        else map (λ part. system.replace part (system.str port)) manifest.start_command

    unfoldable pub build_start_command : DiscoveredService F → ℕ → List String
    build_start_command service port = command_of service port service.manifest

    abbrev pub runtime_of : DiscoveredService F → ℕ → ℕ → ManagedServiceRuntime F
    runtime_of service port process = record {
      name = service.name;
      port = port;
      base_url = "http://127.0.0.1:" ++ system.str port;
      process = process;
      manifest = service.manifest;
    }

    -- `Popen` has returned: the process is registered.
    abbrev pub registered : DiscoveredService F → ℕ → Gateway F → Gateway F
    registered service port g = record {
      registry = set g.registry service.name (runtime_of service port g.next_process);
      started = g.next_process ∷ g.started;
      next_process = g.next_process + 1;
    }

    -- `except Exception: await shutdown_services(registry); raise`
    abbrev pub after_wait : Waited → Gateway F → Launched F
    after_wait (ready k) g = (ok tt, g)
    after_wait waited g = (raise (wait_error waited), shutdown_services g)

    module _ (readiness_timeout : F) where
      abbrev pub wait_for : DiscoveredService F → ℕ → ℕ → Waited
      wait_for service port process =
          wait_for_service_ready
            (system.observe process
              ((runtime_of service port process).base_url ++ service_health_path service.manifest))
            (system.clock process)
            (system.units (service_startup_timeout_seconds service.manifest readiness_timeout))

      -- From the free port to the end of the wait.
      unfoldable pub launch_on : DiscoveredService F → ℕ → Gateway F → Launched F
      unfolding build_start_command service_health_path service_startup_timeout_seconds
          shutdown_services wait_for_service_ready set
      launch_on service port g =
          if system.popen g.next_process (build_start_command service port)
          then after_wait (wait_for service port g.next_process) (registered service port g)
          else (raise popen_error, g)

      abbrev pub go_on : (Gateway F → Launched F) → Launched F → Launched F
      go_on rest (raise e, g) = (raise e, g)
      go_on rest (ok _, g) = rest g

      abbrev pub launch_next :
          (ℕ → Gateway F → Launched F) → DiscoveredService F → Allocation → Gateway F → Launched F
      launch_next rest service (allocated port) g =
          go_on (rest (port + 1)) (launch_on service port g)
      launch_next rest service failed g = (raise (port_error failed), g)

      -- The loop over the discovered services, with its `next_port`.
      unfoldable pub launch_services : List (DiscoveredService F) → ℕ → Gateway F → Launched F
      unfolding launch_on allocate_free_port
      launch_services [] next_port g = (ok tt, g)
      launch_services (service ∷ services) next_port g =
          let rest = launch_services services in
          if is_skipped service.manifest
          then rest next_port g
          else launch_next rest service (allocate_free_port (system.bind g.next_process) next_port)
              g
