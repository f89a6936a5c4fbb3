-- ===== src/Tests/Gateway.antt =====
-- The gateway with two plugins.
use ara_nes_lms_core.Base.{
  nat_eq, string_eq, ℕ, ◌+◌, ◌≤◌, String, Bool, true, false, none, some, List, [], ◌∷◌, ◌≡◌, ◌≢◌,
  refl, arith, ok, ◌==◌, ltb, if◌then◌else◌,
}
use Prim.Native.String.{◌++◌}
use text.Mathlib.Text.{starts_with}
use text.Mathlib.TextEquality.{eq_iff}
use ara_nes_lms_core.Dict as Dict
use ara_nes_lms_core.Gateway.Paths.{public_plugin_prefix, to_internal_plugin_path, to_public_path}
use ara_nes_lms_core.Gateway.Paths.RoundTrip.{to_internal-to_public}
use ara_nes_lms_core.Gateway.Ports.{
  Bind, bound, os_error, allocate_free_port, allocated, IsFirstFree, allocate_free_port-IsFirstFree,
}
use ara_nes_lms_core.Gateway.Readiness.{
  Round, status, http_error, other_error, wait_for_service_ready, ready, IsClock, IsAlive,
  wait_for_service_ready-ready,
}
use ara_nes_lms_core.Gateway.Json.{Fields, string, object, no_fields, field}
use ara_nes_lms_core.Gateway.Openapi.{Document}
use ara_nes_lms_core.Gateway.Openapi.Values.{Values}
use ara_nes_lms_core.Gateway.Manifest.{
  Python, PluginManifest, DiscoveredService, parsed, load_manifest,
}
use ara_nes_lms_core.Gateway.Manifest.Normal.{IsNormal, load_manifest-IsNormal}
use ara_nes_lms_core.Gateway.Launch.{System, Gateway, ManagedServiceRuntime, launch_services}
use ara_nes_lms_core.Gateway.Launch.Processes.{IsSettled, launch_services-IsSettled}
use ara_nes_lms_core.Gateway.Launch.Distinct.{HasDistinctPorts, launch_services-HasDistinctPorts}
use ara_nes_lms_core.Gateway.Proxy.{Upstream}

outside : ("/v1/pages" == public_plugin_prefix "wiki") ≡ false
unfolding public_plugin_prefix
outside = refl

apart : starts_with "/v1/pages" (public_plugin_prefix "wiki" ++ "/") ≡ false
unfolding public_plugin_prefix
apart = refl

to_internal-to_public_example :
    to_internal_plugin_path (to_public_path "/v1/pages" "wiki") "wiki" ≡ "/v1/pages"
to_internal-to_public_example = to_internal-to_public "wiki" "/v1/pages" refl outside apart

-- The first two ports are taken.
abbrev bind : ℕ → Bind
bind port = if ltb port 10002 then os_error else bound

found_port : allocate_free_port bind 10000 ≡ allocated 10002
unfolding allocate_free_port
found_port = refl

allocate_free_port-IsFirstFree_example : IsFirstFree bind 10000 (allocate_free_port bind 10000)
allocate_free_port-IsFirstFree_example = allocate_free_port-IsFirstFree bind 10000

-- A service that is ready in the third round, on a clock that ticks.
abbrev rounds : ℕ → Round
rounds k = record {
  time = 7 + k;
  running = true;
  probe = if k == 2 then status 200 else http_error;
}

rounds-IsClock : IsClock rounds 7
rounds-IsClock = record { first = omega arith; later = λ k. omega arith }

ne-other_error : (b : Bool) → (if b then status 200 else http_error) ≢ other_error
ne-other_error true e = cc
ne-other_error false e = cc

alive : (j : ℕ) → j ≤ 2 → IsAlive rounds 27 j
alive j le = (omega (arith, le), refl, ne-other_error (j == 2))

wait_for_service_ready-ready_example :
    (n : ℕ) × (wait_for_service_ready rounds 7 20 ≡ ready n) × (n ≤ 2)
wait_for_service_ready-ready_example =
    wait_for_service_ready-ready rounds 7 rounds-IsClock 20 2 refl alive

-- Two documents with a schema of one name.
abbrev reference : Fields ℕ
reference = field "$ref" (string "#/components/schemas/Page") no_fields

abbrev document : Document ℕ
document = record {
  paths = ("/pages", field "get" (object reference) no_fields) ∷ [];
  schemas = ("Page", object (field "next" (object reference) no_fields)) ∷ [];
  tags = [];
}

abbrev documents : List (String × Document ℕ)
documents = ("wiki", document) ∷ ("forum", document) ∷ []

abbrev python : Python ℕ ℕ
python = record {
  strip = λ s. s;
  lower = λ s. s;
  str = λ j. "7";
  to_float = λ j. none;
  is_positive = λ n. ltb 0 n;
  is_nonzero = λ n. ltb 0 n;
}

abbrev manifest : PluginManifest ℕ
manifest = record {
  plugin_name = "7";
  version = "0.0.0";
  runtime = "unknown";
  start_command = [];
  health_path = "/health";
  openapi_path = none;
  startup_timeout_seconds = 20;
  auto_start = true;
}

loaded :
    load_manifest python 20 "wiki" (parsed (object (field "plugin_name" (string "7") no_fields)))
    ≡ ok (some manifest)
unfolding load_manifest
loaded = refl

load_manifest-IsNormal_example : IsNormal python manifest
load_manifest-IsNormal_example =
    load_manifest-IsNormal python 20 "wiki"
      (parsed (object (field "plugin_name" (string "7") no_fields))) manifest
      (λ e. ground (arith, eq_iff "wiki" "")) refl loaded

abbrev system : System ℕ
system = record {
  bind = λ process. bind;
  popen = λ process command. true;
  observe = λ process url. rounds;
  clock = λ process. 7;
  units = λ n. n;
  str = λ n. "10002";
  replace = λ part port. part;
}

abbrev wiki : DiscoveredService ℕ
wiki = record { name = "wiki"; directory = "wiki"; run_script = "wiki/run.sh"; manifest = none }

abbrev forum : DiscoveredService ℕ
forum = record { name = "forum"; directory = "forum"; run_script = "forum/run.sh"; manifest = none }

abbrev idle : Gateway ℕ
idle = record { registry = []; started = []; next_process = 0 }

wiki-ne-forum : ◌≢◌ {A = String} "wiki" "forum"
wiki-ne-forum e = ground (arith, e, eq_iff "wiki" "forum")

launch_services-IsSettled_example :
    IsSettled (launch_services system 20 (wiki ∷ forum ∷ []) 10000 idle)
launch_services-IsSettled_example =
    launch_services-IsSettled system 20 (wiki ∷ forum ∷ []) 10000 idle
      (unfold Dict.get in (refl, (wiki-ne-forum, tt), (refl, tt, tt))) tt

launch_services-HasDistinctPorts_example :
    HasDistinctPorts (launch_services system 20 (wiki ∷ forum ∷ []) 10000 idle).1.registry
launch_services-HasDistinctPorts_example =
    launch_services-HasDistinctPorts system 20 (wiki ∷ forum ∷ []) 10000 idle (tt, tt)

abbrev upstream : Upstream
upstream = record {
  is_running = λ process. true;
  send = λ url headers.
      some (record { status_code = 200; headers = ("keep-alive", "x") ∷ ("etag", "y") ∷ [] });
  lower = λ s. s;
}

abbrev runtime : ManagedServiceRuntime ℕ
runtime = record {
  name = "wiki";
  port = 10002;
  base_url = "http://127.0.0.1:10002";
  process = 0;
  manifest = none;
}

abbrev registry : List (String × ManagedServiceRuntime ℕ)
registry = ("wiki", runtime) ∷ []
