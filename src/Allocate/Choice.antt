-- ===== src/Allocate/Choice.antt =====
-- titus_isolate/isolate/utils.py: which allocator and which resource usage provider the properties name. The
-- construction of an allocator over grpc asks the configuration and a node, and may raise; it is a
-- parameter, like the ones of the two allocators that a FallbackCpuAllocator is given.
pub mod Names
use titus_isolate.Prelude.{
  String, Bool, true, false, List, [], ◌∷◌, Option, none, some, ◌==◌, string_eq, not, if◌then◌else◌,
  contains, Dict, lookup, Result, ok, raise, key_error, ◌>>=◌,
}
use titus_isolate.Config.{PropertyProvider}
use titus_isolate.Config.Manager.{Cache, get_str, get_cached_str}

abbrev pub cpu_allocators : List String
cpu_allocators = "GREEDY" ∷ "NAIVE" ∷ "NOOP" ∷ "GRPC_REMOTE" ∷ []

abbrev pub default_allocator : String
default_allocator = "GRPC_REMOTE"

-- The classes of CPU_ALLOCATOR_NAME_TO_CLASS_MAP.
pub data AllocatorClass : Type 0 where
  greedy naive noop grpc_remote : AllocatorClass

abbrev pub class_map : Dict String AllocatorClass
class_map =
    ("GREEDY", greedy) ∷ ("NAIVE", naive) ∷ ("NOOP", noop) ∷ ("GRPC_REMOTE", grpc_remote) ∷ []

-- The text that is looked up, which None is not.
abbrev pub known : Option String → String
known none = default_allocator
known (some allocator_str) =
    if not (contains cpu_allocators allocator_str) then default_allocator else allocator_str

abbrev of_class : Option AllocatorClass → Result AllocatorClass
of_class none = raise key_error
of_class (some c) = ok c

-- `get_allocator(allocator_str)`, up to the call of the class.
unfoldable pub get_allocator : Option String → Result AllocatorClass
get_allocator allocator_str = of_class (lookup (known allocator_str) class_map)

-- `get_fallback_allocator(config_manager)`, for the construction of an instance of a class.
unfoldable pub get_fallback_allocator {ℓ} :
    {Allocator : Type ℓ}
    → PropertyProvider
    → (AllocatorClass → Result Allocator)
    → Result (Allocator × Allocator)
unfolding get_allocator get_str
get_fallback_allocator provider construct =
    get_allocator (get_str provider "TITUS_ISOLATE_ALLOCATOR" none) >>= construct >>= λ primary.
    get_allocator (get_str provider "TITUS_ISOLATE_FALLBACK_ALLOCATOR" (some "NAIVE"))
    >>= construct
    >>= λ secondary. ok (primary, secondary)

pub data ProviderClass : Type 0 where
  prometheus_provider noop_provider : ProviderClass

abbrev provider_class : Option String → Option ProviderClass
provider_class none = none
provider_class (some rup_str) =
    if rup_str == "prometheus"
    then some prometheus_provider
    else if rup_str == "NOOP"
    then some noop_provider
    else none

-- `get_resource_usage_provider(config_manager)`: None for any other name.
unfoldable pub get_resource_usage_provider : PropertyProvider → Cache → Option ProviderClass × Cache
unfolding get_cached_str
get_resource_usage_provider provider cache =
    let (rup_str, after) =
      get_cached_str provider "TITUS_ISOLATE_RESOURCE_USAGE_PROVIDER" (some (some "prometheus"))
        cache in
    (provider_class rup_str, after)
