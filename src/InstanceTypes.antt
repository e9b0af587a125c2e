-- ===== src/InstanceTypes.antt =====
-- pkg/providers/instancetype/instancetype.go: the instance types that a node class offers, one for
-- each class of its hosts.
pub mod Shape
use Prim.Native.String.{◌++◌}
use karpenter_provider_ssh.Common.{
  ℕ, suc, ◌*◌, ◌-◌, String, Bool, true, false, not, ◌&&◌, ◌||◌, Option, none, some, List, [], ◌∷◌,
  Dict, insert, lookup, ltb, ◌==◌, if◌then◌else◌,
}
use karpenter_provider_ssh.Common.Int.{ℤ, pos, negsuc, less, is_positive}
use karpenter_provider_ssh.Exec.{Result, ok, err, Exec, pure, lift, ◌>>=◌, ◌>>◌}
use karpenter_provider_ssh.Api.Errors.{Error, wrapped}
use karpenter_provider_ssh.Api.Meta.{ResourceList}
use karpenter_provider_ssh.Api.Host.{Host, HostState, available, host_class}
use karpenter_provider_ssh.Api.NodeClass.{NodeClass}
use karpenter_provider_ssh.Pool.Interface.{HostProvider}
use karpenter_provider_ssh.Instance.{InstanceType, Requirements}

-- 80m of CPU and 300Mi of memory, in nano units
abbrev pub default_kube_reserved : ResourceList
default_kube_reserved = ("cpu", pos 80_000_000) ∷ ("memory", pos 314_572_800_000_000_000) ∷ []

abbrev pub default_max_pods : ℤ
default_max_pods = pos 110

-- The floating point arithmetic of prices.
pub record Pricing : Type 0 where
  -- `strconv.ParseFloat`
  pub parse_float : String → Result Error ℕ
  pub default_price_per_cpu_hour : ℕ
  -- A price for each CPU, times a quantity of them.
  pub times : ℕ → ℤ → ℕ

pub record ClassInfo : Type 0 where
  pub name : String
  pub capacity : ResourceList
  pub arch : String
  pub mixed_arch : Bool
  pub available : ℕ
  pub total : ℕ

-- A quantity of a whole number, in nano units.
abbrev pub whole : ℤ → ℤ
whole (pos n) = pos (n * 1_000_000_000)
whole (negsuc n) = negsuc (suc n * 1_000_000_000 - 1)

-- `Cpu` and `Memory` of a resource list: zero if it has no such resource.
abbrev pub quantity : String → ResourceList → ℤ
quantity name c = elim (lookup name c) [ some q ↦ q | none ↦ pos 0 ]

-- `usableCapacity`
unfoldable pub usable_capacity : ResourceList → Bool
usable_capacity c = is_positive (quantity "cpu" c) && is_positive (quantity "memory" c)

-- `minCapacity`
unfoldable pub min_capacity : ResourceList → ResourceList → ResourceList
min_capacity [] b = []
min_capacity ((name, qa) ∷ a) b =
    let rest = min_capacity a b in
    elim (lookup name b) [ none ↦ rest | some qb ↦ (name, if less qb qa then qb else qa) ∷ rest ]

-- `withPods`
unfoldable pub with_pods : ResourceList → Option ℤ → ResourceList
with_pods c (some n) = insert "pods" (whole n) c
with_pods c none = elim (lookup "pods" c) [
  | none ↦ insert "pods" (whole default_max_pods) c
  | some q ↦ c
]

-- The class of a host before and after its capacity is taken into account.
abbrev pub merged : Option ClassInfo → String → ResourceList → ClassInfo
merged none name capacity = record {
  name = name;
  capacity = capacity;
  arch = "";
  mixed_arch = false;
  available = 0;
  total = 0;
}
merged (some ci) name capacity = record ci { capacity = min_capacity ci.capacity capacity }

abbrev pub observe_arch : String → ClassInfo → ClassInfo
observe_arch seen ci =
    if seen == ""
    then ci
    else if ci.arch == ""
    then record ci { arch = seen }
    else if not (ci.arch == seen)
    then record ci { mixed_arch = true }
    else ci

abbrev pub is_free : Host → Bool
is_free h = elim h.status.state [
  | available ↦ elim h.status.claim_ref [ none ↦ true | some ref ↦ false ]
  | _ ↦ false
]

abbrev pub count : Bool → ClassInfo → ClassInfo
count free ci = record ci {
  total = suc ci.total;
  available = if free then suc ci.available else ci.available;
}

abbrev pub class_with : Dict ClassInfo → Option ℤ → Host → ClassInfo
class_with classes max_pods h = count (is_free h) (
    observe_arch h.status.observed_arch
      (merged (lookup (host_class h) classes) (host_class h) (with_pods h.spec.capacity max_pods)))

-- A round of the loop of `List` over the hosts.
unfoldable pub add_host : Option ℤ → Dict ClassInfo → Host → Dict ClassInfo
unfolding host_class usable_capacity
add_host max_pods classes h =
    if not (usable_capacity h.spec.capacity)
    then classes
    else insert (host_class h) (class_with classes max_pods h) classes

-- The loop.
unfoldable pub gather : Option ℤ → Dict ClassInfo → List Host → Dict ClassInfo
unfolding add_host
gather max_pods classes [] = classes
gather max_pods classes (h ∷ hs) = gather max_pods (add_host max_pods classes h) hs

abbrev nonempty_or : ResourceList → ResourceList → ResourceList
nonempty_or [] other = other
nonempty_or (r ∷ rs) other = r ∷ rs

abbrev pub instance_type_label : String
instance_type_label = "node.kubernetes.io/instance-type"

abbrev pub zone_label : String
zone_label = "topology.kubernetes.io/zone"

abbrev pub capacity_type_label : String
capacity_type_label = "karpenter.sh/capacity-type"

-- `PoolZone`
abbrev pub pool_zone : String
pool_zone = "pool"

abbrev pub on_demand : String
on_demand = "on-demand"

abbrev pub offering_requirements : ClassInfo → Requirements
offering_requirements ci =
    (instance_type_label, ci.name ∷ [])
    ∷ (zone_label, pool_zone ∷ [])
    ∷ (capacity_type_label, on_demand ∷ [])
    ∷ []

abbrev pub type_requirements : ClassInfo → Requirements
type_requirements ci =
    (instance_type_label, ci.name ∷ [])
    ∷ ("kubernetes.io/arch", ci.arch ∷ [])
    ∷ ("kubernetes.io/os", "linux" ∷ [])
    ∷ (zone_label, pool_zone ∷ [])
    ∷ (capacity_type_label, on_demand ∷ [])
    ∷ []

module _ (pricing : Pricing) where
  abbrev instance_type : ℕ → ResourceList → ClassInfo → InstanceType
  instance_type price kube_reserved ci = record {
    name = ci.name;
    requirements = type_requirements ci;
    offerings =
        record {
          price = pricing.times price (quantity "cpu" ci.capacity);
          available = ltb 0 ci.available;
          requirements = offering_requirements ci;
        }
        ∷ [];
    capacity = ci.capacity;
    kube_reserved = kube_reserved;
  }

  -- The loop of `List` over the classes.
  unfoldable pub advertise : ℕ → ResourceList → Dict ClassInfo → List InstanceType
  advertise price kube_reserved [] = []
  advertise price kube_reserved ((key, ci) ∷ classes) =
      let rest = advertise price kube_reserved classes in
      if (ci.arch == "") || ci.mixed_arch then rest else instance_type price kube_reserved ci ∷ rest

  abbrev invalid_price : NodeClass → Error → Error
  invalid_price class = wrapped (
      "invalid pricePerCPUHour "
      ++ (class.spec.price_per_cpu_hour ++ (" on nodeClass " ++ (class.meta.name ++ ": "))))

  abbrev price_or : NodeClass → Result Error ℕ → Result Error ℕ
  price_or class (ok p) = ok p
  price_or class (err e) = err (invalid_price class e)

  abbrev price_per_cpu : NodeClass → Result Error ℕ
  price_per_cpu class =
      if class.spec.price_per_cpu_hour == ""
      then ok pricing.default_price_per_cpu_hour
      else price_or class (pricing.parse_float class.spec.price_per_cpu_hour)

  -- `List`
  unfoldable pub list_types :
      {W : Type 0} → HostProvider W → NodeClass → Exec W Error (List InstanceType)
  unfolding gather advertise
  list_types pool class = do
    hosts ← pool.all class.spec.host_selector
    price ← lift (price_per_cpu class)
    pure (
        advertise price (nonempty_or class.spec.kube_reserved default_kube_reserved)
          (gather class.spec.max_pods [] hosts))
