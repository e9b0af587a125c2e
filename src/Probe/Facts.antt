-- ===== src/Probe/Facts.antt =====
-- The pure parts of pkg/controllers/hostprobe.go: what a probe's output says, and the condition that
-- a state shows as.
use Prim.Native.Char.{code}
use karpenter_provider_ssh.Common.{
  ℕ, zero, suc, ◌+◌, ◌*◌, ◌-◌, ◌%◌, ◌^◌, String, Bool, false, not, ◌&&◌, ◌||◌, List, [], ◌∷◌, eqb,
  leb, ltb, ◌==◌, if◌then◌else◌,
}
use karpenter_provider_ssh.Common.Int.{ℤ, pos, negsuc}
use karpenter_provider_ssh.Api.Meta.{Condition, ConditionStatus, is_true, is_false, is_unknown}
use karpenter_provider_ssh.Api.Host.{
  Host, HostState, unset, pending, available, claimed, in_use, unhealthy, leaving, maintenance,
}

-- `unicode.IsSpace`
abbrev is_space : ℕ → Bool
is_space k =
    leb 9 k && leb k 13
    || eqb k 32
    || eqb k 0x85
    || eqb k 0xa0
    || eqb k 0x1680
    || leb 0x2000 k && leb k 0x200a
    || eqb k 0x2028
    || eqb k 0x2029
    || eqb k 0x202f
    || eqb k 0x205f
    || eqb k 0x3000

abbrev push_word : String → List String → List String
push_word word words = if word == "" then words else word ∷ words

-- The word that a text starts with, which may be empty, and the words after it.
unfoldable pub split_words : String → String × List String
split_words String.[] = ("", [])
split_words (String.◌∷◌ c s) =
    let (word, words) = split_words s in
    if is_space (code c) then ("", push_word word words) else (String.◌∷◌ c word, words)

-- `strings.Fields`
unfoldable pub fields : String → List String
unfolding split_words
fields s = let (word, words) = split_words s in push_word word words

-- `strconv.ParseUint` in base 10: the value, or that it has more than 64 bits, or no value.
pub data Parsed : Type 0 where
  value : ℕ → Parsed
  out_of_range : Parsed
  bad_syntax : Parsed

unfoldable pub parse_digits : ℕ → String → Parsed
parse_digits n String.[] = value n
parse_digits n (String.◌∷◌ c s) =
    let next = n * 10 + (code c - b'0') in
    let rest = parse_digits next s in
    if not (leb b'0' (code c) && leb (code c) b'9')
    then bad_syntax
    else if leb (2 ^ 64) next
    then out_of_range
    else rest

abbrev parse_uint : String → Parsed
parse_uint String.[] = bad_syntax
parse_uint (String.◌∷◌ c s) = parse_digits 0 (String.◌∷◌ c s)

abbrev clamp_positive : Parsed → ℤ
clamp_positive (value n) = pos (if leb (2 ^ 63) n then 2 ^ 63 - 1 else n)
clamp_positive out_of_range = pos (2 ^ 63 - 1)
clamp_positive bad_syntax = pos 0

abbrev negated : ℕ → ℤ
negated zero = pos zero
negated (suc n) = negsuc n

abbrev clamp_negative : Parsed → ℤ
clamp_negative (value n) = negated (if ltb (2 ^ 63) n then 2 ^ 63 else n)
clamp_negative out_of_range = negated (2 ^ 63)
clamp_negative bad_syntax = pos 0

-- The value of `strconv.ParseInt(s, 10, 64)`, whose error the probe drops: zero for what is no
-- number, and the nearest 64-bit number for what is too large.
unfoldable pub parse_int64 : String → ℤ
unfolding parse_digits
parse_int64 String.[] = pos 0
parse_int64 (String.◌∷◌ c s) =
    if eqb (code c) b'-'
    then clamp_negative (parse_uint s)
    else if eqb (code c) b'+'
    then clamp_positive (parse_uint s)
    else clamp_positive (parse_uint (String.◌∷◌ c s))

-- The 64-bit number of a residue modulo 2 ^ 64.
abbrev int64_of : ℕ → ℤ
int64_of r = if ltb r (2 ^ 63) then pos r else negsuc (2 ^ 64 - 1 - r)

-- The product of a 64-bit number and a natural number, which wraps around.
unfoldable pub times_int64 : ℤ → ℕ → ℤ
times_int64 (pos n) k = int64_of (n * k % 2 ^ 64)
times_int64 (negsuc n) k = int64_of ((2 ^ 64 - (suc n * k) % 2 ^ 64) % 2 ^ 64)

-- `resource.NewQuantity`, in nano units.
unfoldable pub quantity : ℤ → ℤ
quantity (pos n) = pos (n * 1_000_000_000)
quantity (negsuc n) = negated (suc n * 1_000_000_000)

-- `probeResult`
pub record ProbeResult : Type 0 where
  pub cpus : ℤ
  pub mem_kb : ℤ
  pub arch : String
  pub fingerprint : String
  pub kubelet_active : Bool

unfoldable pub normalize_arch : String → String
normalize_arch m =
    if m == "x86_64" then "amd64" else if m == "aarch64" || m == "arm64" then "arm64" else m

-- `parseProbeOutput`, by the fields of the output.
unfoldable pub probe_facts : String → List String → ProbeResult
unfolding parse_int64 normalize_arch
probe_facts fingerprint (cpus ∷ mem ∷ machine ∷ []) = record {
  cpus = parse_int64 cpus;
  mem_kb = parse_int64 mem;
  arch = normalize_arch machine;
  fingerprint = fingerprint;
  kubelet_active = false;
}
probe_facts fingerprint (cpus ∷ mem ∷ machine ∷ kubelet ∷ rest) = record {
  cpus = parse_int64 cpus;
  mem_kb = parse_int64 mem;
  arch = normalize_arch machine;
  fingerprint = fingerprint;
  kubelet_active = kubelet == "active";
}
probe_facts fingerprint _ = record {
  cpus = pos 0;
  mem_kb = pos 0;
  arch = "";
  fingerprint = fingerprint;
  kubelet_active = false;
}

unfoldable pub parse_probe_output : String → String → ProbeResult
unfolding probe_facts fields
parse_probe_output stdout fingerprint = probe_facts fingerprint (fields stdout)

unfoldable pub state_name : HostState → String
state_name unset = ""
state_name pending = "Pending"
state_name available = "Available"
state_name claimed = "Claimed"
state_name in_use = "InUse"
state_name unhealthy = "Unhealthy"
state_name leaving = "Leaving"
state_name maintenance = "Maintenance"

-- What the `switch` of `setReadyCondition` chooses: the status, the reason and the message.
unfoldable pub ready_state : HostState → String → ConditionStatus × (String × String)
ready_state unhealthy last_error = (is_false, ("ProbeFailed", last_error))
ready_state maintenance last_error =
    (is_false, ("Maintenance", "host is annotated for maintenance and will not be claimed"))
ready_state pending last_error = (is_unknown, ("AwaitingProbe", "no successful probe yet"))
ready_state unset last_error = (is_unknown, ("AwaitingProbe", "no successful probe yet"))
ready_state _ last_error = (is_true, ("ProbeSucceeded", ""))

-- The condition that `setReadyCondition` sets; the API library stamps the time of a transition.
unfoldable pub ready_condition : Host → Condition
unfolding ready_state state_name
ready_condition h =
    let (status, (reason, detail)) = ready_state h.status.state h.status.last_probe_error in
    record {
      kind = "Ready";
      status = status;
      observed_generation = h.meta.generation;
      last_transition_time = 0;
      reason = reason;
      detail = if detail == "" then state_name h.status.state else detail;
    }
