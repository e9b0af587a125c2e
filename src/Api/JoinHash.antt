-- ===== src/Api/JoinHash.antt =====
-- `JoinHash` of pkg/apis/v1beta1/sshnodeclass_types.go: the digest of the fields that feed a join, as
-- `encoding/json` writes them. The hash function of crypto/sha256 is a parameter.
use Prim.Native.Char.{Char, code}
use karpenter_provider_ssh.Common.{
  ℕ, ◌+◌, ◌-◌, ◌/◌, ◌%◌, String, Bool, ◌||◌, Option, none, some, [], ◌∷◌, ◌++◌, Dict, take, bytes,
  sort_by, text_le, eqb, ltb, if◌then◌else◌,
}
use karpenter_provider_ssh.Api.NodeClass.{
  NodeClass, NodeClassSpec, ClusterAccess, ProviderIdSource, static, adopt,
}
use karpenter_provider_ssh.Sshexec.Wire.{Bytes}
use karpenter_provider_ssh.Sshexec.HostKey.{nth_char}
use karpenter_provider_ssh.Bootstrap.{base64_text}

abbrev pub hex_digit : ℕ → ℕ
hex_digit n = if ltb n 10 then b'0' + n else b'a' + (n - 10)

abbrev hex_prefix : ℕ → String → String
hex_prefix n s = String.◌∷◌ (nth_char n "0123456789abcdef") s

-- `hex.EncodeToString`
unfoldable pub hex : Bytes → String
unfolding nth_char
hex [] = ""
hex (b ∷ bs) = hex_prefix (b / 16) (hex_prefix (b % 16) (hex bs))

abbrev escaped_by_name : ℕ → Option ℕ
escaped_by_name k =
    if eqb k b'"' || eqb k 92
    then some k
    else if eqb k 8
    then some b'b'
    else if eqb k 12
    then some b'f'
    else if eqb k 10
    then some b'n'
    else if eqb k 13
    then some b'r'
    else if eqb k 9
    then some b't'
    else none

-- The characters that `encoding/json` writes as \u and four digits, besides those with a short form.
abbrev escaped_by_number : ℕ → Bool
escaped_by_number k =
    ltb k 32 || eqb k b'<' || eqb k b'>' || eqb k b'&' || eqb k 0x2028 || eqb k 0x2029

abbrev number_escape : ℕ → Bytes
number_escape k =
    92
    ∷ b'u'
    ∷ hex_digit (k / 4096)
    ∷ hex_digit (k / 256 % 16)
    ∷ hex_digit (k / 16 % 16)
    ∷ hex_digit (k % 16)
    ∷ []

abbrev json_char : Char → Bytes
json_char c = elim (escaped_by_name (code c)) [
  | some k ↦ 92 ∷ k ∷ []
  | none ↦
      if escaped_by_number (code c) then number_escape (code c) else bytes (String.◌∷◌ c String.[])
]

unfoldable pub json_body : String → Bytes
json_body String.[] = []
json_body (String.◌∷◌ c s) = json_char c ++ json_body s

-- A text as a JSON string.
unfoldable pub json_string : String → Bytes
unfolding json_body
json_string s = b'"' ∷ (json_body s ++ (b'"' ∷ []))

-- The fields of a JSON object, by name and value.
unfoldable pub json_fields : Dict Bytes → Bytes
unfolding json_string
json_fields [] = []
json_fields ((name, v) ∷ []) = json_string name ++ (b':' ∷ v)
json_fields ((name, v) ∷ field ∷ fields) =
    json_string name ++ (b':' ∷ (v ++ (b',' ∷ json_fields (field ∷ fields))))

unfoldable pub json_object : Dict Bytes → Bytes
unfolding json_fields
json_object fields = b'{' ∷ (json_fields fields ++ (b'}' ∷ []))

unfoldable pub json_values : Dict String → Dict Bytes
unfolding json_string
json_values [] = []
json_values ((k, v) ∷ m) = (k, json_string v) ∷ json_values m

-- A field with `omitempty`, before the others.
abbrev field_of_text : String → String → Dict Bytes → Dict Bytes
field_of_text name String.[] rest = rest
field_of_text name (String.◌∷◌ c s) rest = (name, json_string (String.◌∷◌ c s)) ∷ rest

abbrev vars_field : Dict String → Dict Bytes → Dict Bytes
vars_field [] rest = rest
vars_field (v ∷ vars) rest =
    ("vars", json_object (json_values (sort_by (λ a b. text_le a.0 b.0) (v ∷ vars)))) ∷ rest

abbrev secret_field : Option String → Dict Bytes → Dict Bytes
secret_field none rest = rest
secret_field (some name) rest = ("joinSecretRef", json_object (field_of_text "name" name [])) ∷ rest

abbrev pub source_text : ProviderIdSource → String
source_text static = "Static"
source_text adopt = "Adopt"

abbrev cluster_field : Option ClusterAccess → Dict Bytes
cluster_field none = []
cluster_field (some c) =
    (
      "cluster",
      json_object (
          ("endpoint", json_string c.endpoint)
          ∷ field_of_text "caBundle" (base64_text c.ca_bundle) []),
    )
    ∷ []

-- What `JoinHash` digests.
unfoldable pub join_document : NodeClassSpec → Bytes
unfolding json_object json_values json_string base64_text
join_document s = json_object (
    vars_field s.vars (
      secret_field s.join_secret (
        ("providerIDSource", json_string (source_text s.provider_id_source))
        ∷ cluster_field s.cluster)))

unfoldable pub join_hash : (Bytes → Bytes) → NodeClass → String
unfolding join_document hex
join_hash sha256 class = hex (take 8 (sha256 (join_document class.spec)))
