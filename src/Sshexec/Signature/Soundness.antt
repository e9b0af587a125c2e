-- ===== src/Sshexec/Signature/Soundness.antt =====
-- What a signature that `VerifySSHSIG` accepts is, and that a well-formed one is accepted.
use karpenter_provider_ssh.Common.{
  ◌^◌, ◌<◌, String, ◌≡◌, refl, inl, inr, true, Option, none, some, List, [], ◌∷◌, ◌++◌, length,
  some_of, bytes, Bool-cases, arith, eq_iff,
}
use mathlib.Core.List.{Mem, mem-cons_self, mem-cons}
use mathlib.Core.Logic.Or
use karpenter_provider_ssh.Exec.{ok}
use karpenter_provider_ssh.Exec.Pure.{require, or_error, >>=-eq-ok, require-eq-ok, or_error-eq-ok}
use karpenter_provider_ssh.Sshexec.Wire.{
  Bytes, read_ssh_string, append_ssh_string, read-append_ssh_string,
}
use karpenter_provider_ssh.Sshexec.Signature.{
  Crypto, PemBlock, Fields, read_fields, read_header, verify_fields, verify_sshsig, same_bytes,
  message_hash, signed_data, is_permitted, namespace_or_default, any_signers, signature_block,
}

pub same_bytes→eq : (a b : Bytes) → same_bytes a b ≡ true → a ≡ b
unfolding same_bytes
same_bytes→eq [] [] h = refl
same_bytes→eq (x ∷ xs) [] h = cc
same_bytes→eq [] (y ∷ ys) h = cc
same_bytes→eq (x ∷ xs) (y ∷ ys) h = ground (arith, same_bytes→eq xs ys)

pub same_bytes_refl : (a : Bytes) → same_bytes a a ≡ true
unfolding same_bytes
same_bytes_refl [] = refl
same_bytes_refl (x ∷ xs) = ground (arith, same_bytes_refl xs)

trusted-mem :
    (key : Bytes) (allowed : List Bytes)
    → some_of (λ a. same_bytes a key) allowed ≡ true
    → Mem key allowed
unfolding some_of
trusted-mem key [] h = cc
trusted-mem key (a ∷ allowed) h = elim (Bool-cases (same_bytes a key)) [
  | inl hit ↦ rw (same_bytes→eq a key hit) mem-cons_self
  | inr miss ↦ mem-cons.1 (Or.inr (trusted-mem key allowed (ground arith)))
]

str : Bytes → Bytes
str = append_ssh_string []

-- The wire form of the fields, in the order of PROTOCOL.sshsig.
pub encode_fields : Fields → Bytes
encode_fields f =
    str f.public_key
    ++ (str f.namespace ++ (str f.reserved ++ (str f.hash_algorithm ++ (str f.signature ++ []))))

abbrev pub FitsWire : Fields → Type 0
FitsWire f =
    (length f.public_key < 2 ^ 32)
    × (length f.namespace < 2 ^ 32)
    × (length f.reserved < 2 ^ 32)
    × (length f.hash_algorithm < 2 ^ 32)
    × (length f.signature < 2 ^ 32)

-- The fields that are read from the wire form are those that were written.
pub read_fields-encode_fields : (f : Fields) → FitsWire f → read_fields (encode_fields f) ≡ ok f
unfolding read_fields encode_fields str
read_fields-encode_fields f (h0, h1, h2, h3, h4) = rw (read-append_ssh_string f.public_key _ h0) (
    rw (read-append_ssh_string f.namespace _ h1) (
      rw (read-append_ssh_string f.reserved _ h2) (
        rw (read-append_ssh_string f.hash_algorithm _ h3)
          (rw (read-append_ssh_string f.signature _ h4) refl))))

module _ (crypto : Crypto) (message armored : Bytes) (allowed : List Bytes)
    (namespace : String) where
  -- What an accepted signature consists of.
  pub record IsVerified : Type 0 where
    pub block : PemBlock
    pub fields : Fields
    pub rest : Bytes
    pub key : Bytes
    pub hash : Bytes
    pub format : Bytes
    pub blob : Bytes
    pub after_format : Bytes
    pub after_blob : Bytes
    pub armor : crypto.pem_decode armored ≡ some block
    pub armored_as : block.kind ≡ "SSH SIGNATURE"
    pub header : read_header block.content ≡ ok rest
    pub parsed : read_fields rest ≡ ok fields
    pub namespaced : fields.namespace ≡ bytes (namespace_or_default namespace)
    pub signer : crypto.parse_public_key fields.public_key ≡ ok key
    pub trusted : Mem key allowed
    pub hashed : message_hash crypto fields.hash_algorithm message ≡ ok hash
    pub formatted : read_ssh_string fields.signature ≡ ok (format, after_format)
    pub blobbed : read_ssh_string after_format ≡ ok (blob, after_blob)
    pub permitted : is_permitted format ≡ true
    pub signed :
        crypto.verify key (signed_data fields.namespace fields.hash_algorithm hash) format blob
        ≡ ok tt

  armor_of :
      (o : Option PemBlock) {b : Bytes}
      → signature_block o ≡ ok b
      → (blk : PemBlock) × (o ≡ some blk) × (blk.kind ≡ "SSH SIGNATURE") × (b ≡ blk.content)
  armor_of none h = cc
  armor_of (some blk) h = (blk, refl, ground (arith, eq_iff blk.kind "SSH SIGNATURE"), ground arith)

  -- The part of the tests that `verify_fields` makes.
  record FieldsVerified (f : Fields) : Type 0 where
    key : Bytes
    hash : Bytes
    format : Bytes
    blob : Bytes
    after_format : Bytes
    after_blob : Bytes
    formatted : read_ssh_string f.signature ≡ ok (format, after_format)
    blobbed : read_ssh_string after_format ≡ ok (blob, after_blob)
    namespaced : f.namespace ≡ bytes (namespace_or_default namespace)
    signer : crypto.parse_public_key f.public_key ≡ ok key
    trusted : Mem key allowed
    hashed : message_hash crypto f.hash_algorithm message ≡ ok hash
    permitted : is_permitted format ≡ true
    signed : crypto.verify key (signed_data f.namespace f.hash_algorithm hash) format blob ≡ ok tt

  verify_fields-FieldsVerified :
      (f : Fields)
      → verify_fields crypto message allowed (namespace_or_default namespace) f ≡ ok tt
      → FieldsVerified f
  unfolding verify_fields
  verify_fields-FieldsVerified f e =
      let (_, ns, e1) =
        >>=-eq-ok (require (same_bytes f.namespace (bytes (namespace_or_default namespace))) _) _
          e in
      let (key, pk, e2) = >>=-eq-ok (or_error _ (crypto.parse_public_key f.public_key)) _ e1 in
      let (_, trust, e3) = >>=-eq-ok (require (some_of (λ a. same_bytes a key) allowed) _) _ e2 in
      let (hash, hashed, e4) = >>=-eq-ok (message_hash crypto f.hash_algorithm message) _ e3 in
      let (inner, fmt, e5) = >>=-eq-ok (or_error _ (read_ssh_string f.signature)) _ e4 in
      let (outer, blb, e6) = >>=-eq-ok (or_error _ (read_ssh_string inner.1)) _ e5 in
      let (_, permit, e7) = >>=-eq-ok (require (is_permitted inner.0) _) _ e6 in
      record {
        key = key;
        hash = hash;
        format = inner.0;
        blob = outer.0;
        after_format = inner.1;
        after_blob = outer.1;
        formatted = or_error-eq-ok _ (read_ssh_string f.signature) fmt;
        blobbed = or_error-eq-ok _ (read_ssh_string inner.1) blb;
        namespaced = same_bytes→eq _ _ (require-eq-ok _ _ ns);
        signer = or_error-eq-ok _ (crypto.parse_public_key f.public_key) pk;
        trusted = trusted-mem key allowed (require-eq-ok _ _ trust);
        hashed = hashed;
        permitted = require-eq-ok _ _ permit;
        signed = or_error-eq-ok _ _ e7;
      }

  -- A signature is accepted only if it is armored as one, its namespace is the expected one, its key
  -- is one of the trusted keys, its hash and its algorithm are permitted, and that key verifies the
  -- signature's blob over the hash of the message.
  pub verify_sshsig-IsVerified :
      verify_sshsig crypto message armored allowed namespace ≡ ok tt → IsVerified
  unfolding verify_sshsig
  verify_sshsig-IsVerified e =
      let (_, has, e1) = >>=-eq-ok (require (any_signers allowed) _) _ e in
      let (content, blk_ok, e2) = >>=-eq-ok (signature_block (crypto.pem_decode armored)) _ e1 in
      let (blk, armor, kind, same) = armor_of (crypto.pem_decode armored) blk_ok in
      let (rest, header, e3) = >>=-eq-ok (read_header content) _ e2 in
      let (f, parsed, e4) = >>=-eq-ok (read_fields rest) _ e3 in
      let v = verify_fields-FieldsVerified f e4 in
      record {
        block = blk;
        fields = f;
        rest = rest;
        key = v.key;
        hash = v.hash;
        format = v.format;
        blob = v.blob;
        after_format = v.after_format;
        after_blob = v.after_blob;
        formatted = v.formatted;
        blobbed = v.blobbed;
        armor = armor;
        armored_as = kind;
        header = rw (← same) header;
        parsed = parsed;
        namespaced = v.namespaced;
        signer = v.signer;
        trusted = v.trusted;
        hashed = v.hashed;
        permitted = v.permitted;
        signed = v.signed;
      }
