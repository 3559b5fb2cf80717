-- ===== src/Tests/Policy.antt =====
-- A policy with its enforcement, a session root and a descendant of it, over a small kind of JSON.
pub mod Runs
mod Claims
use tinycloud_node.Common.{
  ℕ, ◌+◌, ◌-◌, ◌*◌, ◌≡◌, refl, List, [], ◌∷◌, ◌++◌, Option, none, some, Bool, true, false, ◌&&◌,
  arith, ◌↔◌, if◌then◌else◌, map, nat_eq, take, drop, as_bytes,
}
use tinycloud_node.Common.Classes.{Eq, ◌==◌, Str, codes, List_eq, Nat_eq, list_eq, list_eq_iff}
use tinycloud_node.Core.Json.{Json}
use tinycloud_node.Core.PolicyAuthority.Platform.{Platform, seconds}
use tinycloud_node.Core.PolicyAuthority.Artifacts
use tinycloud_node.Core.PolicyAuthority.Artifacts.{PolicyDelegation, DelegationSignature}
use tinycloud_node.Core.PolicyAuthority.Shape.{prefixed}

-- A text, an empty array or an empty object, or one more element of an array or object.
pub data Tree : Type 0 where
  leaf : Str → Tree
  node : Str → Tree → Tree → Tree

abbrev tree_eq : Tree → Tree → Bool
tree_eq (leaf s) (leaf t) = s == t
tree_eq (leaf s) (node k v r) = false
tree_eq (node k v r) (leaf s) = false
tree_eq (node k v r) (node l w q) = k == l && (tree_eq v w && tree_eq r q)

pub tree_eq_iff : (a b : Tree) → (tree_eq a b ≡ true) ↔ (a ≡ b)
tree_eq_iff (leaf s) (leaf t) = ground (arith, list_eq_iff s t)
tree_eq_iff (leaf s) (node k v r) = ground arith
tree_eq_iff (node k v r) (leaf s) = ground arith
tree_eq_iff (node k v r) (node l w q) =
    ground (arith, list_eq_iff k l, tree_eq_iff v w, tree_eq_iff r q)

abbrev text_of : Tree → Option Str
text_of (leaf (c ∷ s)) = if nat_eq c b'"' then some s else none
text_of _ = none

abbrev elements : Tree → Option (List Tree)
elements (leaf s) = if s == codes "[" then some [] else none
elements (node k v r) = elim (elements r) [
  | none ↦ none
  | some vs ↦ if k == codes "," then some (v ∷ vs) else none
]

abbrev entries_of : Tree → Option (List (Str × Tree))
entries_of (leaf s) = if s == codes "{" then some [] else none
entries_of (node k v r) = elim (entries_of r) [ none ↦ none | some es ↦ some ((drop 1 k, v) ∷ es) ]

abbrev array_of : List Tree → Tree
array_of [] = leaf (codes "[")
array_of (v ∷ vs) = node (codes ",") v (array_of vs)

abbrev object_of : List (Str × Tree) → Tree
object_of [] = leaf (codes "{")
object_of ((k, v) ∷ es) = node (b':' ∷ k) v (object_of es)

abbrev serialized : Tree → List ℕ
serialized (leaf s) = as_bytes s
serialized (node k v r) = as_bytes k ++ serialized v ++ serialized r

-- The minutes and seconds of a time.
abbrev clock : Str → Option ℕ
clock (a ∷ b ∷ _ ∷ c ∷ d ∷ _) =
    some (seconds (((a - b'0') * 10 + (b - b'0')) * 60 + (c - b'0') * 10 + (d - b'0')))
clock _ = none

abbrev pub trees : Platform
trees = record {
  json = record {
    Value = Tree;
    as_object = entries_of;
    as_array = elements;
    as_str = text_of;
    as_bool = λ v. none;
    as_i64 = λ v. none;
    value_eq = record { beq = tree_eq; beq_iff = tree_eq_iff };
  };
  text = λ s. leaf (b'"' ∷ s);
  array = array_of;
  object = object_of;
  nfc = λ s. s;
  canonicalize = serialized;
  sha256 = take 2;
  parse_rfc3339 = λ s. clock (drop 14 s);
}

-- Reading a folder or a document.
abbrev reading : Str → Tree
reading path = object_of (
    (codes "actions", array_of (leaf (codes "\"tinycloud.kv/get") ∷ []))
    ∷ (codes "path", leaf (b'"' ∷ path))
    ∷ (codes "service", leaf (codes "\"tinycloud.kv"))
    ∷ (codes "space", leaf (codes "\"home"))
    ∷ [])

abbrev at : Str → Str
at time = codes "2026-01-01T00:" ++ time ++ codes "Z"

abbrev facts_of : List (Str × Str) → List (Str × Str)
facts_of = map (λ f. (prefixed f.0, f.1))

abbrev suite : Str → DelegationSignature
suite name = record { suite = name; value = codes "sig" }

abbrev policy_facts : List (Str × Str)
policy_facts =
    (codes "ownerDid", codes "owner")
    ∷ (codes "policyId", codes "pol_1")
    ∷ (codes "policyDigestHex", codes "d1")
    ∷ (codes "capabilityCeilingHashHex", codes "7879")
    ∷ []

abbrev schema : Str
schema = codes "xyz.tinycloud.policy/enforcement-delegation/v1"

abbrev pub policy : PolicyDelegation Tree
policy = record {
  schema = schema;
  role = Artifacts.policy_authority;
  delegation_cid = codes "policy";
  issuer_did = codes "owner";
  audience_did = codes "node";
  capabilities = reading (codes "a/") ∷ [];
  proof_cids = [];
  not_before = at (codes "00:00");
  expires_at = at (codes "10:00");
  delegation_mode = Artifacts.policy_source;
  facts = facts_of policy_facts;
  signature = suite (codes "eip191-secp256k1-sha256-jcs-v1");
}

abbrev pub enforcement : PolicyDelegation Tree
enforcement = record {
  schema = schema;
  role = Artifacts.policy_enforcement;
  delegation_cid = codes "enforcement";
  issuer_did = codes "owner";
  audience_did = codes "enforcer";
  capabilities = reading (codes "a/") ∷ [];
  proof_cids = [];
  not_before = at (codes "00:00");
  expires_at = at (codes "10:00");
  delegation_mode = Artifacts.conditional_mint;
  facts = facts_of (
      policy_facts
      ++ (codes "enforcerDid", codes "enforcer")
        ∷ (codes "nodeAudience", codes "node")
        ∷ (codes "attestationBindingDigestHex", codes "b1")
        ∷ (codes "maxSessionTtlSeconds", codes "60")
        ∷ (codes "sessionMode", codes "attenuable")
        ∷ (codes "maxRedelegationDepth", codes "1")
        ∷ (codes "auditProfile", codes "vp-digest-v1")
        ∷ []);
  signature = suite (codes "eip191-secp256k1-sha256-jcs-v1");
}

-- The facts of a session with its subject and the redelegations that are left.
abbrev session_facts : Str → Str → List (Str × Str)
session_facts subject left =
    policy_facts
    ++ (codes "capabilityHashHex", codes "7879")
      ∷ (codes "enforcerDid", codes "enforcer")
      ∷ (codes "nodeAudience", codes "node")
      ∷ (codes "rootClaimantDid", codes "claimant")
      ∷ (codes "sessionSubjectDid", subject)
      ∷ (codes "policyDelegationCid", codes "policy")
      ∷ (codes "enforcementDelegationCid", codes "enforcement")
      ∷ (codes "attestationBindingDigestHex", codes "b1")
      ∷ (codes "claimInvocationDigestHex", codes "c1")
      ∷ (codes "vpDigestHex", codes "v1")
      ∷ (codes "decisionContextDigestHex", codes "7879")
      ∷ (codes "issuanceAuditDigestHex", codes "7879")
      ∷ (codes "issuanceId", codes "peiss_aaaaaaaaaaaaaaaaaaaaaaaaaa")
      ∷ (codes "remainingRedelegationDepth", left)
      ∷ (codes "auditProfile", codes "vp-digest-v1")
      ∷ []

abbrev pub root : PolicyDelegation Tree
root = record {
  schema = schema;
  role = Artifacts.policy_session_root;
  delegation_cid = codes "root";
  issuer_did = codes "enforcer";
  audience_did = codes "claimant";
  capabilities = reading (codes "a/b/") ∷ [];
  proof_cids = codes "policy" ∷ codes "enforcement" ∷ [];
  not_before = at (codes "01:40");
  expires_at = at (codes "02:30");
  delegation_mode = Artifacts.attenuable;
  facts = facts_of (session_facts (codes "claimant") (codes "1"));
  signature = suite (codes "eddsa-ed25519-sha256-jcs-v1");
}

abbrev pub descendant : PolicyDelegation Tree
descendant = record {
  schema = schema;
  role = Artifacts.policy_session_descendant;
  delegation_cid = codes "descendant";
  issuer_did = codes "claimant";
  audience_did = codes "friend";
  capabilities = reading (codes "a/b/c") ∷ [];
  proof_cids = codes "root" ∷ [];
  not_before = at (codes "01:41");
  expires_at = at (codes "02:20");
  delegation_mode = Artifacts.terminal;
  facts = facts_of (
      session_facts (codes "friend") (codes "0")
      ++ (codes "rootSessionDelegationCid", codes "root")
        ∷ (codes "immediateParentDelegationCid", codes "root")
        ∷ []);
  signature = suite (codes "eddsa-ed25519-sha256-jcs-v1");
}
