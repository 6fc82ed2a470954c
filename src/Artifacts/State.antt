-- ===== src/Artifacts/State.antt =====
-- The files of an ArtifactQueue (artifacts.py). Contents are lists of bytes, keys and digests are
-- numbers; CHUNK_BYTES and the bounds of the storage are parameters, as is SHA-256.
use tiny_dsv.Base.{
  ℕ, ◌+◌, Bool, true, false, not, ◌&&◌, ◌||◌, Option, none, some, List, length, leb, ltb, ◌==◌,
  if◌then◌else◌,
}
use tiny_dsv.Base.Dict.{Dict, total}

pub data Kind : Type 0 where
  policy_lease sealed_group public_capsule : Kind

pub data Role : Type 0 where
  cpu gpu any_role : Role

-- `chunk_bytes` and `schema_version` are constants of the code.
pub record Manifest : Type 0 where
  pub id : ℕ
  pub kind : Kind
  pub key : ℕ
  pub bytes : ℕ
  pub sha256 : ℕ

pub record Receipt : Type 0 where
  pub id : ℕ
  pub bytes : ℕ
  pub sha256 : ℕ

pub record Outgoing : Type 0 where
  pub manifest : Manifest
  pub blob : List ℕ
  pub delivery : Option Receipt

pub record Incoming : Type 0 where
  pub manifest : Manifest
  pub chunks : Dict (List ℕ)
  pub blob : Option (List ℕ)
  pub receipt : Option Receipt

pub record Queue : Type 0 where
  pub role : Role
  pub outgoing : Dict Outgoing
  pub incoming : Dict Incoming

-- The constants of the code and the hash functions: of a content, and of a manifest's body.
pub record Config : Type 0 where
  pub chunk_bytes : ℕ
  pub max_bytes : ℕ
  pub max_small : ℕ
  pub max_artifacts : ℕ
  pub max_queue_bytes : ℕ
  pub digest : List ℕ → ℕ
  pub identity : Kind → (key bytes sha256 : ℕ) → ℕ

abbrev pub same_kind : Kind → Kind → Bool
same_kind Kind.policy_lease Kind.policy_lease = true
same_kind Kind.sealed_group Kind.sealed_group = true
same_kind Kind.public_capsule Kind.public_capsule = true
same_kind _ _ = false

abbrev pub is_small : Kind → Bool
is_small Kind.sealed_group = false
is_small _ = true

abbrev pub same_manifest : Manifest → Manifest → Bool
same_manifest m n =
    m.id == n.id
    && same_kind m.kind n.kind
    && m.key == n.key
    && m.bytes == n.bytes
    && m.sha256 == n.sha256

abbrev pub same_receipt : Receipt → Receipt → Bool
same_receipt r s = r.id == s.id && r.bytes == s.bytes && r.sha256 == s.sha256

-- The receipt that a manifest demands.
abbrev pub receipt_of : Manifest → Receipt
receipt_of m = record { id = m.id; bytes = m.bytes; sha256 = m.sha256 }

unfoldable pub validate_manifest : Config → Manifest → Option Manifest
validate_manifest c m =
    if not (leb 1 m.bytes && leb m.bytes c.max_bytes)
    then none
    else if not (c.identity m.kind m.key m.bytes m.sha256 == m.id)
    then none
    else if is_small m.kind && ltb c.max_small m.bytes
    then none
    else some m

-- The storage has room for `extra` more bytes in another entry.
unfoldable pub is_bounded : Config → (extra : ℕ) → Queue → Bool
is_bounded c extra q = not (
    leb c.max_artifacts (length q.incoming + length q.outgoing)
    || ltb c.max_queue_bytes (
        total (λ (e : Incoming). e.manifest.bytes) q.incoming
        + total (λ (e : Outgoing). e.manifest.bytes) q.outgoing
        + extra))
