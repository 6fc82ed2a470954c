-- ===== src/Artifacts/Storage.antt =====
-- What an ArtifactQueue stores after any sequence of operations (artifacts.py): committed contents
-- are those of their manifests, and the storage stays within its bounds.
use tiny_dsv.Base.{
  ℕ, ◌+◌, ◌≤◌, ◌≡◌, subst, Bool, true, Option, none, some, List, [], ◌∷◌, length, ◌==◌, ==_iff,
  arith, Bool-cases, inl, inr, All,
}
use tiny_dsv.Base.Dict.{Dict, lookup, insert, total, total-insert_old}
use tiny_dsv.Base.Updates.{length-insert_old, length-insert_le, total-insert_le}
use tiny_dsv.Artifacts.State.{
  Kind, Manifest, Receipt, Outgoing, Incoming, Queue, Config, is_bounded, validate_manifest,
}
use tiny_dsv.Artifacts.Sending.{publish_artifact, acknowledge}
use tiny_dsv.Artifacts.Receiving.{start, receive_chunk, commit, is_committed}

pub data Event : Type 0 where
  published : Kind → (key : ℕ) → (source copied : List ℕ) → Event
  acknowledged : Receipt → Event
  started : Manifest → Event
  arrived : (id index : ℕ) → (raw : List ℕ) → (sha256 : ℕ) → Event
  finished : (id : ℕ) → Event

abbrev pub first_or : {A : Type 0} → Queue → Option (Queue × A) → Queue
first_or q none = q
first_or q (some (q', a)) = q'

abbrev pub started_or : Queue → Option (Queue × ℕ × Bool) → Queue
started_or q none = q
started_or q (some (q', k, b)) = q'

abbrev pub or_else : Queue → Option Queue → Queue
or_else q none = q
or_else q (some q') = q'

-- An operation that raises leaves the storage as it is.
abbrev pub step : Config → Event → Queue → Queue
step c (Event.published kind key source copied) q =
    first_or q (publish_artifact c kind key source copied q)
step c (Event.acknowledged r) q = or_else q (acknowledge c r q)
step c (Event.started m) q = started_or q (start c m q)
step c (Event.arrived id index raw sha256) q = or_else q (receive_chunk c id index raw sha256 q)
step c (Event.finished id) q = first_or q (commit c id q)

abbrev pub run : Config → List Event → Queue → Queue
run c [] q = q
run c (e ∷ es) q = run c es (step c e q)

-- A content with the length and the digest of the manifest.
abbrev pub Matches : Config → Manifest → Option (List ℕ) → Type 0
Matches c m none = ⊥
Matches c m (some blob) = (length blob ≡ m.bytes) × (c.digest blob ≡ m.sha256)

-- The manifest is valid, and a receipt goes with a content that matches.
abbrev pub Sound : Config → ℕ × Incoming → Type 0
Sound c (id, e) =
    (validate_manifest c e.manifest ≡ some e.manifest)
    × (is_committed e ≡ true → Matches c e.manifest e.blob)

insert-All :
    {V : Type 0} (P : ℕ × V → Type 0) (k : ℕ) (v : V) (m : Dict V)
    → All P m
    → P (k, v)
    → All P (insert k v m)
insert-All P k v [] a p = (p, tt)
insert-All P k v ((j, w) ∷ m) a p = elim (Bool-cases (j == k)) [
  | inl e ↦ rw e (p, a.1)
  | inr e ↦ rw e (a.0, insert-All P k v m a.1 p)
]

pub lookup-All :
    {V : Type 0} (P : ℕ × V → Type 0) (k : ℕ) (v : V) (m : Dict V)
    → All P m
    → lookup k m ≡ some v
    → P (k, v)
lookup-All P k v [] a h = absurd (ground arith)
lookup-All P k v ((j, w) ∷ m) a h = elim (Bool-cases (j == k)) [
  | inl e ↦
      let same : w ≡ v = ground (arith, e) in
      subst (λ z. P (z, v)) ((==_iff j k).0 e) (subst (λ z. P (j, z)) same a.0)
  | inr e ↦ lookup-All P k v m a.1 (ground (arith, e))
]

module _ (c : Config) where
  -- Manifests are valid, committed contents match, and the entries and their bytes stay within the bounds.
  pub record Stored (q : Queue) : Type 0 where
    pub sound : All (Sound c) q.incoming
    pub count : length q.incoming + length q.outgoing ≤ c.max_artifacts
    pub bytes :
        total (λ (e : Incoming). e.manifest.bytes) q.incoming
          + total (λ (e : Outgoing). e.manifest.bytes) q.outgoing
        ≤ c.max_queue_bytes

  module _ (q : Queue) (v : Stored q) where
    -- An entry changes and keeps its manifest.
    pub changed-Stored :
        (id : ℕ) (e e' : Incoming)
        → lookup id q.incoming ≡ some e
        → e'.manifest.bytes ≡ e.manifest.bytes
        → Sound c (id, e')
        → Stored (record q { incoming = insert id e' q.incoming })
    changed-Stored id e e' here same ok = record {
      sound = insert-All (Sound c) id e' q.incoming v.sound ok;
      count = omega (arith, v.count, length-insert_old id e' e q.incoming here);
      bytes = omega (
        arith,
        v.bytes,
        same,
        total-insert_old (λ (x : Incoming). x.manifest.bytes) id e' e q.incoming here,
      );
    }

    pub entered-Stored :
        (id : ℕ) (m : Manifest)
        → validate_manifest c m ≡ some m
        → is_bounded c m.bytes q ≡ true
        → Stored (record q {
          incoming =
              insert id
                (record { manifest = m; chunks = []; blob = none; receipt = none })
                q.incoming;
        })
    unfolding is_bounded
    entered-Stored id m valid room =
        let e : Incoming = record { manifest = m; chunks = []; blob = none; receipt = none } in
        record {
          sound = insert-All (Sound c) id e q.incoming v.sound (valid, λ h. absurd (ground arith));
          count = ground (arith, room, length-insert_le id e q.incoming);
          bytes =
              ground
                (arith, room, total-insert_le (λ (x : Incoming). x.manifest.bytes) id e q.incoming);
        }

    pub published-Stored :
        (id : ℕ) (e : Outgoing)
        → is_bounded c e.manifest.bytes q ≡ true
        → Stored (record q { outgoing = insert id e q.outgoing })
    unfolding is_bounded
    published-Stored id e room = record {
      sound = v.sound;
      count = ground (arith, room, length-insert_le id e q.outgoing);
      bytes =
          ground
            (arith, room, total-insert_le (λ (x : Outgoing). x.manifest.bytes) id e q.outgoing);
    }

    pub delivered-Stored :
        (id : ℕ) (e : Outgoing) (d : Option Receipt)
        → lookup id q.outgoing ≡ some e
        → Stored (record q { outgoing = insert id (record e { delivery = d }) q.outgoing })
    delivered-Stored id e d here = record {
      sound = v.sound;
      count =
          omega
            (arith, v.count, length-insert_old id (record e { delivery = d }) e q.outgoing here);
      bytes = omega (
        arith,
        v.bytes,
        total-insert_old (λ (x : Outgoing). x.manifest.bytes) id (record e { delivery = d }) e
            q.outgoing here,
      );
    }
