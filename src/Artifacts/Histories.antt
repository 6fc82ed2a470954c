-- ===== src/Artifacts/Histories.antt =====
-- Whatever an ArtifactQueue is asked to do, in any order, what it has committed is the content of
-- its manifest (artifacts.py).
use tiny_dsv.Base.{
  ℕ, ◌≡◌, true, ◌&&◌, Option, none, some, List, [], ◌∷◌, length, ◌==◌, ==_iff, arith, if◌then◌else◌,
  Bool-cases, inl, inr, All,
}
use tiny_dsv.Base.Dict.{Dict}
use tiny_dsv.Artifacts.State.{Kind, Manifest, Incoming, Queue, Config, same_kind}
use tiny_dsv.Artifacts.Receiving.{received, find_received, is_committed}
use tiny_dsv.Artifacts.Storage.{Event, step, run, Matches, Sound, Stored}
use tiny_dsv.Artifacts.Integrity.{publish_artifact-Stored, acknowledge-Stored}
use tiny_dsv.Artifacts.Starting.{start-Stored}
use tiny_dsv.Artifacts.Writing.{receive_chunk-Stored}
use tiny_dsv.Artifacts.Committing.{commit-Stored}

step-Stored : (c : Config) (e : Event) (q : Queue) → Stored c q → Stored c (step c e q)
step-Stored c (Event.published kind key source copied) q v =
    publish_artifact-Stored c q v kind key source copied
step-Stored c (Event.acknowledged r) q v = acknowledge-Stored c q v r
step-Stored c (Event.started m) q v = start-Stored c q v m
step-Stored c (Event.arrived id index raw sha256) q v =
    receive_chunk-Stored c q v id index raw sha256
step-Stored c (Event.finished id) q v = commit-Stored c q v id

-- Any sequence of publications, acknowledgements, starts, chunks with any bytes in any order, and
-- commits, failed ones included, keeps what is stored: the manifest of each incoming entry is
-- valid, a committed content has the length and the digest of its manifest, and the entries and
-- their bytes stay within the bounds of the queue.
pub run-Stored : (c : Config) (es : List Event) (q : Queue) → Stored c q → Stored c (run c es q)
run-Stored c [] q v = v
run-Stored c (e ∷ es) q v = run-Stored c es (step c e q) (step-Stored c e q v)

-- What a lookup of a received content may answer.
abbrev pub Intact : Config → Kind → (key : ℕ) → Option (Option (Manifest × List ℕ)) → Type 0
Intact c kind key none = Unit
Intact c kind key (some none) = ⊥
Intact c kind key (some (some (m, blob))) =
    (same_kind m.kind kind ≡ true) × (m.key ≡ key) × Matches c m (some blob)

answer-Intact :
    (c : Config) (kind : Kind) (key : ℕ) (m : Manifest) (b : Option (List ℕ))
    → same_kind m.kind kind ≡ true
    → m.key ≡ key
    → Matches c m b
    → Intact c kind key (elim b [
      | none ↦ some none
      | some blob ↦
          if length blob == m.bytes && c.digest blob == m.sha256
          then some (some (m, blob))
          else some none
    ])
answer-Intact c kind key m none k j x = absurd x
answer-Intact c kind key m (some blob) k j (l, d) =
    rw ((==_iff (length blob) m.bytes).1 l, (==_iff (c.digest blob) m.sha256).1 d) (k, j, (l, d))

find_received-Intact :
    (c : Config) (kind : Kind) (key : ℕ) (entries : Dict Incoming)
    → All (Sound c) entries
    → Intact c kind key (find_received c kind key entries)
find_received-Intact c kind key [] a = tt
find_received-Intact c kind key ((id, e) ∷ rest) (s, a) =
    rw (s.0, Intact)
      (elim (Bool-cases
        (same_kind e.manifest.kind kind && e.manifest.key == key && is_committed e)) [
          | inl t ↦ rw t (
              answer-Intact c kind key e.manifest e.blob (ground arith)
                ((==_iff e.manifest.key key).0 (ground arith)) (s.1 (ground arith)))
          | inr t ↦ rw t (find_received-Intact c kind key rest a)
        ])

-- After any sequence of operations, received finds no invalid manifest among the incoming entries
-- and never that committed bytes changed: it answers nothing, or a content of the kind and the key
-- asked for with the length and the digest of its manifest.
pub received_lem :
    (c : Config) (es : List Event) (q : Queue) (kind : Kind) (key : ℕ)
    → Stored c q
    → Intact c kind key (received c kind key (run c es q))
unfolding received
received_lem c es q kind key v =
    find_received-Intact c kind key (run c es q).incoming (run-Stored c es q v).sound
