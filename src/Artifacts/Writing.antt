-- ===== src/Artifacts/Writing.antt =====
-- A chunk that arrives keeps what an ArtifactQueue stores (artifacts.py).
use tiny_dsv.Base.{
  ℕ, ◌-◌, ◌*◌, ◌≡◌, refl, min, Bool, true, false, not, ◌||◌, Option, none, some, List, length, leb,
  ◌==◌, if◌then◌else◌, Bool-cases, inl, inr,
}
use tiny_dsv.Base.Dict.{lookup, insert}
use tiny_dsv.Artifacts.State.{Manifest, Incoming, Queue, Config, validate_manifest}
use tiny_dsv.Artifacts.Receiving.{receive_chunk, follows, same_bytes}
use tiny_dsv.Artifacts.Storage.{or_else, Sound, Stored, changed-Stored, lookup-All}

module _ (c : Config) (q : Queue) (v : Stored c q) where
  pub receive_chunk-Stored :
      (id index : ℕ) (raw : List ℕ) (sha256 : ℕ)
      → Stored c (or_else q (receive_chunk c id index raw sha256 q))
  unfolding receive_chunk
  receive_chunk-Stored id index raw sha256 =
      go (not (c.digest raw == sha256)) (lookup id q.incoming) refl
    where
      written :
          (e : Incoming)
          → lookup id q.incoming ≡ some e
          → (d : Option (List ℕ))
          → Stored c (
              or_else q (
                let out : Option Queue = elim d [
                  | some old ↦ if same_bytes old raw then some q else none
                  | none ↦ some (record q {
                    incoming =
                        insert id (record e { chunks = insert index raw e.chunks }) q.incoming;
                  })
                ] in
                out))
      written e h none =
          changed-Stored c q v id e (record e { chunks = insert index raw e.chunks }) h refl
            (lookup-All (Sound c) id e q.incoming v.sound h)
      written e h (some old) = elim (Bool-cases (same_bytes old raw)) [
        | inl s ↦ rw s v
        | inr s ↦ rw s v
      ]

      given :
          (e : Incoming)
          → lookup id q.incoming ≡ some e
          → (o : Option Manifest) (x y : Manifest → Bool) (d : Option (List ℕ))
          → Stored c (
              or_else q (
                let out : Option Queue = elim o [
                  | none ↦ none
                  | some m ↦ if x m then none else if y m then none else elim d [
                    | some old ↦ if same_bytes old raw then some q else none
                    | none ↦ some (record q {
                      incoming =
                          insert id (record e { chunks = insert index raw e.chunks }) q.incoming;
                    })
                  ]
                ] in
                out))
      given e h none x y d = v
      given e h (some m) x y d = elim (Bool-cases (x m)) [
        | inl s ↦ rw s v
        | inr s ↦ elim (Bool-cases (y m)) [
          | inl t ↦ rw (s, t) v
          | inr t ↦ rw (s, t) (written e h d)
        ]
      ]

      go :
          (x : Bool) (o : Option Incoming)
          → lookup id q.incoming ≡ o
          → Stored c (
              or_else q (
                if x then none else elim o [
                  | none ↦ none
                  | some e ↦ elim (validate_manifest c e.manifest) [
                    | none ↦ none
                    | some m ↦
                        if leb m.bytes (index * c.chunk_bytes)
                          || not (length raw == min c.chunk_bytes (m.bytes - index * c.chunk_bytes))
                        then none
                        else if not (follows index e.chunks)
                        then none
                        else elim (lookup index e.chunks) [
                          | some old ↦ if same_bytes old raw then some q else none
                          | none ↦ some (record q {
                            incoming =
                                insert id
                                  (record e { chunks = insert index raw e.chunks })
                                  q.incoming;
                          })
                        ]
                  ]
                ]))
      go true o h = v
      go false none h = v
      go false (some e) h =
          given e h (validate_manifest c e.manifest)
            (λ m.
              leb m.bytes (index * c.chunk_bytes)
              || not (length raw == min c.chunk_bytes (m.bytes - index * c.chunk_bytes)))
            (λ m. not (follows index e.chunks)) (lookup index e.chunks)
