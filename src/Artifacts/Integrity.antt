-- ===== src/Artifacts/Integrity.antt =====
-- Every sequence of operations of an ArtifactQueue keeps committed contents (artifacts.py).
use tiny_dsv.Base.{
  ℕ, ◌≡◌, refl, Bool, true, false, not, ◌&&◌, Option, none, some, List, length, ◌==◌, if◌then◌else◌,
  Bool-cases, inl, inr,
}
use tiny_dsv.Base.Dict.{lookup, insert}
use tiny_dsv.Artifacts.State.{
  Kind, Manifest, Receipt, Outgoing, Queue, Config, validate_manifest, receipt_of, same_manifest,
  same_receipt, is_bounded,
}
use tiny_dsv.Artifacts.Sending.{
  publish_artifact, manifest_of, find_manifest, is_present, acknowledge,
}
use tiny_dsv.Artifacts.Storage.{first_or, or_else, Stored, published-Stored, delivered-Stored}

module _ (c : Config) (q : Queue) (v : Stored c q) where
  pub publish_artifact-Stored :
      (kind : Kind) (key : ℕ) (source copied : List ℕ)
      → Stored c (first_or q (publish_artifact c kind key source copied q))
  unfolding publish_artifact
  publish_artifact-Stored kind key source copied =
      valid (validate_manifest c (manifest_of c kind key source))
        (find_manifest kind key q.outgoing)
    where
      new :
          (m : Manifest) (x : Bool)
          → is_bounded c m.bytes q ≡ x
          → (y z : Bool)
          → Stored c (
              first_or q (
                if not x
                then none
                else if y
                then none
                else if z
                then none
                else some (
                  record q {
                    outgoing =
                        insert m.id
                          (record { manifest = m; blob = copied; delivery = none })
                          q.outgoing;
                  },
                  m,
                )))
      new m false e y z = v
      new m true e true z = v
      new m true e false true = v
      new m true e false false = published-Stored c q v m.id _ e

      old :
          (m previous : Manifest) (b : Bool)
          → Stored c (first_or q (if b then some (q, previous) else none))
      old m previous true = v
      old m previous false = v

      valid :
          (o f : Option Manifest)
          → Stored c (
              first_or q (
                let out : Option (Queue × Manifest) = elim o [
                  | none ↦ none
                  | some m ↦ elim f [
                    | some previous ↦ if same_manifest previous m then some (q, previous) else none
                    | none ↦
                        if not (is_bounded c m.bytes q)
                        then none
                        else if not (length copied == m.bytes && c.digest copied == m.sha256)
                        then none
                        else if is_present m.id q.outgoing
                        then none
                        else some (
                          record q {
                            outgoing =
                                insert m.id
                                  (record { manifest = m; blob = copied; delivery = none })
                                  q.outgoing;
                          },
                          m,
                        )
                  ]
                ] in
                out))
      valid none f = v
      valid (some m) (some previous) = old m previous (same_manifest previous m)
      valid (some m) none =
          new m (is_bounded c m.bytes q) refl
            (not (length copied == m.bytes && c.digest copied == m.sha256))
            (is_present m.id q.outgoing)

  pub acknowledge-Stored : (r : Receipt) → Stored c (or_else q (acknowledge c r q))
  unfolding acknowledge
  acknowledge-Stored r = go (lookup r.id q.outgoing) refl
    where
      given :
          (e : Outgoing)
          → lookup r.id q.outgoing ≡ some e
          → (m : Manifest) (b : Bool) (d : Option Receipt)
          → Stored c (
              or_else q (
                if b then none else elim d [
                  | none ↦ some (record q {
                    outgoing = insert r.id (record e { delivery = some r }) q.outgoing;
                  })
                  | some old ↦ if same_receipt old r then some q else none
                ]))
      given e h m true d = v
      given e h m false none = delivered-Stored c q v r.id e (some r) h
      given e h m false (some old) = elim (Bool-cases (same_receipt old r)) [
        | inl s ↦ rw s v
        | inr s ↦ rw s v
      ]

      found :
          (e : Outgoing)
          → lookup r.id q.outgoing ≡ some e
          → (o : Option Manifest)
          → Stored c (
              or_else q (
                let out : Option Queue = elim o [
                  | none ↦ none
                  | some m ↦ if not (same_receipt r (receipt_of m)) then none else elim e.delivery [
                    | none ↦ some (record q {
                      outgoing = insert r.id (record e { delivery = some r }) q.outgoing;
                    })
                    | some old ↦ if same_receipt old r then some q else none
                  ]
                ] in
                out))
      found e h none = v
      found e h (some m) = given e h m (not (same_receipt r (receipt_of m))) e.delivery

      go :
          (o : Option Outgoing)
          → lookup r.id q.outgoing ≡ o
          → Stored c (
              or_else q (
                let out : Option Queue = elim o [
                  | none ↦ none
                  | some e ↦ elim (validate_manifest c e.manifest) [
                    | none ↦ none
                    | some m ↦
                        if not (same_receipt r (receipt_of m)) then none else elim e.delivery [
                          | none ↦ some (record q {
                            outgoing = insert r.id (record e { delivery = some r }) q.outgoing;
                          })
                          | some old ↦ if same_receipt old r then some q else none
                        ]
                  ]
                ] in
                out))
      go none h = v
      go (some e) h = found e h (validate_manifest c e.manifest)
