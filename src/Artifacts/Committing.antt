-- ===== src/Artifacts/Committing.antt =====
-- A commit stores the content of its manifest (artifacts.py, ArtifactQueue.commit).
use tiny_dsv.Base.{
  ℕ, ◌≡◌, refl, sym, subst, Bool, true, false, not, ◌&&◌, Option, none, some, List, length, ◌==◌,
  ==_iff, arith, if◌then◌else◌, Bool-cases, inl, inr,
}
use tiny_dsv.Base.Dict.{lookup, insert}
use tiny_dsv.Base.Slices.{ceil}
use tiny_dsv.Artifacts.State.{
  Manifest, Receipt, Incoming, Queue, Config, validate_manifest, receipt_of, same_receipt,
}
use tiny_dsv.Artifacts.Receiving.{commit, assemble}
use tiny_dsv.Artifacts.Publishing.{validate_manifest-eq}
use tiny_dsv.Artifacts.Storage.{first_or, Matches, Sound, Stored, changed-Stored, lookup-All}

module _ (c : Config) (q : Queue) (v : Stored c q) where
  pub commit-Stored : (id : ℕ) → Stored c (first_or q (commit c id q))
  unfolding commit
  commit-Stored id = go (lookup id q.incoming) refl
    where
      checked :
          (e : Incoming)
          → lookup id q.incoming ≡ some e
          → (m : Manifest) → e.manifest ≡ m
          → (blob : List ℕ) (x : Bool) → (length blob == m.bytes && c.digest blob == m.sha256) ≡ x
          → Stored c (
              first_or q (
                if not x
                then none
                else some (
                  record q {
                    incoming =
                        insert id
                          (record e { blob = some blob; receipt = some (receipt_of m) })
                          q.incoming;
                  },
                  receipt_of m,
                )))
      checked e h m same blob false t = v
      checked e h m same blob true t =
          changed-Stored c q v id e (record e { blob = some blob; receipt = some (receipt_of m) }) h
            refl
            (
              (lookup-All (Sound c) id e q.incoming v.sound h).0,
              λ r.
                  subst (λ z. Matches c z (some blob)) (sym same)
                    (
                      (==_iff (length blob) m.bytes).0 (ground arith),
                      (==_iff (c.digest blob) m.sha256).0 (ground arith),
                    ),
            )

      open_entry :
          (e : Incoming)
          → lookup id q.incoming ≡ some e
          → (m : Manifest) → e.manifest ≡ m
          → (r : Option Receipt) (b : Option (List ℕ))
          → Stored c (
              first_or q (
                let out : Option (Queue × Receipt) = elim r [
                  | some r ↦ if same_receipt r (receipt_of m) then some (q, receipt_of m) else none
                  | none ↦ elim b [
                    | none ↦ none
                    | some blob ↦
                        if not (length blob == m.bytes && c.digest blob == m.sha256)
                        then none
                        else some (
                          record q {
                            incoming =
                                insert id
                                  (record e { blob = some blob; receipt = some (receipt_of m) })
                                  q.incoming;
                          },
                          receipt_of m,
                        )
                  ]
                ] in
                out))
      open_entry e h m same (some r) b = elim (Bool-cases (same_receipt r (receipt_of m))) [
        | inl s ↦ rw s v
        | inr s ↦ rw s v
      ]
      open_entry e h m same none none = v
      open_entry e h m same none (some blob) =
          checked e h m same blob (length blob == m.bytes && c.digest blob == m.sha256) refl

      found :
          (e : Incoming)
          → lookup id q.incoming ≡ some e
          → (o : Option Manifest) → validate_manifest c e.manifest ≡ o
          → Stored c (
              first_or q (
                let out : Option (Queue × Receipt) = elim o [
                  | none ↦ none
                  | some m ↦ elim e.receipt [
                    | some r ↦
                        if same_receipt r (receipt_of m) then some (q, receipt_of m) else none
                    | none ↦ elim (assemble (ceil m.bytes c.chunk_bytes) 0 e.chunks) [
                      | none ↦ none
                      | some blob ↦
                          if not (length blob == m.bytes && c.digest blob == m.sha256)
                          then none
                          else some (
                            record q {
                              incoming =
                                  insert id
                                    (record e { blob = some blob; receipt = some (receipt_of m) })
                                    q.incoming;
                            },
                            receipt_of m,
                          )
                    ]
                  ]
                ] in
                out))
      found e h none t = v
      found e h (some m) t =
          open_entry e h m (validate_manifest-eq c e.manifest m t) e.receipt
            (assemble (ceil m.bytes c.chunk_bytes) 0 e.chunks)

      go :
          (o : Option Incoming)
          → lookup id q.incoming ≡ o
          → Stored c (
              first_or q (
                let out : Option (Queue × Receipt) = elim o [
                  | none ↦ none
                  | some e ↦ elim (validate_manifest c e.manifest) [
                    | none ↦ none
                    | some m ↦ elim e.receipt [
                      | some r ↦
                          if same_receipt r (receipt_of m) then some (q, receipt_of m) else none
                      | none ↦ elim (assemble (ceil m.bytes c.chunk_bytes) 0 e.chunks) [
                        | none ↦ none
                        | some blob ↦
                            if not (length blob == m.bytes && c.digest blob == m.sha256)
                            then none
                            else some (
                              record q {
                                incoming =
                                    insert id
                                      (record e { blob = some blob; receipt = some (receipt_of m) })
                                      q.incoming;
                              },
                              receipt_of m,
                            )
                      ]
                    ]
                  ]
                ] in
                out))
      go none h = v
      go (some e) h = found e h (validate_manifest c e.manifest) refl
