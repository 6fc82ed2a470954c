-- ===== src/Artifacts/Starting.antt =====
-- The start of a transfer keeps what an ArtifactQueue stores (artifacts.py).
use tiny_dsv.Base.{
  ℕ, ◌≡◌, refl, subst, Bool, true, false, not, Option, none, some, [], if◌then◌else◌, Bool-cases,
  inl, inr,
}
use tiny_dsv.Base.Dict.{lookup, insert}
use tiny_dsv.Artifacts.State.{
  Manifest, Incoming, Queue, Config, validate_manifest, same_manifest, is_bounded,
}
use tiny_dsv.Artifacts.Receiving.{start, is_committed, has_conflict, admits, next_index}
use tiny_dsv.Artifacts.Publishing.{validate_manifest-eq}
use tiny_dsv.Artifacts.Storage.{started_or, Stored, entered-Stored}

module _ (c : Config) (q : Queue) (v : Stored c q) where
  pub start-Stored : (manifest : Manifest) → Stored c (started_or q (start c manifest q))
  unfolding start
  start-Stored manifest = go (validate_manifest c manifest) refl
    where
      new :
          (m : Manifest)
          → validate_manifest c m ≡ some m
          → (x : Bool) → is_bounded c m.bytes q ≡ x
          → Stored c (
              started_or q (
                if not x
                then none
                else some (
                  record q {
                    incoming =
                        insert m.id
                          (record { manifest = m; chunks = []; blob = none; receipt = none })
                          q.incoming;
                  },
                  0,
                  false,
                )))
      new m valid true e = entered-Stored c q v m.id m valid e
      new m valid false e = v

      found :
          (m : Manifest)
          → validate_manifest c m ≡ some m
          → (x y : Bool) (o : Option Incoming)
          → Stored c (
              started_or q (
                if x then none else if y then none else elim o [
                  | none ↦
                      if not (is_bounded c m.bytes q)
                      then none
                      else some (
                        record q {
                          incoming =
                              insert m.id
                                (record { manifest = m; chunks = []; blob = none; receipt = none })
                                q.incoming;
                        },
                        0,
                        false,
                      )
                  | some e ↦
                      if same_manifest e.manifest m
                      then some (q, next_index e.chunks, is_committed e)
                      else none
                ]))
      found m valid true y o = v
      found m valid false true o = v
      found m valid false false none = new m valid (is_bounded c m.bytes q) refl
      found m valid false false (some e) = elim (Bool-cases (same_manifest e.manifest m)) [
        | inl s ↦ rw s v
        | inr s ↦ rw s v
      ]

      go :
          (o : Option Manifest)
          → validate_manifest c manifest ≡ o
          → Stored c (
              started_or q (
                let out : Option (Queue × ℕ × Bool) = elim o [
                  | none ↦ none
                  | some m ↦
                      if not (admits q.role m.kind)
                      then none
                      else if has_conflict m q.incoming
                      then none
                      else elim (lookup m.id q.incoming) [
                        | none ↦
                            if not (is_bounded c m.bytes q)
                            then none
                            else some (
                              record q {
                                incoming =
                                    insert m.id
                                      (record {
                                        manifest = m;
                                        chunks = [];
                                        blob = none;
                                        receipt = none;
                                      })
                                      q.incoming;
                              },
                              0,
                              false,
                            )
                        | some e ↦
                            if same_manifest e.manifest m
                            then some (q, next_index e.chunks, is_committed e)
                            else none
                      ]
                ] in
                out))
      go none h = v
      go (some m) h =
          found m
            (subst (λ z. validate_manifest c z ≡ some m) (validate_manifest-eq c manifest m h) h)
            (not (admits q.role m.kind)) (has_conflict m q.incoming) (lookup m.id q.incoming)
