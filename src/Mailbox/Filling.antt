-- ===== src/Mailbox/Filling.antt =====
-- The sampled group is retained, and the next one is reserved.
use tiny_dsv.Base.{
  ℕ, suc, ◌+◌, ◌≡◌, refl, ap, sym, ◌∙◌, false, Option, none, some, arith, length, Bool-cases, inl,
  inr, Option-cases, subst,
}
use tiny_dsv.Base.Dict.{insert}
use tiny_dsv.Mailbox.State.{Manager}
use tiny_dsv.Mailbox.Rounds.{Outcome, unfinished, failed, sampled, settle, may_admit, admit_group}
use tiny_dsv.Mailbox.Shape.{Shape, append-Shape}
use tiny_dsv.Mailbox.Prefix.{Shape-subst}
use tiny_dsv.Mailbox.Delivery.{Inv, in_flight}

module _ {A : Type 0} (group_of : A → ℕ) where
  abbrev pub Settles : Option (Manager A) → ℕ → Type 0
  Settles none cursor = Unit {0}
  Settles (some m) cursor = Inv group_of m cursor

  -- The packet that the backend gives for a group names it.
  pub settle_lem :
      (take_packet : ℕ → A)
      → ((id : ℕ) → group_of (take_packet id) ≡ id)
      → (outcome : Outcome) (m : Manager A) (cursor : ℕ) → Inv group_of m cursor
      → Settles (settle take_packet outcome m) cursor
  unfolding settle
  settle_lem take_packet names outcome m cursor v = go m.active outcome refl
    where
      go :
          (a : Option ℕ) (o : Outcome)
          → m.active ≡ a
          → Settles
              (elim a [
                | none ↦ some m
                | some id ↦ elim o [
                  | unfinished ↦ some m
                  | failed ↦ none
                  | sampled ↦ some (record m {
                    retained =
                        insert id
                          (record { packet = take_packet id; delivered = false })
                          m.retained;
                    active = none;
                  })
                ]
              ])
              cursor
      go none o e = v
      go (some id) unfinished e = v
      go (some id) failed e = tt
      go (some id) sampled e =
          let here : id ≡ m.committed + length m.retained = v.under_way id e in
          let shape = append-Shape group_of v.shape (take_packet id) (names id ∙ here) v.high in
          let grown =
            subst
              (λ k.
                Shape group_of
                  (insert k (record { packet = take_packet id; delivered = false }) m.retained)
                  m.committed (suc (length m.retained)) cursor)
              (sym here) shape in
          record {
            shape = Shape-subst group_of _ grown refl (sym grown.size);
            next = omega (arith, v.next, grown.size, ap in_flight e);
            under_way = λ k q. absurd (ground arith);
            fits = omega (arith, v.fits, grown.size, ap in_flight e);
            low = v.low;
            high = omega (arith, v.high, grown.size);
          }

  pub admit_group_lem :
      (m : Manager A) (cursor : ℕ) → Inv group_of m cursor → Inv group_of (admit_group m) cursor
  unfolding admit_group
  admit_group_lem m cursor v = elim (Bool-cases (may_admit m)) [
    | inr e ↦ rw e v
    | inl e ↦ rw e (elim (Option-cases m.active) [
      | inr (id, a) ↦ absurd (ground (arith, a))
      | inl a ↦ record {
        shape = v.shape;
        next = omega (arith, v.next, ap in_flight a);
        under_way = λ id q. ground (arith, v.next, ap in_flight a);
        fits = ground arith;
        low = v.low;
        high = v.high;
      }
    ])
  ]
