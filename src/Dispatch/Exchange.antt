-- ===== src/Dispatch/Exchange.antt =====
-- An exchange of rows and the exchange of the answers with the splits turned around
-- (dsv41_train/dispatch.py, _exchange).
use tiny_dsv.Base.{ℕ, ◌+◌, ◌<◌, ◌≡◌, ap, sym, ◌∙◌, subst, List, map, length, arith}
use tiny_dsv.Dispatch.Pieces.{
  sum, nth, tabulate, tabulate-ext_below, tabulate-nth, collect, piece, piece-collect,
  collect-piece, collect-ext, sum-collect, length-piece, length-map, map-collect,
}
use tiny_dsv.Dispatch.State.{Torch}
use tiny_dsv.Dispatch.Laws.{TorchLaws}

module _ (t : Torch) (laws : TorchLaws t) {A : Type 0} (size : ℕ) (splits : ℕ → List ℕ)
    (rows : ℕ → List A) (count_splits : (r : ℕ) → r < size → length (splits r) ≡ size)
    (all_rows : (r : ℕ) → r < size → sum (splits r) ≡ length (rows r)) where
  pub recv_lem :
      (q : ℕ)
      → q < size
      → t.share_counts size splits q ≡ tabulate size 0 (λ r. length (piece q (splits r) (rows r)))
  recv_lem q h =
      laws.counts_shared size splits q count_splits h
      ∙ tabulate-ext_below size 0 size (λ r. nth q (splits r))
          (λ r. length (piece q (splits r) (rows r))) (omega arith)
          (λ r lt. sym (length-piece q (splits r) (rows r) (all_rows r lt)))

  pub received_lem :
      (q : ℕ)
      → q < size
      → t.all_to_all A size (t.share_counts size splits) splits rows q
        ≡ collect size 0 (λ r. piece q (splits r) (rows r))
  received_lem q h =
      laws.rows_exchanged A size (t.share_counts size splits) splits rows q all_rows recv_lem h

  module _ {O : Type 0} (f : A → O) (outs : ℕ → List O)
      (answers : (q : ℕ)
        → q < size
        → outs q ≡ collect size 0 (λ r. map f (piece q (splits r) (rows r)))) where
    recv_answers :
        (q : ℕ)
        → q < size
        → t.share_counts size splits q
          ≡ tabulate size 0 (λ r. length (map f (piece q (splits r) (rows r))))
    recv_answers q h =
        recv_lem q h
        ∙ tabulate-ext_below size 0 size (λ r. length (piece q (splits r) (rows r)))
            (λ r. length (map f (piece q (splits r) (rows r)))) (omega arith)
            (λ r lt. sym (length-map f (piece q (splits r) (rows r))))

    -- The piece of a rank in the answers of another.
    answer :
        (rank q : ℕ)
        → rank < size
        → q < size
        → piece rank (t.share_counts size splits q) (outs q)
          ≡ map f (piece q (splits rank) (rows rank))
    answer rank q h lt =
        ap (λ l. piece rank l (outs q)) (recv_answers q lt)
        ∙ ap
            (λ l.
              piece rank (tabulate size 0 (λ r. length (map f (piece q (splits r) (rows r))))) l)
            (answers q lt)
        ∙ piece-collect size 0 rank (λ r. map f (piece q (splits r) (rows r))) h
        ∙ ap (λ r. map f (piece q (splits r) (rows r))) (let e : 0 + rank ≡ rank = omega arith in e)

    answers_fit : (q : ℕ) → q < size → sum (t.share_counts size splits q) ≡ length (outs q)
    answers_fit q h =
        ap sum (recv_answers q h)
        ∙ sum-collect size 0 (λ r. map f (piece q (splits r) (rows r)))
        ∙ ap length (sym (answers q h))

    sent_splits :
        (r : ℕ)
        → r < size
        → splits r ≡ tabulate size 0 (λ q. length (piece r (t.share_counts size splits q) (outs q)))
    sent_splits r h = sym (
        tabulate-ext_below size 0 size
          (λ q. length (piece r (t.share_counts size splits q) (outs q))) (λ q. nth q (splits r))
          (omega arith)
          (λ q lt.
            ap length (answer r q h lt)
            ∙ length-map f (piece q (splits r) (rows r))
            ∙ length-piece q (splits r) (rows r) (all_rows r h))
        ∙ subst (λ n. tabulate n 0 (λ q. nth q (splits r)) ≡ splits r) (count_splits r h)
            (tabulate-nth (splits r) 0 (λ q. nth q (splits r))
              (λ i. ap (λ k. nth k (splits r)) (let e : 0 + i ≡ i = omega arith in e))))

    pub returned_lem :
        (rank : ℕ)
        → rank < size
        → t.all_to_all O size splits (t.share_counts size splits) outs rank ≡ map f (rows rank)
    returned_lem rank h =
        laws.rows_exchanged O size splits (t.share_counts size splits) outs rank answers_fit
          sent_splits h
        ∙ collect-ext size 0 size (λ q. piece rank (t.share_counts size splits q) (outs q))
            (λ q. map f (piece q (splits rank) (rows rank))) (omega arith)
            (λ q lt. answer rank q h lt)
        ∙ sym (map-collect f size 0 (λ q. piece q (splits rank) (rows rank)))
        ∙ ap (λ l. map f l)
            (subst (λ n. collect n 0 (λ q. piece q (splits rank) (rows rank)) ≡ rows rank)
              (count_splits rank h)
              (collect-piece (splits rank) 0 (λ q. piece q (splits rank) (rows rank)) (rows rank)
                (λ i.
                  ap (λ k. piece k (splits rank) (rows rank))
                    (let e : 0 + i ≡ i = omega arith in e))
                (all_rows rank h)))
