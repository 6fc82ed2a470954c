-- ===== src/Dispatch/Laws.antt =====
-- What torch and torch.distributed document of the functions that dsv41_train/dispatch.py calls.
use tiny_dsv.Base.{ℕ, ◌<◌, ◌≡◌, some, List, length, All, range_from}
use tiny_dsv.Base.Sums.{times}
use tiny_dsv.Mailbox.Sorting.{sort}
use tiny_dsv.Dispatch.Pieces.{sum, nth, tabulate, collect, piece}
use tiny_dsv.Dispatch.Gather.{gather}
use tiny_dsv.Dispatch.State.{Torch}

pub record TorchLaws (t : Torch) : Type 1 where
  -- argsort gives the indices that sort its argument, and they are a permutation.
  pub argsort_sorts : (keys : List ℕ) → gather keys (t.argsort keys) ≡ some (sort keys)
  pub argsort_permutes : (keys : List ℕ) → sort (t.argsort keys) ≡ range_from 0 (length keys)
  -- bincount counts how often each number below `size` occurs.
  pub bincount_counts :
      (keys : List ℕ) (size : ℕ)
      → All (λ k. k < size) keys
      → t.bincount keys size ≡ tabulate size 0 (λ q. times q keys)
  -- all_to_all_single without splits: one number of each rank to each rank.
  pub counts_shared :
      (size : ℕ) (counts : ℕ → List ℕ) (rank : ℕ)
      → ((r : ℕ) → r < size → length (counts r) ≡ size)
      → rank < size
      → t.share_counts size counts rank ≡ tabulate size 0 (λ r. nth rank (counts r))
  -- all_to_all_single with splits that match: the pieces of all ranks in the order of the ranks.
  pub rows_exchanged :
      (A : Type 0) (size : ℕ) (output_splits input_splits : ℕ → List ℕ) (rows : ℕ → List A)
      (rank : ℕ)
      → ((r : ℕ) → r < size → sum (input_splits r) ≡ length (rows r))
      → ((r : ℕ)
          → r < size
          → output_splits r ≡ tabulate size 0 (λ s. length (piece r (input_splits s) (rows s))))
      → rank < size
      → t.all_to_all A size output_splits input_splits rows rank
        ≡ collect size 0 (λ s. piece rank (input_splits s) (rows s))
