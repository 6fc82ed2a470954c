-- ===== src/Dispatch/State.antt =====
-- The two token dispatchers of dsv41_train/dispatch.py. A token stands for its rows of the three
-- tensors `hidden`, `expert_ids` and `weights`, which move with the same splits. The ids of experts
-- are natural numbers, so that the check for negative ones is not needed.
use tiny_dsv.Base.{
  ℕ, zero, suc, ◌+◌, ◌-◌, ◌*◌, ◌/◌, ◌%◌, Bool, true, false, not, ◌&&◌, Option, none, some, List, [],
  ◌∷◌, ◌++◌, map, length, all, leb, ltb, ◌==◌, if◌then◌else◌,
}
use tiny_dsv.Base.Slices.{take, drop}
use tiny_dsv.Dispatch.Gather.{gather}

-- The functions of torch and torch.distributed that the code calls. A collective takes what every
-- rank gives, and answers for one rank.
pub record Torch : Type 1 where
  pub argsort : List ℕ → List ℕ
  pub bincount : List ℕ → (minlength : ℕ) → List ℕ
  pub share_counts : (size : ℕ) → (ℕ → List ℕ) → (rank : ℕ) → List ℕ
  pub all_to_all :
      (A : Type 0)
      → (size : ℕ) (output_splits input_splits : ℕ → List ℕ) → (ℕ → List A)
      → (rank : ℕ) → List A

pub record Token (H W : Type 0) : Type 0 where
  pub hidden : H
  pub choices : List (ℕ × W)

pub record Row (H W : Type 0) : Type 0 where
  pub hidden : H
  pub expert : ℕ
  pub weight : W

pub record Route : Type 0 where
  pub inverse_order : List ℕ
  pub send_splits : List ℕ
  pub recv_splits : List ℕ

pub record DispatchMetadata : Type 0 where
  pub token_count : ℕ
  pub topk : ℕ
  pub route : Option Route

abbrev pub expert_range : (size rank num_experts : ℕ) → Option (ℕ × ℕ)
expert_range size rank num_experts =
    if ltb num_experts 1
    then none
    else if not (num_experts % size == 0)
    then none
    else some (rank * (num_experts / size), rank * (num_experts / size) + num_experts / size)

module _ {H W : Type 0} where
  abbrev pub rows_of : H → List (ℕ × W) → List (Row H W)
  rows_of h [] = []
  rows_of h ((i, w) ∷ rest) = record { hidden = h; expert = i; weight = w } ∷ rows_of h rest

  -- Each token once for each of its experts.
  abbrev pub flat_rows : List (Token H W) → List (Row H W)
  flat_rows [] = []
  flat_rows (token ∷ rest) = rows_of token.hidden token.choices ++ flat_rows rest

-- The rows in groups of `topk`.
abbrev pub chop {ℓ} : {A : Type ℓ} → (count topk : ℕ) → List A → Option (List (List A))
chop zero topk [] = some []
chop zero topk (x ∷ xs) = none
chop (suc count) topk xs =
    if leb topk (length xs)
    then elim (chop count topk (drop topk xs)) [
      | none ↦ none
      | some rest ↦ some (take topk xs ∷ rest)
    ]
    else none

-- view(count, topk, -1), which refuses a tensor without elements, as -1 stands for any size there.
abbrev pub view {ℓ} : {A : Type ℓ} → (count topk : ℕ) → List A → Option (List (List A))
view count topk xs = if count * topk == 0 then none else chop count topk xs

-- `total` is the sum of the rows of a token.
abbrev pub summed {ℓ} : {O : Type ℓ} → (List O → O) → Option (List (List O)) → Option (List O)
summed total none = none
summed total (some groups) = some (map total groups)

-- TokenDispatcher, without expert parallelism.
module _ {H W : Type 0} where
  abbrev pub dispatch_local : (topk : ℕ) → List (Token H W) → List (Row H W) × DispatchMetadata
  dispatch_local topk tokens =
      (flat_rows tokens, record { token_count = length tokens; topk = topk; route = none })

abbrev pub combine_local {ℓ} :
    {O : Type ℓ} → (List O → O) → List O → DispatchMetadata → Option (List O)
combine_local total outs meta = summed total (view meta.token_count meta.topk outs)

-- What a rank has made ready when it enters the exchange.
pub record Sent (H W : Type 0) : Type 0 where
  pub rows : List (Row H W)
  pub inverse_order : List ℕ
  pub send_splits : List ℕ

module _ {H W : Type 0} where
  abbrev pub owners_of : (local_experts : ℕ) → List (Row H W) → List ℕ
  owners_of local_experts = map (λ (r : Row H W). r.expert / local_experts)

  abbrev pub nothing_sent : Sent H W
  nothing_sent = record { rows = []; inverse_order = []; send_splits = [] }

  abbrev pub sent_or : Option (Sent H W) → Sent H W
  sent_or none = nothing_sent
  sent_or (some s) = s

  abbrev pub is_ready : Option (Sent H W) → Bool
  is_ready none = false
  is_ready (some s) = true

  -- Every rank from `rank` on, `count` of them, has entered the exchange.
  abbrev pub all_ready : (count rank : ℕ) → (ℕ → Option (Sent H W)) → Bool
  all_ready zero rank sent = true
  all_ready (suc count) rank sent = is_ready (sent rank) && all_ready count (suc rank) sent

  -- The rows with the experts' numbers within the rank.
  abbrev pub local_row : (start : ℕ) → Row H W → Row H W
  local_row start row = record row { expert = row.expert - start }

-- AllToAllTokenDispatcher. `num_experts` is none until the dispatcher is attached.
module _ (t : Torch) {H W : Type 0} where
  abbrev pub ordered : (owners : List ℕ) (size : ℕ) → Option (List (Row H W)) → Option (Sent H W)
  ordered owners size none = none
  ordered owners size (some rows) = some (record {
    rows = rows;
    inverse_order = t.argsort (t.argsort owners);
    send_splits = t.bincount owners size;
  })

  abbrev pub prepare_in :
      Option (ℕ × ℕ) → (size num_experts : ℕ) → List (Row H W) → Option (Sent H W)
  prepare_in none size num_experts rows = none
  prepare_in (some (start, stop)) size num_experts rows =
      if not (all (λ (r : Row H W). ltb r.expert num_experts) rows)
      then none
      else ordered (owners_of (stop - start) rows) size
          (gather rows (t.argsort (owners_of (stop - start) rows)))

  unfoldable pub prepare : (size rank : ℕ) → Option ℕ → List (Token H W) → Option (Sent H W)
  prepare size rank none tokens = none
  prepare size rank (some num_experts) tokens =
      prepare_in (expert_range size rank num_experts) size num_experts (flat_rows tokens)

  abbrev pub recv_splits : (size : ℕ) → (ℕ → Sent H W) → (rank : ℕ) → List ℕ
  recv_splits size sent = t.share_counts size (λ r. (sent r).send_splits)

  abbrev pub route_of : (size : ℕ) → (ℕ → Sent H W) → (rank : ℕ) → Route
  route_of size sent rank = record {
    inverse_order = (sent rank).inverse_order;
    send_splits = (sent rank).send_splits;
    recv_splits = recv_splits size sent rank;
  }

  -- What `dispatch` gives a rank when the ranks have sent this.
  abbrev pub receive :
      (size topk local_experts : ℕ)
      → (ℕ → Sent H W)
      → (rank token_count : ℕ) → List (Row H W) × DispatchMetadata
  receive size topk local_experts sent rank token_count = (
    map (local_row (rank * local_experts)) (
        t.all_to_all (Row H W) size (recv_splits size sent) (λ r. (sent r).send_splits)
          (λ r. (sent r).rows) rank),
    record { token_count = token_count; topk = topk; route = some (route_of size sent rank) },
  )

  -- The tokens of every rank go in; a rank that raises stops the exchange.
  unfoldable pub dispatch :
      (size topk : ℕ)
      → Option ℕ
      → (ℕ → List (Token H W))
      → (rank : ℕ) → Option (List (Row H W) × DispatchMetadata)
  dispatch size topk none world rank = none
  dispatch size topk (some num_experts) world rank =
      if not (all_ready size 0 (λ r. prepare size r (some num_experts) (world r)))
      then none
      else some (
          receive size topk (num_experts / size)
            (λ r. sent_or (prepare size r (some num_experts) (world r))) rank (length (world rank)))

-- The outputs of every rank go in, with the metadata of every rank.
module _ (t : Torch) {O : Type 0} (total : List O → O) where
  abbrev pub finish : DispatchMetadata → Option (List O) → Option (List O)
  finish meta none = none
  finish meta (some returned) = summed total (view meta.token_count meta.topk returned)

  abbrev pub returned_rows : (size : ℕ) → (ℕ → Route) → (ℕ → List O) → (rank : ℕ) → List O
  returned_rows size routes =
      t.all_to_all O size (λ r. (routes r).send_splits) (λ r. (routes r).recv_splits)

  abbrev pub combine :
      (size : ℕ) → (ℕ → Route) → (ℕ → List O) → DispatchMetadata → (rank : ℕ) → Option (List O)
  combine size routes outs meta rank = elim meta.route [
    | none ↦ none
    | some route ↦ finish meta (gather (returned_rows size routes outs rank) route.inverse_order)
  ]
