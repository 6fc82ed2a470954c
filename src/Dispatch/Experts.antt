-- ===== src/Dispatch/Experts.antt =====
-- A layer of experts between dispatch and combine, on one rank and on every rank of a group
-- (dsv41_train/dispatch.py, as its clients call it). An expert of any kind is a parameter.
use tiny_dsv.Base.{ℕ, ◌+◌, ◌*◌, ◌/◌, Option, none, some, List, [], map}
use tiny_dsv.Dispatch.State.{
  Torch, Token, Row, Route, DispatchMetadata, dispatch_local, combine_local, dispatch, combine,
}

module _ {H W O : Type 0} (total : List O → O) (expert : ℕ → H → W → O) where
  -- The output of a row on the rank whose experts begin at `start`.
  abbrev pub answer : (start : ℕ) → Row H W → O
  answer start row = expert (start + row.expert) row.hidden row.weight

  abbrev pub forward_local : (topk : ℕ) → List (Token H W) → Option (List O)
  forward_local topk tokens =
      let (rows, meta) = dispatch_local topk tokens in
      combine_local total (map (answer 0) rows) meta

  abbrev pub outputs : (start : ℕ) → Option (List (Row H W) × DispatchMetadata) → List O
  outputs start none = []
  outputs start (some (rows, meta)) = map (answer start) rows

  abbrev pub own_route : Option Route → Route
  own_route none = record { inverse_order = []; send_splits = []; recv_splits = [] }
  own_route (some route) = route

  abbrev pub route_at : Option (List (Row H W) × DispatchMetadata) → Route
  route_at none = record { inverse_order = []; send_splits = []; recv_splits = [] }
  route_at (some (rows, meta)) = own_route meta.route

  abbrev pub combine_at :
      (t : Torch) (size : ℕ)
      → (ℕ → Route)
      → (ℕ → List O)
      → (rank : ℕ) → Option (List (Row H W) × DispatchMetadata)
      → Option (List O)
  combine_at t size routes outs rank none = none
  combine_at t size routes outs rank (some (rows, meta)) =
      combine t total size routes outs meta rank

  abbrev pub forward_parallel :
      (t : Torch) (size topk num_experts : ℕ)
      → (ℕ → List (Token H W))
      → (rank : ℕ) → Option (List O)
  forward_parallel t size topk num_experts world rank =
      let dispatched : ℕ → Option (List (Row H W) × DispatchMetadata) =
        λ r. dispatch t size topk (some num_experts) world r in
      combine_at t size (λ r. route_at (dispatched r))
        (λ r. outputs (r * (num_experts / size)) (dispatched r)) rank (dispatched rank)
