-- ===== src/Dispatch/Equivalence.antt =====
-- Experts on the ranks of a group give what they give on one rank (dsv41_train/dispatch.py).
use mathlib.Core.Path.{fun_ext}
use native.Mathlib.Nat.{div-mul-le_self}
use tiny_dsv.Base.{
  ℕ, suc, ◌+◌, ◌-◌, ◌*◌, ◌/◌, ◌%◌, ◌≤◌, ◌<◌, ◌≡◌, refl, ap, sym, ◌∙◌, subst, true, Option, none,
  some, List, [], ◌∷◌, ◌++◌, map, length, length-append, All, leb, arith,
}
use tiny_dsv.Base.{◌==◌, Bool, true, false, if◌then◌else◌}
use tiny_dsv.Base.Slices.{take, drop}
use tiny_dsv.Base.Sums.{times}
use tiny_dsv.Mailbox.Sorting.{sort, sort-IsSorted}
use tiny_dsv.Dispatch.Pieces.{
  tabulate, tabulate-ext, length-tabulate, collect, piece, take-append, drop-append, collect-ext,
  length-map, map-append, map-collect, map-piece,
}
use tiny_dsv.Dispatch.Counts.{piece-times, times-sort}
use tiny_dsv.Dispatch.Gather.{gather, gather-map-some}
use tiny_dsv.Dispatch.State.{
  Torch, Token, Row, Sent, DispatchMetadata, rows_of, flat_rows, chop, summed, sent_or, owners_of,
  local_row, prepare, recv_splits, receive, dispatch, finish,
}
use tiny_dsv.Dispatch.Laws.{TorchLaws}
use tiny_dsv.Dispatch.Exchange.{received_lem, returned_lem}
use tiny_dsv.Dispatch.Preparing.{Shaped, Ready, prepare-Ready, all_ready_lem}
use tiny_dsv.Dispatch.Experts.{
  answer, forward_local, outputs, route_at, combine_at, forward_parallel,
}

module _ {ℓ κ} {A : Type ℓ} {B : Type κ} (f g : A → B) where
  map-ext : (xs : List A) → All (λ x. f x ≡ g x) xs → map f xs ≡ map g xs
  map-ext [] a = refl
  map-ext (x ∷ xs) a = ap (λ y. y ∷ map f xs) a.0 ∙ ap (λ l. g x ∷ l) (map-ext xs a.1)

module _ {O : Type 0} (total : List O → O) where
  cut_first :
      (xs : List O) (sums : List O) (o : Option (List (List O)))
      → summed total o ≡ some sums
      → summed total (
          let out : Option (List (List O)) = elim o [
            | none ↦ none
            | some rest ↦ some (xs ∷ rest)
          ] in
          out)
        ≡ some (total xs ∷ sums)
  cut_first xs sums none h = absurd (ground arith)
  cut_first xs sums (some groups) h =
      let same : map total groups ≡ sums = ground arith in ap (λ l. some (total xs ∷ l)) same

  chop_step :
      (topk : ℕ) (xs ys : List O) (count : ℕ) (sums : List O)
      → length xs ≡ topk
      → summed total (chop count topk ys) ≡ some sums
      → summed total (chop (suc count) topk (xs ++ ys)) ≡ some (total xs ∷ sums)
  chop_step topk xs ys count sums e h =
      let enough : leb topk (length (xs ++ ys)) ≡ true = ground (arith, e, length-append xs ys) in
      let cut : take topk (xs ++ ys) ≡ xs =
        ap (λ k. take k (xs ++ ys)) (sym e) ∙ take-append xs ys in
      let left : drop topk (xs ++ ys) ≡ ys =
        ap (λ k. drop k (xs ++ ys)) (sym e) ∙ drop-append xs ys in
      rw (enough, left)
        (cut_first (take topk (xs ++ ys)) sums (chop count topk ys) h
          ∙ ap (λ l. some (total l ∷ sums)) cut)

  view_lem :
      (b : Bool) (o : Option (List (List O))) (sums : List O)
      → summed total o ≡ some sums
      → summed total (if b then none else o) ≡ (if b then none else some sums)
  view_lem true o sums h = refl
  view_lem false o sums h = h

module _ {H W O : Type 0} (total : List O → O) (expert : ℕ → H → W → O) where
  -- The sums over the experts of each token.
  abbrev pub expected : List (Token H W) → List O
  expected = map (λ token. total (map (answer total expert 0) (rows_of token.hidden token.choices)))

  -- An error on a rank without tokens or without choices, the sums on any other.
  abbrev pub outcome : (topk : ℕ) → List (Token H W) → Option (List O)
  outcome topk tokens = if length tokens * topk == 0 then none else some (expected tokens)

  length-rows_of : (h : H) (choices : List (ℕ × W)) → length (rows_of h choices) ≡ length choices
  length-rows_of h [] = refl
  length-rows_of h ((i, w) ∷ rest) = ap suc (length-rows_of h rest)

  chop-flat_rows :
      (topk n : ℕ) (tokens : List (Token H W))
      → All (Shaped topk n) tokens
      → summed total (chop (length tokens) topk (map (answer total expert 0) (flat_rows tokens)))
        ≡ some (expected tokens)
  chop-flat_rows topk n [] a = refl
  chop-flat_rows topk n (token ∷ rest) a =
      let first = map (answer total expert 0) (rows_of token.hidden token.choices) in
      let others = map (answer total expert 0) (flat_rows rest) in
      let size : length first ≡ topk =
        length-map (answer total expert 0) (rows_of token.hidden token.choices)
        ∙ length-rows_of token.hidden token.choices
        ∙ a.0.0 in
      let whole =
        map-append (answer total expert 0) (rows_of token.hidden token.choices) (flat_rows rest) in
      ap (λ l. summed total (chop (suc (length rest)) topk l)) whole
      ∙ chop_step total topk first others (length rest) (expected rest) size
          (chop-flat_rows topk n rest a.1)

module _ {ℓ κ μ} {A : Type ℓ} {B : Type κ} (f : A → B) (P : B → Type μ) where
  All-map : (xs : List A) → All P (map f xs) → All (λ x. P (f x)) xs
  All-map [] a = tt
  All-map (x ∷ xs) a = (a.0, All-map xs a.1)

module _ {ℓ} {A : Type ℓ} (P Q : A → Type 0) (h : (x : A) → P x → Q x) where
  All-weaken : (xs : List A) → All P xs → All Q xs
  All-weaken [] a = tt
  All-weaken (x ∷ xs) a = (h x a.0, All-weaken xs a.1)

all_least : (ks : List ℕ) → All (λ k. 0 ≤ k) ks
all_least [] = tt
all_least (k ∷ ks) = (omega arith, all_least ks)

-- The piece of a rank holds rows of its own experts only.
piece-owned :
    {H W : Type 0}
    → (size l q : ℕ) (tokens : List (Token H W)) (s : Option (Sent H W)) → Ready size l tokens s
    → All (λ (r : Row H W). r.expert / l ≡ q) (piece q (sent_or s).send_splits (sent_or s).rows)
piece-owned {H} {W} size l q tokens s v =
    let owners = owners_of l (flat_rows tokens) in
    let own : Row H W → ℕ = λ r. r.expert / l in
    let sorted =
      piece-times size 0 q (sort owners) (all_least (sort owners)) (sort-IsSorted owners) in
    let counts : tabulate size 0 (λ k. times k (sort owners)) ≡ (sent_or s).send_splits =
      tabulate-ext size 0 (λ k. times k (sort owners)) (λ k. times k owners)
        (λ k le. times-sort k owners)
      ∙ sym v.splits in
    All-map own (λ k. k ≡ q) (piece q (sent_or s).send_splits (sent_or s).rows)
      (subst (λ l. All (λ k. k ≡ q) l)
        (ap (λ c. piece q c (sort owners)) counts
          ∙ ap (λ z. piece q (sent_or s).send_splits z) (sym v.owned)
          ∙ sym (map-piece own q (sent_or s).send_splits (sent_or s).rows))
        (All-weaken (λ k. k ≡ 0 + q) (λ k. k ≡ q) (λ k e. omega (arith, e))
          (piece q (tabulate size 0 (λ k. times k (sort owners))) (sort owners)) sorted))

module _ {ℓ κ μ} {A : Type ℓ} {B : Type κ} {C : Type μ} (f : B → C) (g : A → B) where
  map-map : (xs : List A) → map f (map g xs) ≡ map (λ x. f (g x)) xs
  map-map [] = refl
  map-map (x ∷ xs) = ap (λ l. f (g x) ∷ l) (map-map xs)

module _ (t : Torch) (laws : TorchLaws t) {H W O : Type 0} (total : List O → O)
    (expert : ℕ → H → W → O) (size topk n : ℕ) (world : ℕ → List (Token H W)) (size_pos : 0 < size)
    (pos : 1 ≤ n) (divides : n % size ≡ 0)
    (shaped : (r : ℕ) → r < size → All (Shaped topk n) (world r)) where
  abbrev sent_at : ℕ → Sent H W
  sent_at r = sent_or (prepare t size r (some n) (world r))

  ready : (r : ℕ) → r < size → Ready size (n / size) (world r) (prepare t size r (some n) (world r))
  ready r h = prepare-Ready t laws size n r topk (world r) size_pos pos divides (shaped r h)

  count_splits : (r : ℕ) → r < size → length (sent_at r).send_splits ≡ size
  count_splits r h =
      ap length (ready r h).splits
      ∙ length-tabulate size 0 (λ q. times q (owners_of (n / size) (flat_rows (world r))))

  answer_local :
      (q : ℕ) (row : Row H W)
      → row.expert / (n / size) ≡ q
      → answer total expert (q * (n / size)) (local_row (q * (n / size)) row)
        ≡ answer total expert 0 row
  answer_local q row e =
      let least : q * (n / size) ≤ row.expert =
        subst (λ k. k * (n / size) ≤ row.expert) e (div-mul-le_self row.expert (n / size)) in
      ap (λ k. expert k row.hidden row.weight)
        (let same : q * (n / size) + (row.expert - q * (n / size)) ≡ 0 + row.expert =
            omega (arith, least) in
          same)

  abbrev received_at : ℕ → List (Row H W)
  received_at q =
      t.all_to_all (Row H W) size (recv_splits t size sent_at) (λ r. (sent_at r).send_splits)
        (λ r. (sent_at r).rows) q

  abbrev outs : ℕ → List O
  outs q =
      map (answer total expert (q * (n / size))) (map (local_row (q * (n / size))) (received_at q))

  abbrev pieces : ℕ → ℕ → List (Row H W)
  pieces q r = piece q (sent_at r).send_splits (sent_at r).rows

  outs_lem :
      (q : ℕ) → q < size → outs q ≡ collect size 0 (λ r. map (answer total expert 0) (pieces q r))
  outs_lem q h =
      let start = q * (n / size) in
      let f : Row H W → O = λ row. answer total expert start (local_row start row) in
      map-map (answer total expert start) (local_row start) (received_at q)
      ∙ ap (λ l. map f l)
          (received_lem t laws size (λ r. (sent_at r).send_splits) (λ r. (sent_at r).rows)
            count_splits (λ r lt. (ready r lt).fits) q h)
      ∙ map-collect f size 0 (pieces q)
      ∙ collect-ext size 0 size (λ r. map f (pieces q r))
          (λ r. map (answer total expert 0) (pieces q r)) (omega arith)
          (λ r lt. map-ext f (answer total expert 0) (pieces q r) (
            All-weaken (λ row. row.expert / (n / size) ≡ q)
              (λ row. f row ≡ answer total expert 0 row) (answer_local q) (pieces q r)
              (piece-owned size (n / size) q (world r) (prepare t size r (some n) (world r))
                (ready r lt))))

  dispatch_lem :
      (q : ℕ)
      → dispatch t size topk (some n) world q
        ≡ some (receive t size topk (n / size) sent_at q (length (world q)))
  unfolding dispatch
  dispatch_lem q =
      let all_sent =
        all_ready_lem size 0 size (λ r. prepare t size r (some n) (world r)) (omega arith)
          (λ r lt. (ready r lt).is_sent) in
      rw all_sent refl

  abbrev at_ranks : (ℕ → Option (List (Row H W) × DispatchMetadata)) → ℕ → Option (List O)
  at_ranks d rank =
      combine_at total expert t size (λ r. route_at total expert (d r))
        (λ r. outputs total expert (r * (n / size)) (d r)) rank (d rank)

  -- If argsort, bincount and the collectives do what torch documents, the group is not empty, its
  -- size divides the positive number of experts, and on each of its ranks every token has `topk`
  -- experts below that number, then dispatch, the experts of each rank on the rows it got, and
  -- combine give on every rank what the same steps give without expert parallelism: the sum over
  -- the experts of each token, in the order of the tokens, or an error when the rank has no tokens
  -- or `topk` is 0.
  pub experts_in_parallel :
      (rank : ℕ)
      → rank < size
      → (forward_parallel total expert t size topk n world rank
          ≡ outcome total expert topk (world rank))
        × (forward_local total expert topk (world rank) ≡ outcome total expert topk (world rank))
  experts_in_parallel rank h =
      let tokens = world rank in
      let outs_of = map (answer total expert 0) (flat_rows tokens) in
      let local =
        view_lem total (length tokens * topk == 0) (chop (length tokens) topk outs_of)
          (expected total expert tokens)
          (chop-flat_rows total expert topk n tokens (shaped rank h)) in
      let v = ready rank h in
      (
        ap (λ d. at_ranks d rank) (fun_ext dispatch_lem)
            ∙ ap
                (λ l.
                  finish t total
                    (record { token_count = length (world rank); topk = topk; route = none })
                    (gather l (sent_at rank).inverse_order))
                (returned_lem t laws size (λ r. (sent_at r).send_splits) (λ r. (sent_at r).rows)
                  count_splits (λ r lt. (ready r lt).fits) (answer total expert 0) outs outs_lem
                  rank h)
            ∙ ap
                (λ o.
                  finish t total
                    (record { token_count = length (world rank); topk = topk; route = none }) o)
                (gather-map-some (answer total expert 0) (sent_at rank).rows
                  (sent_at rank).inverse_order (flat_rows (world rank)) v.restores)
            ∙ local,
        local,
      )
