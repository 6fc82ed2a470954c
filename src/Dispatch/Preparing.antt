-- ===== src/Dispatch/Preparing.antt =====
-- What a rank makes ready for the exchange (dsv41_train/dispatch.py, dispatch): its rows in the order
-- of their owners, and the order that restores them.
use tiny_dsv.Base.{
  ℕ, zero, suc, ◌*◌, ◌/◌, ◌%◌, ◌+◌, ◌-◌, ◌≤◌, ◌<◌, ◌≡◌, refl, ap, sym, ◌∙◌, subst, true, Option,
  some, List, [], ◌∷◌, ◌++◌, length, all, All, ltb, range_from, arith,
}
use native.Mathlib.Nat.{div-lt_iff_lt-mul, div-add-mod'}
use tiny_dsv.Base.Sums.{times}
use tiny_dsv.Mailbox.Sorting.{sort}
use tiny_dsv.Dispatch.Pieces.{sum, tabulate, length-map}
use tiny_dsv.Dispatch.Counts.{sum-times, length-sort}
use tiny_dsv.Dispatch.Gather.{gather, gather_all, gather-gather, gather-map}
use tiny_dsv.Dispatch.State.{
  Torch, Token, Row, Sent, expert_range, rows_of, flat_rows, sent_or, is_ready, all_ready,
  owners_of, ordered, prepare_in, prepare,
}
use tiny_dsv.Dispatch.Laws.{TorchLaws}

-- A token has `topk` experts, each of them below `num_experts`.
abbrev pub Shaped : {H W : Type 0} → (topk num_experts : ℕ) → Token H W → Type 0
Shaped topk num_experts token =
    (length token.choices ≡ topk) × All (λ c. c.0 < num_experts) token.choices

module _ {ℓ κ} {A : Type ℓ} (P : A → Type κ) where
  append-All : (xs ys : List A) → All P xs → All P ys → All P (xs ++ ys)
  append-All [] ys a b = b
  append-All (x ∷ xs) ys a b = (a.0, append-All xs ys a.1 b)

module _ {H W : Type 0} (n : ℕ) where
  rows_of-All :
      (h : H) (choices : List (ℕ × W))
      → All (λ c. c.0 < n) choices
      → All (λ (r : Row H W). r.expert < n) (rows_of h choices)
  rows_of-All h [] a = tt
  rows_of-All h ((i, w) ∷ rest) a = (a.0, rows_of-All h rest a.1)

  flat_rows-All :
      (topk : ℕ) (tokens : List (Token H W))
      → All (Shaped topk n) tokens
      → All (λ (r : Row H W). r.expert < n) (flat_rows tokens)
  flat_rows-All topk [] a = tt
  flat_rows-All topk (token ∷ rest) a =
      append-All (λ (r : Row H W). r.expert < n) (rows_of token.hidden token.choices)
        (flat_rows rest) (rows_of-All token.hidden token.choices a.0.1)
        (flat_rows-All topk rest a.1)

  all_below :
      (rows : List (Row H W))
      → All (λ r. r.expert < n) rows
      → all (λ (r : Row H W). ltb r.expert n) rows ≡ true
  all_below [] a = refl
  all_below (r ∷ rows) a = ground (arith, a.0, all_below rows a.1)

  owners_below :
      (size l : ℕ)
      → 0 < l
      → n ≡ size * l
      → (rows : List (Row H W)) → All (λ r. r.expert < n) rows
      → All (λ k. k < size) (owners_of l rows)
  owners_below size l pos e [] a = tt
  owners_below size l pos e (r ∷ rows) a = (
    (div-lt_iff_lt-mul {k = l} {x = r.expert} {y = size} pos).1 (subst (λ z. r.expert < z) e a.0),
    owners_below size l pos e rows a.1,
  )

-- The rows are sorted by owner, the splits count the owners, and the inverse order restores them.
pub record Ready {H W : Type 0} (size l : ℕ) (tokens : List (Token H W)) (s : Option (Sent H W))
    : Type 0 where
  pub is_sent : is_ready s ≡ true
  pub owned : owners_of l (sent_or s).rows ≡ sort (owners_of l (flat_rows tokens))
  pub below : All (λ k. k < size) (owners_of l (flat_rows tokens))
  pub splits :
      (sent_or s).send_splits ≡ tabulate size 0 (λ q. times q (owners_of l (flat_rows tokens)))
  pub restores : gather (sent_or s).rows (sent_or s).inverse_order ≡ some (flat_rows tokens)
  pub fits : sum (sent_or s).send_splits ≡ length (sent_or s).rows

range_eq :
    (size n rank : ℕ)
    → 1 ≤ n
    → n % size ≡ 0
    → expert_range size rank n ≡ some (rank * (n / size), rank * (n / size) + n / size)
range_eq size n rank pos h = ground arith

module _ (t : Torch) (laws : TorchLaws t) {H W : Type 0} (size n : ℕ) where
  ordered-Ready :
      (tokens : List (Token H W)) (l : ℕ) (rows : List (Row H W))
      → All (λ k. k < size) (owners_of l (flat_rows tokens))
      → gather (flat_rows tokens) (t.argsort (owners_of l (flat_rows tokens))) ≡ some rows
      → owners_of l rows ≡ sort (owners_of l (flat_rows tokens))
      → Ready size l tokens (ordered t (owners_of l (flat_rows tokens)) size (some rows))
  ordered-Ready tokens l rows below g images =
      let owners = owners_of l (flat_rows tokens) in
      let own = λ (r : Row H W). r.expert / l in
      let order = t.argsort owners in
      let counted = laws.bincount_counts owners size below in
      record {
        is_sent = refl;
        owned = images;
        below = below;
        splits = counted;
        restores =
            gather-gather (flat_rows tokens) order rows (t.argsort order)
              (range_from 0 (length owners)) g
              (laws.argsort_sorts order ∙ ap some (laws.argsort_permutes owners))
            ∙ ap (λ k. gather (flat_rows tokens) (range_from 0 k))
                (length-map own (flat_rows tokens))
            ∙ gather_all (flat_rows tokens);
        fits =
            ap sum counted
            ∙ sum-times size owners below
            ∙ sym (length-sort owners)
            ∙ ap length (sym images)
            ∙ length-map own rows;
      }

  pub prepare-Ready :
      (rank topk : ℕ) (tokens : List (Token H W))
      → 0 < size
      → 1 ≤ n
      → n % size ≡ 0
      → All (Shaped topk n) tokens
      → Ready size (n / size) tokens (prepare t size rank (some n) tokens)
  unfolding prepare
  prepare-Ready rank topk tokens size_pos pos divides shaped =
      let l = n / size in
      let flat = flat_rows tokens in
      let owners = owners_of l flat in
      let whole : n ≡ size * l = omega (arith, divides, div-add-mod' n size) in
      let l_pos : 0 < l = positive l whole in
      let experts = flat_rows-All n topk tokens shaped in
      let below = owners_below n size l l_pos whole flat experts in
      let (rows, g, images) =
        gather-map (λ (r : Row H W). r.expert / l) flat (t.argsort owners) (sort owners)
          (laws.argsort_sorts owners) in
      let width : rank * l + l - rank * l ≡ l = omega arith in
      let same : prepare_in t (expert_range size rank n) size n flat
          ≡ ordered t owners size (some rows) =
        ap (λ o. prepare_in t o size n flat) (range_eq size n rank pos divides)
        ∙ rw (all_below n flat experts, width, g) refl in
      subst (Ready size l tokens) (sym same) (ordered-Ready tokens l rows below g images)
    where
      positive : (l : ℕ) → n ≡ size * l → 0 < l
      positive zero e = absurd (omega (arith, e, pos))
      positive (suc l) e = omega arith

pub all_ready_lem :
    {H W : Type 0}
    → (n s b : ℕ) (sent : ℕ → Option (Sent H W)) → s + n ≤ b
    → ((r : ℕ) → r < b → is_ready (sent r) ≡ true)
    → all_ready n s sent ≡ true
all_ready_lem zero s b sent le h = refl
all_ready_lem (suc n) s b sent le h =
    ground (arith, h s (omega (arith, le)), all_ready_lem n (suc s) b sent (omega (arith, le)) h)
