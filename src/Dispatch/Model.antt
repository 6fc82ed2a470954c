-- ===== src/Dispatch/Model.antt =====
-- Functions that have the laws demanded of torch: an insertion sort of indices, and exchanges that
-- are written out.
use tiny_dsv.Base.{
  ℕ, zero, suc, ◌+◌, ◌≤◌, ◌≡◌, refl, ap, ◌∙◌, some, List, [], ◌∷◌, map, length, All, leb,
  range_from, arith, if◌then◌else◌, Bool-cases, inl, inr,
}
use tiny_dsv.Base.Sums.{times}
use tiny_dsv.Mailbox.Sorting.{place, sort, place_least}
use tiny_dsv.Dispatch.Pieces.{nth, tabulate, collect, piece}
use tiny_dsv.Dispatch.Gather.{get_elem?, prefixed, gather}
use tiny_dsv.Dispatch.State.{Torch}
use tiny_dsv.Dispatch.Laws.{TorchLaws}

abbrev key_of : ℕ × ℕ → ℕ
key_of p = p.0

abbrev index_of : ℕ × ℕ → ℕ
index_of p = p.1

abbrev enumerate : List ℕ → ℕ → List (ℕ × ℕ)
enumerate [] s = []
enumerate (k ∷ ks) s = (k, s) ∷ enumerate ks (suc s)

unfoldable pub place_pair : ℕ × ℕ → List (ℕ × ℕ) → List (ℕ × ℕ)
place_pair p [] = p ∷ []
place_pair p (q ∷ qs) = if leb p.0 q.0 then p ∷ q ∷ qs else q ∷ place_pair p qs

abbrev sort_pairs : List (ℕ × ℕ) → List (ℕ × ℕ)
sort_pairs [] = []
sort_pairs (p ∷ ps) = place_pair p (sort_pairs ps)

abbrev argsort : List ℕ → List ℕ
argsort keys = map index_of (sort_pairs (enumerate keys 0))

abbrev pub torch : Torch
torch = record {
  argsort = argsort;
  bincount = λ keys size. tabulate size 0 (λ q. times q keys);
  share_counts = λ size counts rank. tabulate size 0 (λ r. nth rank (counts r));
  all_to_all = λ A size outs splits rows rank. collect size 0 (λ s. piece rank (splits s) (rows s));
}

place-place : (x y : ℕ) (xs : List ℕ) → place x (place y xs) ≡ place y (place x xs)
unfolding place
place-place x y [] = ground arith
place-place x y (z ∷ zs) = ground (arith, place-place x y zs)

sort-place_pair :
    (p : ℕ × ℕ) (qs : List (ℕ × ℕ))
    → sort (map index_of (place_pair p qs)) ≡ place p.1 (sort (map index_of qs))
unfolding place_pair sort
sort-place_pair p [] = refl
sort-place_pair p (q ∷ qs) = elim (Bool-cases (leb p.0 q.0)) [
  | inl e ↦ rw e refl
  | inr e ↦
      rw e (ap (place q.1) (sort-place_pair p qs) ∙ place-place q.1 p.1 (sort (map index_of qs)))
]

sort-sort_pairs : (ps : List (ℕ × ℕ)) → sort (map index_of (sort_pairs ps)) ≡ sort (map index_of ps)
unfolding sort
sort-sort_pairs [] = refl
sort-sort_pairs (p ∷ ps) = sort-place_pair p (sort_pairs ps) ∙ ap (place p.1) (sort-sort_pairs ps)

keys-place_pair :
    (p : ℕ × ℕ) (qs : List (ℕ × ℕ)) → map key_of (place_pair p qs) ≡ place p.0 (map key_of qs)
unfolding place_pair place
keys-place_pair p [] = refl
keys-place_pair p (q ∷ qs) = elim (Bool-cases (leb p.0 q.0)) [
  | inl e ↦ rw e refl
  | inr e ↦ rw e (ap (λ l. q.0 ∷ l) (keys-place_pair p qs))
]

keys-sort_pairs : (ps : List (ℕ × ℕ)) → map key_of (sort_pairs ps) ≡ sort (map key_of ps)
unfolding sort
keys-sort_pairs [] = refl
keys-sort_pairs (p ∷ ps) = keys-place_pair p (sort_pairs ps) ∙ ap (place p.0) (keys-sort_pairs ps)

keys-enumerate : (ks : List ℕ) (s : ℕ) → map key_of (enumerate ks s) ≡ ks
keys-enumerate [] s = refl
keys-enumerate (k ∷ ks) s = ap (λ l. k ∷ l) (keys-enumerate ks (suc s))

indices-enumerate : (ks : List ℕ) (s : ℕ) → map index_of (enumerate ks s) ≡ range_from s (length ks)
indices-enumerate [] s = refl
indices-enumerate (k ∷ ks) s = ap (λ l. s ∷ l) (indices-enumerate ks (suc s))

range_from-above : (b s n : ℕ) → b ≤ s → All (λ k. b ≤ k) (range_from s n)
range_from-above b s zero h = tt
range_from-above b s (suc n) h = (h, range_from-above b (suc s) n (omega arith))

sort-range_from : (s n : ℕ) → sort (range_from s n) ≡ range_from s n
unfolding sort
sort-range_from s zero = refl
sort-range_from s (suc n) =
    ap (place s) (sort-range_from (suc s) n)
    ∙ place_least s (range_from (suc s) n) (range_from-above s (suc s) n (omega arith))

-- The pair tells the place of its key.
abbrev Located : List ℕ → ℕ × ℕ → Type 0
Located keys p = get_elem? keys p.1 ≡ some p.0

enumerate-Located :
    (keys ks : List ℕ) (s : ℕ)
    → ((i : ℕ) → get_elem? keys (s + i) ≡ get_elem? ks i)
    → All (Located keys) (enumerate ks s)
enumerate-Located keys [] s h = tt
enumerate-Located keys (k ∷ ks) s h = (
  ap (get_elem? keys) (let e : s ≡ s + 0 = omega arith in e) ∙ h 0,
  enumerate-Located keys ks (suc s)
      (λ i. ap (get_elem? keys) (let e : suc s + i ≡ s + suc i = omega arith in e) ∙ h (suc i)),
)

place_pair-All :
    (P : ℕ × ℕ → Type 0) (p : ℕ × ℕ) (qs : List (ℕ × ℕ)) → P p → All P qs → All P (place_pair p qs)
unfolding place_pair
place_pair-All P p [] h a = (h, tt)
place_pair-All P p (q ∷ qs) h a = elim (Bool-cases (leb p.0 q.0)) [
  | inl e ↦ rw e (h, a)
  | inr e ↦ rw e (a.0, place_pair-All P p qs h a.1)
]

sort_pairs-All : (P : ℕ × ℕ → Type 0) (ps : List (ℕ × ℕ)) → All P ps → All P (sort_pairs ps)
sort_pairs-All P [] a = tt
sort_pairs-All P (p ∷ ps) a = place_pair-All P p (sort_pairs ps) a.0 (sort_pairs-All P ps a.1)

gather-Located :
    (keys : List ℕ) (ps : List (ℕ × ℕ))
    → All (Located keys) ps
    → gather keys (map index_of ps) ≡ some (map key_of ps)
gather-Located keys [] a = refl
gather-Located keys (p ∷ ps) a =
    ap (λ o. prefixed o (gather keys (map index_of ps))) a.0
    ∙ ap (λ o. prefixed (some p.0) o) (gather-Located keys ps a.1)

pub torch-Laws : TorchLaws torch
torch-Laws = record {
  argsort_sorts = λ keys.
      gather-Located keys (sort_pairs (enumerate keys 0)) (
        sort_pairs-All (Located keys) (enumerate keys 0) (
          enumerate-Located keys keys 0
            (λ i. ap (get_elem? keys) (let e : 0 + i ≡ i = omega arith in e))))
      ∙ ap some (keys-sort_pairs (enumerate keys 0) ∙ ap sort (keys-enumerate keys 0));
  argsort_permutes = λ keys.
      sort-sort_pairs (enumerate keys 0)
      ∙ ap sort (indices-enumerate keys 0)
      ∙ sort-range_from 0 (length keys);
  bincount_counts = λ keys size h. refl;
  counts_shared = λ size counts rank h lt. refl;
  rows_exchanged = λ A size outs splits rows rank h agree lt. refl;
}
