-- ===== src/Cache/Histories.antt =====
-- Histories of a cache from its construction, and what `clear` leaves.
use Prim.Native.String.{String}
use tiny_dsv.Base.{
  ℕ, ◌+◌, ◌≡◌, refl, ap, ◌∙◌, ◌≢◌, ◌⊎◌, ◌&&◌, Option, some, none, List, [], ◌∷◌, arith, inl, inr,
  leb, Bool-cases, ==_refl, subst,
}
use tiny_dsv.Base.Dict.{Dict, lookup, erase, keys, Distinct, erase_absent}
use tiny_dsv.Cache.State.{Cache, Entry, Consumer, no_metrics}
use tiny_dsv.Cache.Space.{Reason, removed}
use tiny_dsv.Cache.Requests.{Env, cleared, failed, live_consumers}
use tiny_dsv.Cache.Calls.{init, entry_limit, Event, step, clear, clear_all}
use tiny_dsv.Cache.Invariant.{Inv, Sound}
use tiny_dsv.Cache.Eviction.{remove-some}
use tiny_dsv.Cache.Steps.{Fresh, step-Inv}

abbrev fresh_cache : ℕ → ℕ → ℕ → Cache
fresh_cache ram disk limit = record {
  capacity_ram = ram;
  capacity_disk = disk;
  max_entries = limit;
  entries = [];
  consumers = [];
  metrics = no_metrics;
}

empty-Sound : (a b n : ℕ) → Sound a b n [] []
empty-Sound a b n = record {
  distinct = tt;
  in_ram = omega arith;
  on_disk = omega arith;
  counted = omega arith;
  pinned = λ o l k r p q. cc;
  held = λ k l e p q. cc;
  alone = λ o p l k j r s x y z w. cc;
  produced = λ k e p q. cc;
  described = λ k e p q. cc;
  separate = λ o r p. cc;
  budget = λ o r p. cc;
}

init-Inv :
    (ram disk : Option ℕ) (limit soft : ℕ) (c : Cache) → init ram disk limit soft ≡ some c → Inv c
unfolding init
init-Inv none disk limit soft c h = absurd (ground arith)
init-Inv (some ram) none limit soft c h = absurd (ground arith)
init-Inv (some ram) (some disk) limit soft c h =
    elim (Bool-cases (leb 1 (ram + disk) && leb 1 limit)) [
      | inr bad ↦ absurd (ground arith)
      | inl good ↦
          let n = entry_limit limit soft in
          let made : init (some ram) (some disk) limit soft ≡ some (fresh_cache ram disk n) =
            rw (good, init) in
          subst Inv {x = fresh_cache ram disk n} {y = c} (cc made) (empty-Sound ram disk n)
    ]

module _ (sha256 : String → ℕ) where
  -- The lock serialises the requests of all threads and the rounds of the waiting ones.
  unfoldable pub run : List (Env × Event) → Cache → Cache
  run [] c = c
  run ((env, event) ∷ events) c = run events (step sha256 env event c).0

  abbrev pub FreshRun : List (Env × Event) → Cache → Type 0
  FreshRun [] c = Unit {0}
  FreshRun ((env, event) ∷ events) c = Fresh env c × FreshRun events (step sha256 env event c).0

  run-Inv :
      (events : List (Env × Event)) (c : Cache) → Inv c → FreshRun events c → Inv (run events c)
  unfolding run
  run-Inv [] c v f = v
  run-Inv ((env, event) ∷ events) c v (f, rest) =
      run-Inv events (step sha256 env event c).0 (step-Inv sha256 env c v f event) rest

  -- From construction on, every history of requests and wait rounds with new UUIDs keeps the cache
  -- well-formed: tiers within capacity, entry count within its limit, each lease on a published
  -- entry that lists it and held by one consumer within its copy budget, unfinished entries with a
  -- live producer.
  pub run-init-Inv :
      (ram disk : Option ℕ) (limit soft : ℕ) (c : Cache) (events : List (Env × Event))
      → init ram disk limit soft ≡ some c
      → FreshRun events c
      → Inv (run events c)
  run-init-Inv ram disk limit soft c events h f =
      run-Inv events c (init-Inv ram disk limit soft c h) f

clear_all_lem :
    (m : Dict Entry) (c : Cache)
    → c.entries ≡ m
    → Distinct m
    → (c' : Cache) × (clear_all (keys m) c ≡ some c') × (c'.entries ≡ [])
unfolding clear_all
clear_all_lem [] c h d = (c, refl, h)
clear_all_lem ((k, e) ∷ m) c h d =
    let here : lookup k c.entries ≡ some e = ap (lookup k) h ∙ rw (==_refl k) in
    let left : erase k c.entries ≡ m = ap (erase k) h ∙ rw (==_refl k) (erase_absent k m d.0) in
    let (c', run, gone) = clear_all_lem m (removed k e Reason.cleared c) left d.1 in
    (c', rw (remove-some k e Reason.cleared c here, clear_all) run, gone)

clear_idle :
    (c c' : Cache)
    → c.consumers ≡ []
    → clear_all (keys c.entries) c ≡ some c'
    → clear c ≡ (c', cleared)
unfolding clear
clear_idle c c' h run = ground arith

-- Clearing a well-formed cache empties it when it has no consumer, and otherwise is refused and
-- changes nothing.
pub clear_lem :
    (c : Cache)
    → Inv c
    → ((c.consumers ≡ []) × (c' : Cache) × (clear c ≡ (c', cleared)) × (c'.entries ≡ []))
      ⊎ ((c.consumers ≢ []) × (clear c ≡ (c, failed live_consumers)))
unfolding clear
clear_lem c v = go c.consumers refl
  where
    go :
        (cs : Dict Consumer)
        → c.consumers ≡ cs
        → ((c.consumers ≡ []) × (c' : Cache) × (clear c ≡ (c', cleared)) × (c'.entries ≡ []))
          ⊎ ((c.consumers ≢ []) × (clear c ≡ (c, failed live_consumers)))
    go [] h =
        let (c', run, gone) = clear_all_lem c.entries c refl v.distinct in
        inl (h, c', clear_idle c c' h run, gone)
    go (x ∷ cs) h = inr (λ e. cc, ground arith)
