-- ===== src/Mailbox/Tests.antt =====
-- A mailbox for two groups, run by hand.
use tiny_dsv.Base.{Bool, leb, ℕ, ◌≡◌, refl, true, false, none, some, [], ◌∷◌, ◌++◌, arith, length}
use tiny_dsv.Mailbox.Sorting.{place, sort}
use tiny_dsv.Mailbox.State.{Manager, load, Settings, start, opened}
use tiny_dsv.Mailbox.Commands.{
  World, Command, Reply, first_waiting, get_packet, commit_groups, run_command,
}
use tiny_dsv.Mailbox.Rounds.{
  request, unfinished, sampled, goes_on, round, snapshot, run_arrivals, settle, drain, admit_group,
}
use tiny_dsv.Mailbox.Delivery.{Inv, Commits, commit_groups_lem}
use tiny_dsv.Mailbox.Restoring.{start_lem}
use tiny_dsv.Mailbox.Replies.{Sends}
use tiny_dsv.Mailbox.Runs.{Run, here, after, deliveries_in_order}

abbrev group : ℕ → ℕ
group p = p

-- A decoder that refuses the packets above 9.
abbrev agrees : ℕ → Bool
agrees p = leb p 9

abbrev named : (id : ℕ) → group (group id) ≡ id
named id = refl

abbrev world : World
world = record {
  control_ok = true;
  stream_open = true;
  busy = false;
  can_evaluate = false;
  close_ok = true;
}

abbrev settings : Settings
settings = record {
  queue_capacity = 1;
  groups_per_step = 1;
  lineage = 5;
  next_group_id = 3;
  start_paused = false;
}

abbrev m0 : Manager ℕ
m0 = opened group settings 3 3 0 []

-- Group 3 is under way.
abbrev m1 : Manager ℕ
m1 = record m0 { next_group = 4; active = some 3 }

-- Group 3 is there, and the queue is full.
abbrev m2 : Manager ℕ
m2 = record m0 { next_group = 4; retained = (3, record { packet = 3; delivered = false }) ∷ [] }

-- Group 3 is handed out, and group 4 is under way.
abbrev m3 : Manager ℕ
m3 = record m0 {
  next_group = 5;
  active = some 4;
  retained = (3, record { packet = 3; delivered = true }) ∷ [];
}

abbrev m4 : Manager ℕ
m4 = record m3 {
  active = none;
  retained =
      (3, record { packet = 3; delivered = true })
      ∷ (4, record { packet = 4; delivered = false })
      ∷ [];
}

program : Unit {0}
unfolding place sort load start first_waiting get_packet commit_groups run_command run_arrivals
    settle snapshot drain admit_group round
program = tt

start_empty : start group agrees settings none ≡ some m0
unfolding program
start_empty = refl

round_admits : round group world [] unfinished m0 ≡ some (goes_on m1 [])
unfolding program
round_admits = refl

round_fills :
    round group world (request 7 Command.get ∷ []) sampled m1
    ≡ some (goes_on m2 ((7, Reply.empty) ∷ []))
unfolding program
round_fills = refl

round_delivers :
    round group world (request 8 Command.get ∷ []) unfinished m2
    ≡ some (goes_on m3 ((8, Reply.packet 3) ∷ []))
unfolding program
round_delivers = refl

round_waits : round group world [] sampled m3 ≡ some (goes_on m4 [])
unfolding program
round_waits = refl

abbrev trip :
    Run group group m0 m4 ([] ++ ((7, Reply.empty) ∷ []) ++ ((8, Reply.packet 3) ∷ []) ++ [] ++ [])
trip = after world [] unfinished round_admits (
    after world (request 7 Command.get ∷ []) sampled round_fills (
      after world (request 8 Command.get ∷ []) unfinished round_delivers
        (after world [] sampled round_waits here)))

deliveries_in_order_example :
    Sends group m4 ([] ++ ((7, Reply.empty) ∷ []) ++ ((8, Reply.packet 3) ∷ []) ++ [] ++ []) 3
deliveries_in_order_example =
    deliveries_in_order group group named agrees settings none start_empty (omega arith) trip

m4-Inv : Inv group m4 4
unfolding program
m4-Inv = record {
  shape = record {
    distinct = (refl, (refl, tt));
    sorted = refl;
    size = refl;
    delivered = λ k row h. ground arith;
    named = λ k row h. ground arith;
  };
  next = refl;
  under_way = λ id h. absurd (ground arith);
  fits = omega arith;
  low = omega arith;
  high = omega arith;
}

commit_groups_lem_example :
    Commits group m4 4 (sort ((3 ∷ []) ++ [])) (length {A = ℕ} []) (commit_groups (3 ∷ []) [] m4)
commit_groups_lem_example = commit_groups_lem group (3 ∷ []) [] m4 4 m4-Inv

commit_answers : (m : Manager ℕ) × (commit_groups (3 ∷ []) [] m4 ≡ some (m, Reply.marks 4 0))
unfolding program
commit_answers = (_, refl)

commit_of_the_undelivered : commit_groups (3 ∷ []) (4 ∷ []) m4 ≡ none
unfolding program
commit_of_the_undelivered = refl

start_lem_example : Inv group m0 3
start_lem_example = start_lem group agrees settings none m0 start_empty (omega arith)

refused_packet :
    start group agrees settings (
      some (record {
        schema_version = 1;
        lineage = 5;
        next_group_id = some 11;
        committed_highwater = some 10;
        dropped_groups = some 0;
        pending = 10 ∷ [];
      }))
    ≡ none
unfolding program
refused_packet = refl

-- A recovery record whose high-water mark is above its next group is accepted when it holds no
-- packet.
gap_accepted :
    start group agrees settings (
      some (record {
        schema_version = 1;
        lineage = 5;
        next_group_id = some 3;
        committed_highwater = some 5;
        dropped_groups = some 0;
        pending = [];
      }))
    ≡ some (opened group settings 3 5 0 [])
unfolding program
gap_accepted = refl
