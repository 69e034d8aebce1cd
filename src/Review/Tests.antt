-- ===== src/Review/Tests.antt =====
-- Runs of the operations of src/review/store.ts on a small task, and the uses of the theorems there.
use scientific_protocol.Common.{
  arith, ◌∷◌, ltb, ℕ, ◌+◌, ◌≤◌, true, false, ◌≡◌, refl, none, some, [], String, thrown, trim,
  or_else,
}
use scientific_protocol.Work.Types.{ReviewTaskType}
use scientific_protocol.Work.Policy.{ReviewConsensusPolicy}
use scientific_protocol.Table.{get}
use scientific_protocol.Review.{
  CreateInput, Json, Member, read_policy, policy_json, RawPolicy, ReviewTask, ReviewRun,
  ReviewStore, Verdict, create_review_task, claim_review_task_by_id, fail_review_task_run,
  read_review_task, submitted, running, submitted_by, policy_of, task_is_open,
  normalize_consensus_policy, review_task_run_not_running, review_task_run_agent_mismatch, new_task,
  new_run,
}
use scientific_protocol.Review.Leases.{heartbeat_review_task_run, expire_stale_review_task_runs}
use scientific_protocol.Review.Submission.{SubmissionInput, record_review_submission}
use scientific_protocol.Review.Policy.{stored_policy}
use scientific_protocol.Review.Consensus.{Move}
use scientific_protocol.Review.Effects.{view}
use scientific_protocol.Review.Refinement.{
  empty_store, Reach, here, next, creates, claims, submits, beats, expires, Step-Move,
  Reach-IsAgreed, Reach-IsKeyed,
}
use scientific_protocol.Review.Distinct.{Reach-submitted_by-le}
use scientific_protocol.Review.Outcomes.{Outcome, record-Outcome}
use scientific_protocol.Review.Stranded.{Others, left_run_stays}

abbrev lower : String → String
lower text = text

abbrev two_of_three : RawPolicy
two_of_three = record {
  max_submissions = some 3;
  min_submissions = some 2;
  require_distinct_agents = some true;
}

abbrev input : CreateInput
input = record {
  claim_id = some "c1";
  consensus_policy = two_of_three;
  input_artifact_keys = none;
  requested_by = "owner";
  required_capabilities = none;
  schema_version = none;
  scope_key = none;
  source_id = none;
  source_subject_id = none;
  source_subject_type = none;
  task_type = ReviewTaskType.stats_sanity_check;
}

abbrev by : String → ℕ → SubmissionInput
by agent run_id = record {
  claim_id = none;
  confidence_bps = some 12000;
  dimensions = λ d. none;
  evidence_artifact_key = none;
  issues = [];
  payload = none;
  result_artifact_key = none;
  review_type = none;
  reviewer_actor = agent;
  reviewer_agent_id = some agent;
  run_id = some run_id;
  schema_version = none;
  source_id = none;
  task_id = 0;
  verdict = Verdict.pass;
}

-- What the tests run.
review : Unit {0}
unfolding create_review_task claim_review_task_by_id record_review_submission read_review_task
    fail_review_task_run heartbeat_review_task_run normalize_consensus_policy trim
review = tt

abbrev created : ReviewStore
created = (create_review_task 10 input empty_store).1

abbrev claimed : String → ReviewStore → ReviewStore
claimed agent s = (claim_review_task_by_id 20 (some agent) 0 "w" s).1

abbrev three_runs : ReviewStore
three_runs = claimed "c" (claimed "b" (claimed "a" created))

-- Of three runs, the submissions of the first two.
abbrev agreed : ReviewStore
agreed =
    (record_review_submission lower 40 (by "b" 1)
      (record_review_submission lower 30 (by "a" 0) three_runs).1).1

abbrev three_runs_Reach : Reach lower empty_store three_runs
three_runs_Reach =
    next
      (next (next (next here (creates 10 input)) (claims 20 (some "a") 0 "w"))
        (claims 20 (some "b") 0 "w"))
      (claims 20 (some "c") 0 "w")

abbrev agreed_Reach : Reach lower empty_store agreed
agreed_Reach =
    next (next three_runs_Reach (submits 30 (by "a" 0) 0 refl)) (submits 40 (by "b" 1) 1 refl)

counts : (submitted agreed 0 ≡ 2) × (running agreed 0 ≡ 1)
unfolding review
counts = (refl, refl)

full_or_twice :
    ((claim_review_task_by_id 20 (some "d") 0 "w" three_runs).0 ≡ none)
    × ((claim_review_task_by_id 20 (some "a") 0 "w" (claimed "a" created)).0 ≡ none)
unfolding review
full_or_twice = (refl, refl)

refused :
    ((record_review_submission lower 50 (by "a" 0) agreed).0 ≡ thrown review_task_run_not_running)
    × ((record_review_submission lower 50 (by "a" 2) agreed).0
        ≡ thrown review_task_run_agent_mismatch)
unfolding review
refused = (refl, refl)

row : ReviewTask
row = or_else (get 0 agreed.tasks) (new_task 10 input "c1")

agreed_row : get 0 agreed.tasks ≡ some row
unfolding review row
agreed_row = refl

Reach-IsAgreed_example :
    (task_is_open row ≡ ltb (submitted agreed 0) (policy_of row).min_submissions)
    × (submitted agreed 0 + running agreed 0 ≤ (policy_of row).max_submissions)
Reach-IsAgreed_example = Reach-IsAgreed lower agreed_Reach 0 row agreed_row

Step-Move_example :
    Move (view three_runs 0) (view (record_review_submission lower 30 (by "a" 0) three_runs).1 0)
Step-Move_example =
    Step-Move lower (submits 30 (by "a" 0) 0 refl) (Reach-IsKeyed lower three_runs_Reach) 0

wants_distinct : (policy_of row).require_distinct_agents ≡ true
unfolding review row
wants_distinct = refl

Reach-submitted_by-le_example : submitted_by agreed 0 "a" ≤ 1
Reach-submitted_by-le_example =
    Reach-submitted_by-le lower agreed_Reach 0 "a" row refl agreed_row wants_distinct

record-Outcome_example :
    Outcome (record_review_submission lower 30 (by "a" 0) three_runs) three_runs (by "a" 0) 30
record-Outcome_example = record-Outcome lower 30 (by "a" 0) three_runs

completed : task_is_open row ≡ false
unfolding review row
completed = refl

-- The third run is left; its worker beats in vain, and the reaper runs much later.
left_run : ReviewRun
left_run = or_else (get 2 agreed.runs) (new_run 20 0 (some "c") "w")

left_run_there : get 2 agreed.runs ≡ some left_run
unfolding review left_run
left_run_there = refl

left_run_closed : get left_run.task_id agreed.tasks ≡ some row
unfolding review row left_run
left_run_closed = refl

abbrev reaped : ReviewStore
reaped =
    (expire_stale_review_task_runs 99_000 (λ _. false) none 500
      (heartbeat_review_task_run 50 (some "c") 2 0 (some "w") agreed).1).1

later : Others lower 2 agreed reaped
later =
    Others.next (Others.next Others.here (beats 50 (some "c") 2 0 (some "w")) tt)
      (expires 99_000 (λ _. false) none 500) tt

left_run_stays_example : get 2 reaped.runs ≡ some left_run
left_run_stays_example =
    left_run_stays lower 2 left_run row agreed_Reach left_run_there left_run_closed completed later

-- What comes from outside may be out of bounds: eight submissions wanted, four allowed.
stored_policy_example :
    let json = Json.object (
      ("minSubmissions", Member.number 8)
      ∷ ("maxSubmissions", Member.number 4)
      ∷ ("requireDistinctAgents", Member.a_text "yes")
      ∷ []) in
    let p : ReviewConsensusPolicy = record {
      max_submissions = 3;
      min_submissions = 2;
      require_distinct_agents = true;
    } in
    let q = normalize_consensus_policy (read_policy json) in
    (1 ≤ q.min_submissions)
    × (q.min_submissions ≤ q.max_submissions)
    × (q.max_submissions ≤ 10)
    × (normalize_consensus_policy (read_policy (policy_json p)) ≡ p)
stored_policy_example =
    stored_policy
      (Json.object (
        ("minSubmissions", Member.number 8)
        ∷ ("maxSubmissions", Member.number 4)
        ∷ ("requireDistinctAgents", Member.a_text "yes")
        ∷ []))
      (record { max_submissions = 3; min_submissions = 2; require_distinct_agents = true })
      (omega arith) (omega arith) (omega arith)
