-- ===== src/Review/Consensus.antt =====
-- What the review tables promise of one task, without rows: a policy, whether the task is open, and two counts.
use scientific_protocol.Common.{
  ℕ, suc, ◌+◌, ◌≤◌, ◌<◌, arith, Bool, true, false, ◌≡◌, Option, none, some, leb, if◌then◌else◌,
}
use scientific_protocol.Work.Policy.{ReviewConsensusPolicy}

pub record Counter : Type 0 where
  pub policy : ReviewConsensusPolicy
  pub is_open : Bool
  pub submitted : ℕ
  pub running : ℕ

abbrev pub after_submission : Counter → ℕ → Counter
after_submission c running = record c {
  is_open = if leb c.policy.min_submissions (suc c.submitted) then false else c.is_open;
  submitted = suc c.submitted;
  running = running;
}

-- The moves of a task: it is created, a run of it is leased, runs end without a submission, or one ends with a
-- submission.
pub data Move : Option Counter → Option Counter → Type 0 where
  stay : {c : Option Counter} → Move c c
  create :
      {c : Counter}
      → c.is_open ≡ true
      → c.submitted ≡ 0
      → c.running ≡ 0
      → 1 ≤ c.policy.min_submissions
      → Move none (some c)
  lease :
      {c d : Counter}
      → c.is_open ≡ true
      → c.submitted + c.running < c.policy.max_submissions
      → d ≡ record c { running = suc c.running }
      → Move (some c) (some d)
  release :
      {c d : Counter} (left : ℕ)
      → left ≤ c.running
      → d ≡ record c { running = left }
      → Move (some c) (some d)
  submit :
      {c d : Counter} (left : ℕ)
      → left < c.running
      → d ≡ after_submission c left
      → Move (some c) (some d)

-- A task is open while its submissions are below the minimum, and closed from then on; with the runs that are under
-- way they never exceed the maximum.
pub record IsAgreed (c : Counter) : Type 0 where
  pub open_below : c.is_open ≡ true → c.submitted < c.policy.min_submissions
  pub closed_from : c.is_open ≡ false → c.policy.min_submissions ≤ c.submitted
  pub within : c.submitted + c.running ≤ c.policy.max_submissions

abbrev pub IsAgreedIf : Option Counter → Type 0
IsAgreedIf none = Unit
IsAgreedIf (some c) = IsAgreed c

created-IsAgreed :
    (c : Counter)
    → c.is_open ≡ true
    → c.submitted ≡ 0
    → c.running ≡ 0
    → 1 ≤ c.policy.min_submissions
    → IsAgreed c
created-IsAgreed c o a b p = ground arith

leased-IsAgreed :
    (c : Counter)
    → c.submitted + c.running < c.policy.max_submissions
    → IsAgreed c
    → IsAgreed (record c { running = suc c.running })
leased-IsAgreed c h v = record {
  open_below = v.open_below;
  closed_from = v.closed_from;
  within = omega (arith, h);
}

released-IsAgreed :
    (c : Counter) (left : ℕ)
    → left ≤ c.running
    → IsAgreed c
    → IsAgreed (record c { running = left })
released-IsAgreed c left h v = record {
  open_below = v.open_below;
  closed_from = v.closed_from;
  within = omega (arith, h, v.within);
}

submitted-IsAgreed :
    (c : Counter) (left : ℕ) → left < c.running → IsAgreed c → IsAgreed (after_submission c left)
submitted-IsAgreed c left h v = record {
  open_below = λ e. ground (arith, e);
  closed_from = λ e. ground (arith, e, v.closed_from);
  within = omega (arith, h, v.within);
}

pub Move-IsAgreed : {c d : Option Counter} → Move c d → IsAgreedIf c → IsAgreedIf d
Move-IsAgreed stay v = v
Move-IsAgreed (create {c} o a b p) v = created-IsAgreed c o a b p
Move-IsAgreed (lease {c} o h e) v = rw e (leased-IsAgreed c h v)
Move-IsAgreed (release {c} left h e) v = rw e (released-IsAgreed c left h v)
Move-IsAgreed (submit {c} left h e) v = rw e (submitted-IsAgreed c left h v)
