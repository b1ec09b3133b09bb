-- ===== src/Pipeline/Channels.antt =====
-- Which actions of a schedule move tensors: the transfers that a stage makes on each link.
use cverl.Base.{
  ℕ, ◌+◌, ◌≤◌, ◌≡◌, refl, ◌∙◌, Bool, true, false, not, List, [], ◌∷◌, range, if◌then◌else◌, All,
  All-append, All-map, All-flat_map, All-of,
}
use cverl.Pipeline.Defs.{
  PipelinePeers, PipelineSchedulePhase, warmup, steady, cooldown, forward, backward,
  PipelineScheduleAction, forward_action, backward_action, schedule_loops,
}
use cverl.Pipeline.Schedule.{cons_if, batches, batches-schedule_loops}

-- The micro-batches of the actions whose flag is set, in order.
unfoldable pub flagged : (PipelineScheduleAction → Bool) → List PipelineScheduleAction → List ℕ
flagged flag [] = []
flagged flag (action ∷ actions) =
    let rest = flagged flag actions in if flag action then action.micro_batch ∷ rest else rest

module _ (peers : PipelinePeers) where
  data Built : PipelineScheduleAction → Type 0 where
    built_forward : (phase : PipelineSchedulePhase) (mb : ℕ) → Built (forward_action peers phase mb)
    built_backward :
        (phase : PipelineSchedulePhase) (mb : ℕ) → Built (backward_action peers phase mb)

  schedule_loops-Built : (w m : ℕ) → All Built (schedule_loops peers w m)
  schedule_loops-Built w m =
      All-append Built _ _ (All-map Built _ _ (All-of _ _ λ mb. built_forward warmup mb)) (
        All-append Built _ _
          (All-flat_map Built _ _
            (All-of _ _ λ i. (built_forward steady (w + i), (built_backward steady i, tt))))
          (All-map Built _ _ (All-of _ _ λ mb. built_backward cooldown mb)))

  module _ (flag : PipelineScheduleAction → Bool) where
    -- The flag of each action that the schedule can hold.
    Marks : Bool → Bool → Type 0
    Marks f b =
        (phase : PipelineSchedulePhase) (mb : ℕ)
        → (flag (forward_action peers phase mb) ≡ f) × (flag (backward_action peers phase mb) ≡ b)

    step-forward :
        Marks true false
        → (action : PipelineScheduleAction) (rest : List ℕ) → Built action
        → (if flag action then action.micro_batch ∷ rest else rest)
          ≡ cons_if forward action.op action.micro_batch rest
    unfolding Marks
    step-forward marks _ rest (built_forward phase mb) = rw (marks phase mb).0
    step-forward marks _ rest (built_backward phase mb) = rw (marks phase mb).1

    step-backward :
        Marks false true
        → (action : PipelineScheduleAction) (rest : List ℕ) → Built action
        → (if flag action then action.micro_batch ∷ rest else rest)
          ≡ cons_if backward action.op action.micro_batch rest
    unfolding Marks
    step-backward marks _ rest (built_forward phase mb) = rw (marks phase mb).0
    step-backward marks _ rest (built_backward phase mb) = rw (marks phase mb).1

    step-none :
        Marks false false
        → (action : PipelineScheduleAction) (rest : List ℕ) → Built action
        → (if flag action then action.micro_batch ∷ rest else rest) ≡ rest
    unfolding Marks
    step-none marks _ rest (built_forward phase mb) = rw (marks phase mb).0
    step-none marks _ rest (built_backward phase mb) = rw (marks phase mb).1

    flagged-forward :
        Marks true false
        → (xs : List PipelineScheduleAction) → All Built xs
        → flagged flag xs ≡ batches forward xs
    unfolding flagged batches
    flagged-forward marks [] h = refl
    flagged-forward marks (x ∷ xs) h =
        rw (flagged-forward marks xs h.1) (step-forward marks x (batches forward xs) h.0)

    flagged-backward :
        Marks false true
        → (xs : List PipelineScheduleAction) → All Built xs
        → flagged flag xs ≡ batches backward xs
    unfolding flagged batches
    flagged-backward marks [] h = refl
    flagged-backward marks (x ∷ xs) h =
        rw (flagged-backward marks xs h.1) (step-backward marks x (batches backward xs) h.0)

    flagged-none :
        Marks false false → (xs : List PipelineScheduleAction) → All Built xs → flagged flag xs ≡ []
    unfolding flagged
    flagged-none marks [] h = refl
    flagged-none marks (x ∷ xs) h = rw (flagged-none marks xs h.1) (step-none marks x [] h.0)

-- The micro-batches that a stage with m of them passes over a link that is there, or not.
abbrev pub link : Bool → ℕ → List ℕ
link absent m = if absent then [] else range 0 m

-- The transfers of a stage on each of its four links: every micro-batch in order, or none.
pub record Transfers (peers : PipelinePeers) (m : ℕ) (xs : List PipelineScheduleAction)
    : Type 0 where
  pub recv_forwards : flagged (λ a. a.recv_forward) xs ≡ link peers.is_first_stage m
  pub send_forwards : flagged (λ a. a.send_forward) xs ≡ link peers.is_last_stage m
  pub recv_backwards : flagged (λ a. a.recv_backward) xs ≡ link peers.is_last_stage m
  pub send_backwards : flagged (λ a. a.send_backward) xs ≡ link peers.is_first_stage m

forward_link :
    (peers : PipelinePeers) (flag : PipelineScheduleAction → Bool) (absent : Bool) (w m : ℕ)
    → w ≤ m
    → Marks peers flag (not absent) false
    → flagged flag (schedule_loops peers w m) ≡ link absent m
forward_link peers flag true w m h marks =
    flagged-none peers flag marks _ (schedule_loops-Built peers w m)
forward_link peers flag false w m h marks =
    flagged-forward peers flag marks _ (schedule_loops-Built peers w m)
    ∙ (batches-schedule_loops peers w m h).0

backward_link :
    (peers : PipelinePeers) (flag : PipelineScheduleAction → Bool) (absent : Bool) (w m : ℕ)
    → w ≤ m
    → Marks peers flag false (not absent)
    → flagged flag (schedule_loops peers w m) ≡ link absent m
backward_link peers flag true w m h marks =
    flagged-none peers flag marks _ (schedule_loops-Built peers w m)
backward_link peers flag false w m h marks =
    flagged-backward peers flag marks _ (schedule_loops-Built peers w m)
    ∙ (batches-schedule_loops peers w m h).1

pub schedule_loops-Transfers :
    (peers : PipelinePeers) (w m : ℕ) → w ≤ m → Transfers peers m (schedule_loops peers w m)
unfolding Marks
schedule_loops-Transfers peers w m h = record {
  recv_forwards =
      forward_link peers (λ a. a.recv_forward) peers.is_first_stage w m h
        (λ phase mb. (refl, refl));
  send_forwards =
      forward_link peers (λ a. a.send_forward) peers.is_last_stage w m h (λ phase mb. (refl, refl));
  recv_backwards =
      backward_link peers (λ a. a.recv_backward) peers.is_last_stage w m h
        (λ phase mb. (refl, refl));
  send_backwards =
      backward_link peers (λ a. a.send_backward) peers.is_first_stage w m h
        (λ phase mb. (refl, refl));
}
