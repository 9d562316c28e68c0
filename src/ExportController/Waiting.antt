-- ===== src/ExportController/Waiting.antt =====
-- `waitForJobCompletionAndDelete` (clusterimageexport_controller.go): when the waiting goroutine returns.
use kubernetes_images_sync_o.Base.{
  if◌then◌else◌, ltb, ℕ, ◌<◌, ◌≡◌, ◌↔◌, ◌⊎◌, refl, sym, ap, ◌∙◌, inl, inr, List, [], ◌∷◌, ◌++◌, All,
  arith,
}
use kubernetes_images_sync_o.Text.{Text}
use kubernetes_images_sync_o.Errors
use kubernetes_images_sync_o.Errors.{Result, ok, err}
use kubernetes_images_sync_o.Cluster.{JobObject}
use kubernetes_images_sync_o.ExportController.Cleanup.{
  Round, Waiting, waiting, context_done, unreadable, read, returned,
  wait_for_job_completion_and_delete,
}

-- The job is read and has neither succeeded nor failed.
abbrev pub IsUnfinished : Round → Type 0
IsUnfinished (read job deleted) = (job.succeeded ≡ 0) × (job.failed ≡ 0)
IsUnfinished _ = ⊥

-- The rounds are unfinished up to one in which the job has succeeded and is deleted.
abbrev Succeeds : List Round → Type 0
Succeeds rounds =
    (before after : List Round) × (job : JobObject) × All IsUnfinished before
    × (rounds ≡ before ++ read job (ok tt) ∷ after)
    × (0 < job.succeeded)

-- The first round that is not unfinished, with those around it.
abbrev pub EndsAt : List Round → Round → Type 0
EndsAt rounds last =
    (before after : List Round) × All IsUnfinished before
    × (¬ IsUnfinished last)
    × (rounds ≡ before ++ last ∷ after)

module _ (name : Text) where
  -- One unfinished round more does not change the result.
  wait_unfinished :
      (before rounds : List Round)
      → All IsUnfinished before
      → wait_for_job_completion_and_delete name (before ++ rounds)
        ≡ wait_for_job_completion_and_delete name rounds
  unfolding wait_for_job_completion_and_delete
  wait_unfinished [] rounds h = refl
  wait_unfinished (read job deleted ∷ before) rounds ((s, f), h) =
      rw (s, f) (wait_unfinished before rounds h)
  wait_unfinished (context_done ∷ before) rounds (h, k) = absurd h
  wait_unfinished (unreadable e ∷ before) rounds (h, k) = absurd h

  -- What a round in which the job is read makes of the result.
  read_cases :
      (job : JobObject) (deleted : Result (Unit {0})) (rounds : List Round) (n : ℕ)
      → wait_for_job_completion_and_delete name (read job deleted ∷ rounds) ≡ returned (ok tt) n
      → ((0 < job.succeeded) × (deleted ≡ ok tt) × (n ≡ 1))
        ⊎ ((job.succeeded ≡ 0)
            × (job.failed ≡ 0)
            × (wait_for_job_completion_and_delete name rounds ≡ returned (ok tt) n))
  unfolding wait_for_job_completion_and_delete
  read_cases job (ok t) rounds n h = ground arith
  read_cases job (err e) rounds n h = ground arith

  success_Succeeds :
      (rounds : List Round) (n : ℕ)
      → wait_for_job_completion_and_delete name rounds ≡ returned (ok tt) n
      → Succeeds rounds × (n ≡ 1)
  unfolding wait_for_job_completion_and_delete
  success_Succeeds [] n h = absurd (cc)
  success_Succeeds (context_done ∷ rounds) n h = absurd (cc)
  success_Succeeds (unreadable e ∷ rounds) n h = absurd (cc)
  success_Succeeds (read job deleted ∷ rounds) n h = elim (read_cases job deleted rounds n h) [
    | inl (s, d, one) ↦ (([], rounds, job, tt, rw d refl, s), one)
    | inr (s, f, rest) ↦
        let ((before, after, last, u, e, ended), one) = success_Succeeds rounds n rest in
        (
          (
            read job deleted ∷ before,
            after,
            last,
            ((s, f), u),
            ap (λ r. read job deleted ∷ r) e,
            ended,
          ),
          one,
        )
  ]

  success_at :
      (job : JobObject) (after : List Round)
      → 0 < job.succeeded
      → wait_for_job_completion_and_delete name (read job (ok tt) ∷ after) ≡ returned (ok tt) 1
  unfolding wait_for_job_completion_and_delete
  success_at job after s = ground arith

  -- The goroutine returns without an error just where the job is seen to succeed, before it is seen to
  -- fail or cannot be read, and its deletion is accepted; it has then asked for one deletion.
  wait_success_iff :
      (rounds : List Round) (n : ℕ)
      → (wait_for_job_completion_and_delete name rounds ≡ returned (ok tt) n)
        ↔ (Succeeds rounds × (n ≡ 1))
  wait_success_iff rounds n = (
    success_Succeeds rounds n,
    (λ ((before, after, job, u, e, s), one).
        ap (wait_for_job_completion_and_delete name) e
        ∙ wait_unfinished before (read job (ok tt) ∷ after) u
        ∙ success_at job after s
        ∙ ap (returned (ok tt)) (sym one)),
  )

  -- What a round that is not unfinished makes the goroutine return: nothing is deleted if the context is
  -- done or the job cannot be read; else one deletion is asked for, whose error goes before the job's.
  abbrev pub outcome : Round → Waiting
  outcome context_done = returned (err Errors.cancelled) 0
  outcome (unreadable e) = returned (err e) 0
  outcome (read job (err e)) = returned (err e) 1
  outcome (read job (ok t)) =
      returned (if ltb 0 job.succeeded then ok tt else err (Errors.cleanup_failed name)) 1

  round_cases :
      (round : Round) (rounds : List Round)
      → IsUnfinished round
        ⊎ ((¬ IsUnfinished round)
            × (wait_for_job_completion_and_delete name (round ∷ rounds) ≡ outcome round))
  unfolding wait_for_job_completion_and_delete
  round_cases context_done rounds = inr ((λ h. h), refl)
  round_cases (unreadable e) rounds = inr ((λ h. h), refl)
  round_cases (read job (ok t)) rounds = ground arith
  round_cases (read job (err e)) rounds = ground arith

  -- The goroutine waits as long as the rounds are unfinished, and returns at the first one that is not,
  -- with what that round says; the later rounds have no effect.
  pub wait_ends :
      (rounds : List Round)
      → (All IsUnfinished rounds × (wait_for_job_completion_and_delete name rounds ≡ waiting))
        ⊎ ((last : Round) × EndsAt rounds last
            × (wait_for_job_completion_and_delete name rounds ≡ outcome last))
  wait_ends [] = inl (tt, unfold wait_for_job_completion_and_delete in refl)
  wait_ends (round ∷ rounds) = elim (round_cases round rounds) [
    | inr (decides, e) ↦ inr (round, ([], rounds, tt, decides, refl), e)
    | inl u ↦
        let same = wait_unfinished (round ∷ []) rounds (u, tt) in
        elim (wait_ends rounds) [
          | inl (all, e) ↦ inl ((u, all), same ∙ e)
          | inr (last, (before, after, us, decides, split), e) ↦
              inr (
                last,
                (round ∷ before, after, (u, us), decides, ap (λ r. round ∷ r) split),
                same ∙ e,
              )
        ]
  ]
