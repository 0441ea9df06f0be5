-- ===== src/Jobs/Queue/Delivery.antt =====
-- How many deliveries one job can have.
use Prim.Native.String
use text.Mathlib.TextLemmas.{append_cancel_left, append-nil, append-eq-nil_iff}
use corebase.Base.{ℕ, String, ◌≡◌, ◌≢◌, sym, ◌∙◌, Bool, true, false, arith}
use corebase.Jobs.Queue.{
  BullQueue, answered, is_delivery_id, recovery_job_id, enqueue_recovery, enqueue_provisioning,
  decimal,
}

module _ (bull : BullQueue) where
  open bull use {Store, get_job, add, get_job-add, get_job-add_ne}

  -- Enqueueing a job again changes nothing: the first call leaves the job in the queue, and a
  -- second call with the key answers `enqueued: false` and leaves the queue as it is.
  enqueue_provisioning_twice :
      (key : String) (q r : Store) {b : Bool} {id : String}
      → enqueue_provisioning bull key q ≡ answered r b id
      → (get_job key r ≡ true) × (enqueue_provisioning bull key r ≡ answered r false key)
  unfolding enqueue_provisioning
  enqueue_provisioning_twice key q r e =
      (ground (arith, get_job-add key q), ground (arith, get_job-add key q))

  recovery-ne-plain : (key : String) (attempt : ℕ) → recovery_job_id key attempt ≢ key
  unfolding recovery_job_id
  recovery-ne-plain key attempt e =
      let suffix : String = String.◌++◌ "#recover-" (decimal attempt) in
      let empty = append_cancel_left key suffix "" (e ∙ sym (append-nil key)) in
      let (marker, _) = append-eq-nil_iff.0 empty in cc

  -- A job that was never delivered is delivered twice by two sweeps before a worker takes it, once
  -- under its key and once under its recovery id, and only the third adds nothing.
  pub enqueue_recovery_thrice :
      (key : String) (attempt : ℕ) (q : Store)
      → is_delivery_id key ≡ true
      → get_job key q ≡ false
      → get_job (recovery_job_id key attempt) q ≡ false
      → let q1 = add key q in
        let q2 = add (recovery_job_id key attempt) q1 in
        (enqueue_recovery bull key attempt q ≡ answered q1 true key)
        × (enqueue_recovery bull key attempt q1 ≡ answered q2 true (recovery_job_id key attempt))
        × (enqueue_recovery bull key attempt q2 ≡ answered q2 false (recovery_job_id key attempt))
  unfolding enqueue_recovery
  enqueue_recovery_thrice key attempt q valid fresh fresh' =
      let q1 : Store = add key q in
      let first = get_job-add key q in
      let apart = recovery-ne-plain key attempt in
      let second = get_job-add_ne (recovery_job_id key attempt) key q apart in
      let third = get_job-add (recovery_job_id key attempt) q1 in
      let still = get_job-add_ne key (recovery_job_id key attempt) q1 (λ e. apart (sym e)) in
      (ground arith, ground arith, ground arith)
