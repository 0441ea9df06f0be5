-- ===== src/Jobs/Queue.antt =====
-- packages/queue/src/index.ts: what is asked of BullMQ, and the deliveries made through it.
-- BullMQ and Redis are the interface `BullQueue`: a store of jobs that is asked by
-- id. The job types and payloads that travel with an id are left out.
pub mod Delivery
use Prim.Native.Char.{Char, code}
use Prim.Native.String
use corebase.Base.{
  ℕ, zero, suc, ◌+◌, ◌-◌, ◌/◌, ◌%◌, String, ◌≡◌, ◌≢◌, Bool, true, false, ◌&&◌, ◌||◌, List, [], ◌∷◌,
  leb, ◌==◌, length, if◌then◌else◌, min,
}

pub record BullQueue : Type 1 where
  pub Store : Type 0
  -- `await queue.getJob(id)`, as a truth value.
  pub get_job : String → Store → Bool
  pub add : String → Store → Store
  pub get_job-add : (id : String) (q : Store) → get_job id (add id q) ≡ true
  pub get_job-add_ne :
      (id other : String) (q : Store) → id ≢ other → get_job id (add other q) ≡ get_job id q

abbrev pub codes : String → List ℕ
codes String.[] = []
codes (String.◌∷◌ c s) = code c ∷ codes s

-- `[A-Za-z0-9_.=#@-]`
abbrev delivery_char : ℕ → Bool
delivery_char c =
    (leb b'A' c && leb c b'Z')
    || (leb b'a' c && leb c b'z')
    || (leb b'0' c && leb c b'9')
    || c == b'_'
    || c == b'.'
    || c == b'='
    || c == b'#'
    || c == b'@'
    || c == b'-'

abbrev all_codes : (ℕ → Bool) → List ℕ → Bool
all_codes p [] = true
all_codes p (c ∷ cs) = p c && all_codes p cs

-- DELIVERY_ID_PATTERN, `{8,255}` of these. The assertion throws where it does not match.
unfoldable pub is_delivery_id : String → Bool
is_delivery_id key =
    let n = length (codes key) in leb 8 n && leb n 255 && all_codes delivery_char (codes key)

digit : ℕ → Char
digit n = elim (n % 10) [
  | zero ↦ "0"
  | suc zero ↦ "1"
  | suc (suc zero) ↦ "2"
  | suc (suc (suc zero)) ↦ "3"
  | suc (suc (suc (suc zero))) ↦ "4"
  | suc (suc (suc (suc (suc zero)))) ↦ "5"
  | suc (suc (suc (suc (suc (suc zero))))) ↦ "6"
  | suc (suc (suc (suc (suc (suc (suc zero)))))) ↦ "7"
  | suc (suc (suc (suc (suc (suc (suc (suc zero))))))) ↦ "8"
  | _ ↦ "9"
]

-- A number in a template literal. A number has no more digits than its value, plus one.
decimal_from : ℕ → ℕ → String → String
decimal_from zero n rest = rest
decimal_from (suc fuel) n rest =
    let more = decimal_from fuel (n / 10) (String.◌∷◌ (digit n) rest) in
    if n / 10 == 0 then String.◌∷◌ (digit n) rest else more

unfoldable pub decimal : ℕ → String
unfolding decimal_from digit
decimal n = decimal_from (n + 1) n ""

unfoldable pub recovery_job_id : String → ℕ → String
recovery_job_id key attempt = String.◌++◌ key (String.◌++◌ "#recover-" (decimal attempt))

pub data Enqueued (Q : Type 0) : Type 0 where
  -- The assertion on the delivery id threw.
  invalid_id : Enqueued Q
  -- The store afterwards, `enqueued` and the job id.
  answered : Q → Bool → String → Enqueued Q

module _ (bull : BullQueue) where
  open bull use {Store, get_job, add}

  unfoldable pub enqueue_provisioning : String → Store → Enqueued Store
  enqueue_provisioning key q =
      if is_delivery_id key
      then if get_job key q then answered q false key else answered (add key q) true key
      else invalid_id

  unfoldable pub enqueue_recovery : String → ℕ → Store → Enqueued Store
  enqueue_recovery plain attempt q =
      let job_id = recovery_job_id plain attempt in
      if is_delivery_id plain
      then if get_job plain q
        then if get_job job_id q
          then answered q false job_id
          else answered (add job_id q) true job_id
        else answered (add plain q) true plain
      else invalid_id

-- AUTH_EMAIL_BACKOFF_MS and `authEmailBackoff`; index -1 is undefined, so 0 attempts wait 30 s.
abbrev auth_email_backoff_at : ℕ → ℕ
auth_email_backoff_at zero = 30000
auth_email_backoff_at (suc zero) = 300000
auth_email_backoff_at (suc (suc i)) = 1800000

unfoldable pub auth_email_backoff : ℕ → ℕ
auth_email_backoff attempts_made = elim (min attempts_made 3) [
  | zero ↦ 30000
  | suc i ↦ auth_email_backoff_at i
]
