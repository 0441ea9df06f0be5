-- ===== src/Jobs/Runner/Loop.antt =====
-- The loop over a saga: what it runs, what it notes as done, what it stores.
use corebase.Base.{
  ℕ, Option, ℕ, String, ◌≡◌, refl, sym, ◌∙◌, inl, inr, true, false, ◌||◌, none, some, List, [], ◌∷◌,
  ◌++◌, arith, str_eq, Bool-cases, Option-cases, All, All-first, if◌then◌else◌,
}
use mathlib.Core.List.{append_assoc, append-nil}
use corebase.Jobs.Repo.{JobRecord, JobTable, save_checkpoint, has_id, claim, can_claim, to_claimed}
use corebase.Base.Update.{update-All_both, update-All_rows}
use corebase.Jobs.Runner.{
  SagaStep, Progress, contains, set_from, completed, checkpointed, run_steps,
}

pub contains-append :
    (x : String) (xs ys : List String) → contains x (xs ++ ys) ≡ (contains x xs || contains x ys)
contains-append x [] ys = refl
contains-append x (y ∷ xs) ys = ground (arith, contains-append x xs ys)

-- The steps of a saga that are not done yet, in order; a name is run once.
abbrev pub remaining : {W : Type 0} → List String → List (SagaStep W) → List String
remaining done [] = []
remaining done (s ∷ steps) =
    let rest = remaining (done ++ s.name ∷ []) steps in
    let same = remaining done steps in if contains s.name done then same else s.name ∷ rest

-- Names without repetition, each new to those before.
abbrev pub IsFresh : List String → List String → Type 0
IsFresh seen [] = Unit
IsFresh seen (x ∷ xs) = (contains x seen ≡ false) × IsFresh (seen ++ x ∷ []) xs

pub set_from-IsFresh : (seen xs : List String) → IsFresh seen xs → set_from seen xs ≡ seen ++ xs
set_from-IsFresh seen [] h = sym (append-nil seen)
set_from-IsFresh seen (x ∷ xs) (new, h) =
    rw new (set_from-IsFresh (seen ++ x ∷ []) xs h ∙ append_assoc seen (x ∷ []) xs)

-- The row's checkpoint reads back as `done`.
abbrev pub Stores : String → List String → JobTable → Type 0
Stores id done t = All (λ r. str_eq r.id id ≡ true → completed r.checkpoint ≡ done) t

pub save_checkpoint-Stores :
    (id : String) (done : List String) (t : JobTable)
    → IsFresh [] done
    → Stores id done (save_checkpoint id done t)
unfolding save_checkpoint
save_checkpoint-Stores id done t fresh =
    update-All_both (has_id id) _ (λ r. str_eq r.id id ≡ true → completed r.checkpoint ≡ done) t
      (λ r e mine. set_from-IsFresh [] done fresh) (λ r e mine. absurd (cc))

pub IsFresh-concat :
    (seen xs : List String) (x : String)
    → IsFresh seen xs
    → contains x (seen ++ xs) ≡ false
    → IsFresh seen (xs ++ x ∷ [])
IsFresh-concat seen [] x h new = (rw append-nil at new, tt)
IsFresh-concat seen (y ∷ xs) x (p, h) new =
    (p, IsFresh-concat (seen ++ y ∷ []) xs x h (rw (append_assoc seen (y ∷ []) xs) new))

set_from_start_new : (seen xs : List String) → IsFresh [] seen → IsFresh [] (set_from seen xs)
set_from_start_new seen [] h = h
set_from_start_new seen (x ∷ xs) h = elim (Bool-cases (contains x seen)) [
  | inl old ↦ rw old (set_from_start_new seen xs h)
  | inr new ↦ rw new (set_from_start_new (seen ++ x ∷ []) xs (IsFresh-concat [] seen x h new))
]

pub completed-IsFresh : (c : Option (List String)) → IsFresh [] (completed c)
completed-IsFresh none = tt
completed-IsFresh (some names) = set_from_start_new [] names tt

-- A claim returns a row with that id and its checkpoint as it was.
pub claim-Stores :
    (id : String) (stale now : ℕ) (done : List String) (t : JobTable) {r : JobRecord}
    → Stores id done t
    → (claim id stale now t).1 ≡ some r
    → completed r.checkpoint ≡ done
unfolding claim
claim-Stores id stale now done t stored e =
    All-first (λ r. completed r.checkpoint ≡ done) _
      (update-All_rows (can_claim id stale now) (to_claimed now)
        (λ r. str_eq r.id id ≡ true → completed r.checkpoint ≡ done)
        (λ r. completed r.checkpoint ≡ done) t (λ r hit keeps. keeps (ground arith)) stored)
      e

module _ {W : Type 0} where
  -- One step of the loop on each of its branches.
  pub run_steps_skip :
      (job : JobRecord) (s : SagaStep W) (steps : List (SagaStep W)) (p : Progress W)
      → contains s.name p.done ≡ true
      → run_steps job (s ∷ steps) p ≡ run_steps job steps p
  unfolding run_steps
  run_steps_skip job s steps p e = rw (e, run_steps)

  pub run_steps_go :
      (job : JobRecord) (s : SagaStep W) (steps : List (SagaStep W)) (p : Progress W)
      → contains s.name p.done ≡ false
      → (s.run job p.world).1 ≡ none
      → run_steps job (s ∷ steps) p
        ≡ run_steps job steps (checkpointed job s.name (s.run job p.world).0 p)
  unfolding run_steps
  run_steps_go job s steps p e ok = rw (e, ok, run_steps)

  pub run_steps_throw :
      (job : JobRecord) (s : SagaStep W) (steps : List (SagaStep W)) (p : Progress W)
      {message : List ℕ}
      → contains s.name p.done ≡ false
      → (s.run job p.world).1 ≡ some message
      → run_steps job (s ∷ steps) p ≡ (record p { world = (s.run job p.world).0 }, some message)
  unfolding run_steps
  run_steps_throw job s steps p e bad = rw (e, bad, run_steps)

  -- Which of the three it is.
  pub data Turn (job : JobRecord) (s : SagaStep W) (p : Progress W) : Type 0 where
    skip : contains s.name p.done ≡ true → Turn job s p
    go : contains s.name p.done ≡ false → (s.run job p.world).1 ≡ none → Turn job s p
    throw :
        (message : List ℕ)
        → contains s.name p.done ≡ false
        → (s.run job p.world).1 ≡ some message
        → Turn job s p

  pub turn : (job : JobRecord) (s : SagaStep W) (p : Progress W) → Turn job s p
  turn job s p = elim (Bool-cases (contains s.name p.done)) [
    | inl e ↦ skip e
    | inr e ↦ elim (Option-cases ((s.run job p.world).1)) [
      | inl ok ↦ go e ok
      | inr (message, bad) ↦ throw message e bad
    ]
  ]
