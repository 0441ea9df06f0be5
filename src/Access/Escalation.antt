-- ===== src/Access/Escalation.antt =====
-- A role gives what the roles below it give, and no more can be handed on.
use corebase.Base.{
  ◌≤◌, ◌≡◌, refl, Bool, true, arith, List, [], ◌∷◌, ◌++◌, any, ◌==◌, Bool-cases, inl, inr,
}
use corebase.Access.Roles.{
  Role, owner, admin, member, Capability, can, can_assign_role, can_act_on, rank, members, admins,
  added_to_admins, added_to_owners, place_of,
}

any_append {ℓ} :
    {A : Type ℓ} (p : A → Bool) (xs ys : List A) → any p xs ≡ true → any p (xs ++ ys) ≡ true
any_append p [] ys e = absurd (cc)
any_append p (x ∷ xs) ys e = elim (Bool-cases (p x)) [
  | inl hit ↦ rw hit refl
  | inr miss ↦ rw miss (any_append p xs ys (rw miss at e))
]

-- A capability of a role is one of every role that ranks as high.
can_grows :
    (low high : Role) (capability : Capability)
    → rank low ≤ rank high
    → can low capability ≡ true
    → can high capability ≡ true
unfolding can
can_grows member member c h e = e
can_grows member admin c h e = any_append (λ d. place_of d == place_of c) members added_to_admins e
can_grows member owner c h e =
    any_append (λ d. place_of d == place_of c) admins added_to_owners
      (any_append (λ d. place_of d == place_of c) members added_to_admins e)
can_grows admin member c h e = absurd (omega arith)
can_grows admin admin c h e = e
can_grows admin owner c h e = any_append (λ d. place_of d == place_of c) admins added_to_owners e
can_grows owner member c h e = absurd (omega arith)
can_grows owner admin c h e = absurd (omega arith)
can_grows owner owner c h e = e

-- Whoever can assign a role can act on anyone who has it, and has every capability of the role:
-- no one hands on a capability that is not theirs.
can_assign_role_below :
    (actor target : Role) (capability : Capability)
    → can_assign_role actor target ≡ true
    → can target capability ≡ true
    → (can_act_on actor target ≡ true) × (can actor capability ≡ true)
unfolding can can_assign_role can_act_on
can_assign_role_below member target c e f = absurd (cc)
can_assign_role_below admin owner c e f = absurd (cc)
can_assign_role_below admin admin c e f = (refl, f)
can_assign_role_below admin member c e f = (refl, can_grows member admin c (omega arith) f)
can_assign_role_below owner owner c e f = (refl, f)
can_assign_role_below owner admin c e f = (refl, can_grows admin owner c (omega arith) f)
can_assign_role_below owner member c e f = (refl, can_grows member owner c (omega arith) f)
