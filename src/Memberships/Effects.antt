-- ===== src/Memberships/Effects.antt =====
-- What a creation and a change of memberships.service.ts leave in the table.
use Prim.Native.String.{String}
use forgeos_web.Base.{
  ℕ, ◌≡◌, refl, ◌⊎◌, inl, inr, false, ◌&&◌, ◌||◌, not, Option, none, some, ◌==◌, is_none,
  if◌then◌else◌, arith, Bool-cases,
}
use forgeos_web.Base.JsMap.{nat_eq, string_eq}
use forgeos_web.Domain.{Database, World}
use forgeos_web.Domain.Audit.{AuditAction, membership_created, membership_updated}
use forgeos_web.Domain.Work.{Membership, MemberRole}
use forgeos_web.Memberships.{
  CreateMembership, UpdateMembership, is_admin, is_owner_or_admin, is_admin_manageable, changed,
  is_target, is_membership_of, write_membership, create_for, create_membership, leaves_no_owner,
  update_found, update_membership, next_is_owner_or_admin,
}

abbrev pub member_at : {db : Database} → World db → ℕ → Option Membership
member_at {db} w i = db.memberships.find_unique w.memberships i

-- What an operation does to the rows: nothing, a new row, or one row changed.
abbrev pub Kept : {db : Database} → World db → World db → Type 0
Kept w w' = (i : ℕ) → member_at w' i ≡ member_at w i

abbrev pub Changed :
    {db : Database}
    → (organization_id : ℕ) → (actor_role : MemberRole) → UpdateMembership
    → World db
    → World db
    → Type 0
Changed organization_id actor_role dto w w' =
    (target : Membership) × (member_at w target.id ≡ some target)
    × (target.organization_id ≡ organization_id)
    × ((is_admin actor_role && (is_owner_or_admin target.role || next_is_owner_or_admin dto.role))
        ≡ false)
    × (leaves_no_owner organization_id target dto w ≡ false)
    × ((i : ℕ)
        → member_at w' i ≡ (if target.id == i then some (changed dto target) else member_at w i))

abbrev pub Added :
    {db : Database} → (actor_role : MemberRole) → CreateMembership → World db → World db → Type 0
Added actor_role dto w w' =
    (row : Membership) × (member_at w row.id ≡ none)
    × (row.role ≡ dto.role)
    × ((is_admin actor_role && not (is_admin_manageable dto.role)) ≡ false)
    × ((i : ℕ) → member_at w' i ≡ (if row.id == i then some row else member_at w i))

module _ {db : Database} where
  written :
      (action : AuditAction) (row : Membership) (w : World db) (i : ℕ)
      → member_at (write_membership action row w).1 i
        ≡ (if row.id == i then some row else member_at w i)
  unfolding write_membership
  written action row w i = db.memberships.find_unique-put w.memberships row i

  update_found_effect :
      (organization_id : ℕ) (actor_role : MemberRole) (dto : UpdateMembership) (id : ℕ)
      (found : Option Membership) (w : World db)
      → db.memberships.find_first w.memberships (is_target organization_id id) ≡ found
      → Kept w (update_found organization_id actor_role dto found w).1
        ⊎ Changed organization_id actor_role dto w
            (update_found organization_id actor_role dto found w).1
  unfolding update_found
  update_found_effect organization_id actor_role dto id none w e = inl (λ i. refl)
  update_found_effect organization_id actor_role dto id (some target) w e =
      let sound =
        db.memberships.find_first_sound w.memberships (is_target organization_id id) target e in
      elim (Bool-cases (
        is_admin actor_role
        && (is_owner_or_admin target.role || next_is_owner_or_admin dto.role))) [
          | inl barred ↦ rw barred (inl (λ i. refl))
          | inr may ↦ rw may (elim (Bool-cases (leaves_no_owner organization_id target dto w)) [
            | inl last ↦ rw last (inl (λ i. refl))
            | inr safe ↦ rw safe (
                inr (
                  target,
                  sound.0,
                  ground (arith, sound.1),
                  may,
                  safe,
                  written membership_updated (changed dto target) w,
                ))
          ])
        ]

  pub update_effect :
      (organization_id : ℕ) (actor_role : MemberRole) (id : ℕ) (dto : UpdateMembership)
      (w : World db)
      → Kept w (update_membership organization_id actor_role id dto w).1
        ⊎ Changed organization_id actor_role dto w
            (update_membership organization_id actor_role id dto w).1
  unfolding update_membership
  update_effect organization_id actor_role id dto w =
      elim (Bool-cases (is_none dto.role && is_none dto.status)) [
        | inl nothing ↦ rw nothing (inl (λ i. refl))
        | inr e ↦ rw e (update_found_effect organization_id actor_role dto id _ w refl)
      ]

  create_for_effect :
      (organization_id : ℕ) (actor_role : MemberRole) (dto : CreateMembership) (user : Option ℕ)
      (w : World db)
      → (is_admin actor_role && not (is_admin_manageable dto.role)) ≡ false
      → Kept w (create_for organization_id dto.role user w).1
        ⊎ Added actor_role dto w (create_for organization_id dto.role user w).1
  unfolding create_for
  create_for_effect organization_id actor_role dto none w may = inl (λ i. refl)
  create_for_effect organization_id actor_role dto (some user) w may =
      elim (Bool-cases (
        not (
          is_none
            (db.memberships.find_first w.memberships (is_membership_of user organization_id))))) [
              | inl taken ↦ rw taken (inl (λ i. refl))
              | inr free ↦ rw free (
                  inr (
                    _,
                    db.memberships.fresh_free w.memberships,
                    refl,
                    may,
                    written membership_created _ w,
                  ))
            ]

  pub create_effect :
      (find_user : String → Option ℕ) (organization_id : ℕ) (actor_role : MemberRole)
      (dto : CreateMembership) (w : World db)
      → Kept w (create_membership find_user organization_id actor_role dto w).1
        ⊎ Added actor_role dto w (create_membership find_user organization_id actor_role dto w).1
  unfolding create_membership
  create_effect find_user organization_id actor_role dto w =
      elim (Bool-cases (is_admin actor_role && not (is_admin_manageable dto.role))) [
        | inl barred ↦ rw barred (inl (λ i. refl))
        | inr may ↦
            rw may
              (elim (create_for_effect organization_id actor_role dto (find_user dto.email) w may) [
                | inl kept ↦ inl kept
                | inr (row, free, same_role, barred, rows) ↦ inr (row, free, same_role, refl, rows)
              ])
      ]
