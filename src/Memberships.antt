-- ===== src/Memberships.antt =====
-- apps/movos-api/src/memberships/memberships.service.ts. The query of the users by email is a
-- parameter: their table is another component's.
pub mod Effects
pub mod Owners
use Prim.Native.String.{String}
use forgeos_web.Base.{
  ℕ, zero, suc, ◌+◌, ◌-◌, ◌*◌, ◌≤◌, ◌<◌, ◌∙◌, ◌≡◌, ◌≢◌, refl, sym, ap, ◌⊎◌, inl, inr, ◌↔◌, Bool,
  true, false, ◌&&◌, ◌||◌, not, Option, none, some, List, [], ◌∷◌, ◌++◌, ◌==◌, ltb, leb, includes,
  length, is_none, is_some_of, if◌then◌else◌, arith, Bool-cases, Option-cases, ==_iff, ==_self, All,
}
use forgeos_web.Base.Int.{ℤ, pos, negsuc, ◌-ℤ◌, ◌≤ℤ◌, ltb_ℤ}
use forgeos_web.Base.Decimal.{Decimal}
use forgeos_web.Base.JsMap
use forgeos_web.Base.JsMap.{JsMap, nat_eq, string_eq, get-put, get-remove}
use forgeos_web.Base.Result.{
  forbidden, Result, ok, err, Error, not_found, conflict, bad_request, invalid_transition, Exec,
  ◌>>=◌, ◌>>◌, pure, throw, gets, modify, Result-cases, ok_inj, ok_ne_err, bind_result,
}
use forgeos_web.Domain.{Database, World, record_audit}
use forgeos_web.Domain.Audit.{AuditAction, membership_created, membership_updated}
use forgeos_web.Domain.Work.{Membership, MemberRole, MemberStatus, is_active}

pub record CreateMembership : Type 0 where
  pub email : String
  pub role : MemberRole

pub record UpdateMembership : Type 0 where
  pub role : Option MemberRole
  pub status : Option MemberStatus

abbrev pub is_owner : MemberRole → Bool
is_owner MemberRole.owner = true
is_owner _ = false

abbrev pub is_admin : MemberRole → Bool
is_admin MemberRole.admin = true
is_admin _ = false

-- The roles that only an owner gives or changes.
abbrev pub is_owner_or_admin : MemberRole → Bool
is_owner_or_admin role = is_owner role || is_admin role

abbrev pub is_admin_manageable : MemberRole → Bool
is_admin_manageable MemberRole.owner = false
is_admin_manageable MemberRole.admin = false
is_admin_manageable MemberRole.operator = true
is_admin_manageable MemberRole.support = true
is_admin_manageable MemberRole.analyst = true
is_admin_manageable MemberRole.viewer = true
is_admin_manageable MemberRole.technician = true

abbrev pub role_or : Option MemberRole → MemberRole → MemberRole
role_or none role = role
role_or (some next) role = next

abbrev pub status_or : Option MemberStatus → MemberStatus → MemberStatus
status_or none status = status
status_or (some next) status = next

abbrev pub next_is_owner_or_admin : Option MemberRole → Bool
next_is_owner_or_admin none = false
next_is_owner_or_admin (some role) = is_owner_or_admin role

abbrev pub is_active_owner : MemberRole → MemberStatus → Bool
is_active_owner role status = is_owner role && is_active status

abbrev pub changed : UpdateMembership → Membership → Membership
changed dto target = record target {
  role = role_or dto.role target.role;
  status = status_or dto.status target.status;
}

-- The owners that would be left.
abbrev pub is_other_active_owner : (organization_id id : ℕ) → Membership → Bool
is_other_active_owner organization_id id m =
    m.organization_id == organization_id && (is_active_owner m.role m.status && not (m.id == id))

abbrev pub is_membership_of : (user organization_id : ℕ) → Membership → Bool
is_membership_of user organization_id m = m.user_id == user && m.organization_id == organization_id

abbrev pub is_target : (organization_id id : ℕ) → Membership → Bool
is_target organization_id id m = m.id == id && m.organization_id == organization_id

module _ {db : Database} where
  unfoldable pub write_membership : AuditAction → Membership → Exec (World db) Membership
  write_membership action row w = (
    ok row,
    record w {
      memberships = db.memberships.put w.memberships row;
      audit = record { action = action; subject_id = row.id } ∷ w.audit;
    },
  )

  unfoldable pub create_for :
      (organization_id : ℕ) → MemberRole → Option ℕ → Exec (World db) Membership
  unfolding write_membership
  create_for organization_id role none w = (err not_found, w)
  create_for organization_id role (some user) w =
      let existing =
        db.memberships.find_first w.memberships (is_membership_of user organization_id) in
      let row : Membership = record {
        id = db.memberships.fresh w.memberships;
        user_id = user;
        organization_id = organization_id;
        role = role;
        status = MemberStatus.active;
      } in
      if not (is_none existing)
      then (err conflict, w)
      else write_membership membership_created row w

  unfoldable pub create_membership :
      (find_user : String → Option ℕ)
      → (organization_id : ℕ) → (actor_role : MemberRole) → CreateMembership
      → Exec (World db) Membership
  unfolding create_for
  create_membership find_user organization_id actor_role dto w =
      if is_admin actor_role && not (is_admin_manageable dto.role)
      then (err forbidden, w)
      else create_for organization_id dto.role (find_user dto.email) w

  -- The guard of the last owner.
  unfoldable pub leaves_no_owner :
      (organization_id : ℕ) → Membership → UpdateMembership → World db → Bool
  leaves_no_owner organization_id target dto w =
      let next = changed dto target in
      is_active_owner target.role target.status
      && (not (is_active_owner next.role next.status)
          && length (
              db.memberships.find_many w.memberships
                (is_other_active_owner organization_id target.id))
            == 0)

  unfoldable pub update_found :
      (organization_id : ℕ)
      → (actor_role : MemberRole) → UpdateMembership
      → Option Membership
      → Exec (World db) Membership
  unfolding leaves_no_owner write_membership
  update_found organization_id actor_role dto none w = (err not_found, w)
  update_found organization_id actor_role dto (some target) w =
      if is_admin actor_role && (is_owner_or_admin target.role || next_is_owner_or_admin dto.role)
      then (err forbidden, w)
      else if leaves_no_owner organization_id target dto w
      then (err conflict, w)
      else write_membership membership_updated (changed dto target) w

  unfoldable pub update_membership :
      (organization_id : ℕ)
      → (actor_role : MemberRole) → (membership_id : ℕ) → UpdateMembership
      → Exec (World db) Membership
  unfolding update_found
  update_membership organization_id actor_role membership_id dto w =
      if is_none dto.role && is_none dto.status
      then (err bad_request, w)
      else update_found organization_id actor_role dto
          (db.memberships.find_first w.memberships (is_target organization_id membership_id)) w
