-- ===== src/Memberships/Owners.antt =====
-- Who owns an organization and whom an administrator can touch, in memberships.service.ts.
use Prim.Native.String.{String}
use forgeos_web.Base.{
  ℕ, ◌∙◌, ◌≡◌, refl, sym, ap, inl, inr, Bool, true, false, ◌&&◌, ◌||◌, not, Option, none, some,
  List, [], ◌∷◌, ◌==◌, length, if◌then◌else◌, arith, Bool-cases, All,
}
use forgeos_web.Base.JsMap.{nat_eq, string_eq}
use forgeos_web.Domain.{Database, World}
use forgeos_web.Domain.Work.{Membership, MemberRole}
use forgeos_web.Memberships.{
  CreateMembership, UpdateMembership, is_admin, is_owner_or_admin, is_admin_manageable, changed,
  is_active_owner, is_other_active_owner, create_membership, leaves_no_owner, update_membership,
  next_is_owner_or_admin, role_or,
}
use forgeos_web.Memberships.Effects.{member_at, Kept, Changed, Added, update_effect, create_effect}

pub data MemberOp : Type 0 where
  creates : (organization_id : ℕ) → (actor_role : MemberRole) → CreateMembership → MemberOp
  updates :
      (organization_id : ℕ)
      → (actor_role : MemberRole) → (membership_id : ℕ) → UpdateMembership
      → MemberOp

module _ {db : Database} (find_user : String → Option ℕ) where
  abbrev pub run_member_op : MemberOp → World db → World db
  run_member_op (creates organization_id actor_role dto) w =
      (create_membership find_user organization_id actor_role dto w).1
  run_member_op (updates organization_id actor_role membership_id dto) w =
      (update_membership organization_id actor_role membership_id dto w).1

  abbrev pub run_member_ops : List MemberOp → World db → World db
  run_member_ops [] w = w
  run_member_ops (op ∷ ops) w = run_member_ops ops (run_member_op op w)

-- An active owner of the organization.
abbrev pub HasOwner : {db : Database} → ℕ → World db → Type 0
HasOwner {db} organization_id w =
    (i : ℕ) × (m : Membership) × (member_at w i ≡ some m)
    × (m.organization_id ≡ organization_id)
    × (is_active_owner m.role m.status ≡ true)

some_inj : {a b : Membership} → some a ≡ some b → a ≡ b
some_inj {a} {b} e = cc

guard_false : (a b c : Bool) → (a && (not b && c)) ≡ false → a ≡ true → b ≡ false → c ≡ false
guard_false a b c e f g = ground arith

abbrev pub actor_of : MemberOp → MemberRole
actor_of (creates organization_id actor_role dto) = actor_role
actor_of (updates organization_id actor_role id dto) = actor_role

-- The membership, where it is an owner's or an administrator's.
abbrev pub privileged : Option Membership → Option Membership
privileged none = none
privileged (some m) = if is_owner_or_admin m.role then some m else none

privileged-none : (m : Membership) → is_owner_or_admin m.role ≡ false → privileged (some m) ≡ none
privileged-none m low = rw low refl

second_false : (a b : Bool) → (a && b) ≡ false → a ≡ true → b ≡ false
second_false a b e f = ground arith

manageable :
    (role : MemberRole) → not (is_admin_manageable role) ≡ false → is_owner_or_admin role ≡ false
manageable MemberRole.owner e = ground arith
manageable MemberRole.admin e = ground arith
manageable MemberRole.operator e = refl
manageable MemberRole.support e = refl
manageable MemberRole.analyst e = refl
manageable MemberRole.viewer e = refl
manageable MemberRole.technician e = refl

next_low :
    (next : Option MemberRole) (role : MemberRole)
    → (is_owner_or_admin role || next_is_owner_or_admin next) ≡ false
    → (is_owner_or_admin role ≡ false) × (is_owner_or_admin (role_or next role) ≡ false)
next_low none role e = (ground arith, ground arith)
next_low (some next) role e = (ground arith, ground arith)

module _ {db : Database} where
  Kept-HasOwner :
      (organization_id : ℕ) (w w' : World db)
      → Kept w w'
      → HasOwner organization_id w
      → HasOwner organization_id w'
  Kept-HasOwner organization_id w w' kept (i, m, at_i, in_org, owns) =
      (i, m, kept i ∙ at_i, in_org, owns)

  Added-HasOwner :
      (organization_id : ℕ) (actor_role : MemberRole) (dto : CreateMembership) (w w' : World db)
      → Added actor_role dto w w'
      → HasOwner organization_id w
      → HasOwner organization_id w'
  Added-HasOwner organization_id actor_role dto w w' (row, free, _, _, rows)
        (i, m, at_i, in_org, owns) =
      elim (Bool-cases (row.id == i)) [
        | inl e ↦
            let same : row.id ≡ i = ground arith in
            let clash : Path (Option Membership) none (some m) =
              sym free ∙ ap (member_at w) same ∙ at_i in
            absurd cc
        | inr e ↦ (i, m, rows i ∙ rw e at_i, in_org, owns)
      ]

  other_owner :
      (organization_id id : ℕ) (w : World db) (ms : List Membership)
      → All
          (λ m. (member_at w m.id ≡ some m) × (is_other_active_owner organization_id id m ≡ true))
          ms
      → (length ms == 0) ≡ false
      → (m : Membership) × (member_at w m.id ≡ some m)
        × (is_other_active_owner organization_id id m ≡ true)
  other_owner organization_id id w [] h e = ground arith
  other_owner organization_id id w (m ∷ ms) h e = (m, h.0.0, h.0.1)

  other_remains :
      (organization_id : ℕ) (target : Membership) (dto : UpdateMembership) (w : World db)
      → leaves_no_owner organization_id target dto w ≡ false
      → is_active_owner target.role target.status ≡ true
      → is_active_owner (changed dto target).role (changed dto target).status ≡ false
      → (m : Membership) × (member_at w m.id ≡ some m)
        × (is_other_active_owner organization_id target.id m ≡ true)
  unfolding leaves_no_owner
  other_remains organization_id target dto w safe was leaves =
      other_owner organization_id target.id w _
        (db.memberships.find_many_sound w.memberships
          (is_other_active_owner organization_id target.id))
        (guard_false _ _ _ safe was leaves)

  Changed-HasOwner :
      (organization_id changed_in : ℕ) (actor_role : MemberRole) (dto : UpdateMembership)
      (w w' : World db)
      → Changed changed_in actor_role dto w w'
      → HasOwner organization_id w
      → HasOwner organization_id w'
  Changed-HasOwner organization_id changed_in actor_role dto w w'
        (target, at_target, of_org, _, safe, rows) (i, m, at_i, in_org, owns) =
      elim (Bool-cases (target.id == i)) [
        | inr e ↦ (i, m, rows i ∙ rw e at_i, in_org, owns)
        | inl e ↦
            let same_id : target.id ≡ i = ground arith in
            let same : target ≡ m = some_inj (sym at_target ∙ ap (member_at w) same_id ∙ at_i) in
            let was : is_active_owner target.role target.status ≡ true = rw same owns in
            elim (Bool-cases
              (is_active_owner (changed dto target).role (changed dto target).status)) [
                | inl stays ↦ (i, changed dto target, rows i ∙ rw e refl, rw same in_org, stays)
                | inr leaves ↦
                    let (y, at_y, passes) = other_remains changed_in target dto w safe was leaves in
                    let apart : (target.id == y.id) ≡ false = ground (arith, passes) in
                    let rules : is_active_owner y.role y.status ≡ true = ground (arith, passes) in
                    let place : y.organization_id ≡ changed_in = ground (arith, passes) in
                    (y.id, y, rows y.id ∙ rw apart at_y, place ∙ sym of_org ∙ rw same in_org, rules)
              ]
      ]

  run_member_op-HasOwner :
      (find_user : String → Option ℕ) (op : MemberOp) (organization_id : ℕ) (w : World db)
      → HasOwner organization_id w
      → HasOwner organization_id (run_member_op find_user op w)
  run_member_op-HasOwner find_user (creates created_in actor_role dto) organization_id w h =
      let w' = run_member_op find_user (creates created_in actor_role dto) w in
      elim (create_effect find_user created_in actor_role dto w) [
        | inl kept ↦ Kept-HasOwner organization_id w w' kept h
        | inr added ↦ Added-HasOwner organization_id actor_role dto w w' added h
      ]
  run_member_op-HasOwner find_user (updates changed_in actor_role id dto) organization_id w h =
      let w' = run_member_op {db = db} find_user (updates changed_in actor_role id dto) w in
      elim (update_effect changed_in actor_role id dto w) [
        | inl kept ↦ Kept-HasOwner organization_id w w' kept h
        | inr changes ↦ Changed-HasOwner organization_id changed_in actor_role dto w w' changes h
      ]

  -- Whatever memberships are created and changed, in whichever organizations and by whichever
  -- actors, an organization that has an active owner still has one after all of it: the owner may
  -- be another membership than before.
  pub run_member_ops-HasOwner :
      (find_user : String → Option ℕ) (ops : List MemberOp) (organization_id : ℕ) (w : World db)
      → HasOwner organization_id w
      → HasOwner organization_id (run_member_ops find_user ops w)
  run_member_ops-HasOwner find_user [] organization_id w h = h
  run_member_ops-HasOwner find_user (op ∷ ops) organization_id w h =
      run_member_ops-HasOwner find_user ops organization_id (run_member_op find_user op w)
        (run_member_op-HasOwner find_user op organization_id w h)

  -- An administrator never makes, changes or unmakes an owner or an administrator: after any
  -- creation or change by an administrator, the memberships with one of these two roles are the
  -- ones there were before, row by row.
  pub admin_leaves_owners :
      (find_user : String → Option ℕ) (op : MemberOp) (w : World db) (i : ℕ)
      → actor_of op ≡ MemberRole.admin
      → privileged (member_at (run_member_op find_user op w) i) ≡ privileged (member_at w i)
  admin_leaves_owners find_user (creates created_in actor_role dto) w i admin =
      elim (create_effect find_user created_in actor_role dto w) [
        | inl kept ↦ ap privileged (kept i)
        | inr (row, free, same_role, guard, rows) ↦ elim (Bool-cases (row.id == i)) [
          | inr e ↦ ap privileged (rows i ∙ rw e refl)
          | inl e ↦
              let same : row.id ≡ i = ground arith in
              let after_it : member_at
                    (run_member_op {db = db} find_user (creates created_in actor_role dto) w) i
                  ≡ some row =
                rows i ∙ rw e refl in
              ap privileged after_it
              ∙ privileged-none row (
                  ap is_owner_or_admin same_role
                  ∙ manageable dto.role (second_false _ _ guard (ap is_admin admin)))
              ∙ ap privileged (sym free ∙ ap (member_at w) same)
        ]
      ]
  admin_leaves_owners find_user (updates changed_in actor_role id dto) w i admin =
      elim (update_effect changed_in actor_role id dto w) [
        | inl kept ↦ ap privileged (kept i)
        | inr (target, at_target, of_org, guard, safe, rows) ↦ elim (Bool-cases (target.id == i)) [
          | inr e ↦ ap privileged (rows i ∙ rw e refl)
          | inl e ↦
              let same : target.id ≡ i = ground arith in
              let after_it : member_at
                    (run_member_op {db = db} find_user (updates changed_in actor_role id dto) w) i
                  ≡ some (changed dto target) =
                rows i ∙ rw e refl in
              let low =
                next_low dto.role target.role (second_false _ _ guard (ap is_admin admin)) in
              ap privileged after_it
              ∙ privileged-none (changed dto target) low.1
              ∙ sym (privileged-none target low.0)
              ∙ ap privileged (sym at_target ∙ ap (member_at w) same)
        ]
      ]
