-- ===== src/Examples/Managing.antt =====
-- The properties of memberships at concrete states.
use Prim.Native.String.{String}
use forgeos_web.Base.{ℕ, ◌≡◌, refl, Option, none, some, List, [], ◌∷◌}
use forgeos_web.Base.JsMap.{nat_eq, string_eq}
use forgeos_web.Domain.{World}
use forgeos_web.Domain.Work.{Membership, MemberRole, MemberStatus}
use forgeos_web.Examples.{sample_db, sample}
use forgeos_web.Memberships.Effects.{member_at}
use forgeos_web.Memberships.Owners.{
  MemberOp, creates, updates, run_member_op, run_member_ops, HasOwner, privileged,
  run_member_ops-HasOwner, admin_leaves_owners,
}

abbrev member : (id : ℕ) → MemberRole → Membership
member id role = record {
  id = id;
  user_id = id;
  organization_id = 1;
  role = role;
  status = MemberStatus.active;
}

abbrev team : World sample_db
team = record sample { memberships = member 0 MemberRole.owner ∷ member 1 MemberRole.admin ∷ [] }

abbrev find_user : String → Option ℕ
find_user email = some 9

abbrev changes : List MemberOp
changes =
    creates 1 MemberRole.owner (record { email = "nueva@movos"; role = MemberRole.owner })
    ∷ updates 1 MemberRole.owner 0 (record { role = some MemberRole.viewer; status = none })
    ∷ updates 1 MemberRole.owner 2 (record { role = none; status = some MemberStatus.suspended })
    ∷ []

run_member_ops-HasOwner_example : HasOwner 1 (run_member_ops find_user changes team)
run_member_ops-HasOwner_example =
    run_member_ops-HasOwner find_user changes 1 team
      (0, member 0 MemberRole.owner, refl, refl, refl)

abbrev demotion : MemberOp
demotion = updates 1 MemberRole.admin 0 (record { role = some MemberRole.viewer; status = none })

admin_leaves_owners_example :
    privileged (member_at (run_member_op find_user demotion team) 0) ≡ privileged (member_at team 0)
admin_leaves_owners_example = admin_leaves_owners find_user demotion team 0 refl
