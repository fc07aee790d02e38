-- ===== src/Domain/Recommendation.antt =====
-- Action of schema.prisma, and the recommendation that it keeps a copy of.
use Prim.Native.String.{String}
use forgeos_web.Base.{ℕ, Bool, Option, ◌==◌}

pub data RecommendationType : Type 0 where
  energy_anomaly auth_failure_spike idle_connector comparative_underperformance : RecommendationType
  efficiency_drift : RecommendationType

pub data ActionStatus : Type 0 where
  opened acknowledged assigned resolved dismissed : ActionStatus

-- What an operator saw; `content` stands for the title, the severity, the explanation, the evidence
-- and the recommended action.
pub record Recommendation : Type 0 where
  pub station_id : ℕ
  pub type : RecommendationType
  pub content : String

pub record Action : Type 0 where
  pub id : ℕ
  pub organization_id : ℕ
  pub charging_station_id : ℕ
  pub recommendation_type : RecommendationType
  pub content : String
  pub status : ActionStatus
  pub assigned_to_user_id : Option ℕ
  pub snoozed_until : Option ℕ
  pub notes : Option String
  pub created_at : ℕ
  pub updated_at : ℕ
  pub resolved_at : Option ℕ

abbrev type_ordinal : RecommendationType → ℕ
type_ordinal RecommendationType.energy_anomaly = 0
type_ordinal RecommendationType.auth_failure_spike = 1
type_ordinal RecommendationType.idle_connector = 2
type_ordinal RecommendationType.comparative_underperformance = 3
type_ordinal RecommendationType.efficiency_drift = 4

abbrev pub type_eq : RecommendationType → RecommendationType → Bool
type_eq a b = type_ordinal a == type_ordinal b
