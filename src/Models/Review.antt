-- ===== src/Models/Review.antt =====
-- app/models/human_review.py
use steh_v1_0_0_rc.Base.{ℕ, String, Option}

pub data HumanDecision : Type 0 where
  approve reject : HumanDecision

pub data HumanReviewStatus : Type 0 where
  pending approved rejected expired : HumanReviewStatus

pub record HumanReviewDecision : Type 0 where
  pub decision : HumanDecision
  pub justification : String

pub record HumanReviewResume : Type 0 where
  pub status : HumanReviewStatus
  pub reviewer : String
  pub justification : String
  pub decided_at : ℕ

pub record HumanReviewArtifact : Type 0 where
  pub status : HumanReviewStatus
  pub requested_at : ℕ
  pub expires_at : ℕ
  pub policy_result_count : ℕ
  pub reviewer : Option String
  pub justification : Option String
  pub decided_at : Option ℕ
