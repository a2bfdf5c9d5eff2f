-- ===== src/Promotion.antt =====
-- Promotion reviews: src/infinitas_skill/policy/reviews.py and review_evaluation.py.
pub mod Quorum
pub mod Evaluate
pub mod Classified
pub mod Gate
pub mod Keys
pub mod Distinct
pub mod Unavoidable
pub mod Latest
pub mod Examples
