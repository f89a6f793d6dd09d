-- ===== src/Review.antt =====
-- graph/contracts.py, reviews/models.py and application/reviews.py: the answers to the questions that
-- the workflow asks, and the service that resumes the workflow with them.
pub mod Decision
pub mod Answer
pub mod Service
pub mod Tasks
pub mod Sound
pub mod Safe
