-- ===== src/PredictionOutcomes.antt =====
-- src/prediction-outcomes: what became of a prediction.
pub mod Resolve
