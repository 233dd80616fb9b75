-- ===== src/Common/Results.antt =====
-- `Result<A, E>`: a value, or the error that a fallible call gives in its place.
pub data Result (E A : Type 0) : Type 0 where
  err : E → Result E A
  ok : A → Result E A
