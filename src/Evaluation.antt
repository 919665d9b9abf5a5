-- ===== src/Evaluation.antt =====
-- What the language model hands in through its tools, internal/evaluation/parse.go,
-- internal/coach/parse.go and internal/educator/parse.go, and what becomes of an evaluation:
-- internal/jobs/evaluate.go stores it and internal/backend/evaluation.go reads it. The JSON decoder
-- is a parameter: a function from the text to the raw structure or nothing, where a nil slice or
-- pointer is `none`. So are the type of JSON's numbers and Go's conversion of a float64 to an int32.
pub mod Parse
pub mod Coach
pub mod Educator
pub mod Checks
pub mod Fetch
pub mod Worker
pub mod Settled
pub mod Annotated
pub mod Stored
pub mod Joined
pub mod ReadBack
