-- ===== src/Examples/Demo.antt =====
-- Numbers in place of what the third-party crates give.
use chapterhouse_qe.Common.{ℕ}
use chapterhouse_qe.External.{External}

abbrev pub demo : External
demo = record { Expr = ℕ; FunctionArg = ℕ; Join = ℕ; WildcardOption = ℕ; RecordBatch = ℕ }
