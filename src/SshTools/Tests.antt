-- ===== src/SshTools/Tests.antt =====
-- The theorems on ssh tools at concrete inputs.
use virtle.Prelude.{[], ◌∷◌, ◌++◌, ◌≡◌, false}
use virtle.SshTools.RetryOutput.{new_retry_output, suppress, flush, write, operate_all}
use virtle.SshTools.RetryOutput.Suppressed.{writes, suppress_hides}

suppress_hides_example :
    (operate_all 4 (new_retry_output false) (
      writes ((1 ∷ 2 ∷ []) ∷ (3 ∷ 4 ∷ 5 ∷ []) ∷ [])
      ++ suppress ∷ flush ∷ write (6 ∷ []) ∷ [])).output
    ≡ []
suppress_hides_example =
    suppress_hides 4 ((1 ∷ 2 ∷ []) ∷ (3 ∷ 4 ∷ 5 ∷ []) ∷ []) (flush ∷ write (6 ∷ []) ∷ [])
