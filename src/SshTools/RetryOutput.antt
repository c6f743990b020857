-- ===== src/SshTools/RetryOutput.antt =====
-- `RetryOutput` and `cappedBuffer` of internal/sshtools/ssh.go: the error output of an attempt, which is
-- shown, or dropped if the attempt is made again. A byte is a number. The timer is a flush of its own.
pub mod Suppressed
use virtle.Prelude.{
  ℕ, ◌-◌, ◌+◌, ltb, leb, Bool, true, false, not, ◌&&◌, ◌||◌, List, [], ◌∷◌, ◌++◌, length, take,
  if◌then◌else◌,
}

abbrev pub retry_output_limit : ℕ
retry_output_limit = 65536

-- The fields under the lock, and what was written to the output.
pub record RetryOutput : Type 0 where
  pub output : List ℕ
  pub verbose : Bool
  pub captured : List ℕ
  pub pending : List ℕ
  pub revealed : Bool
  pub suppressed : Bool

-- `NewRetryOutput`
abbrev pub new_retry_output : Bool → RetryOutput
new_retry_output verbose = record {
  output = [];
  verbose = verbose;
  captured = [];
  pending = [];
  revealed = false;
  suppressed = false;
}

-- `cappedBuffer.Write` on a buffer with this limit
unfoldable pub capped_write : ℕ → List ℕ → List ℕ → List ℕ
capped_write limit buffer p =
    if leb limit (length buffer)
    then buffer
    else buffer
      ++ (if ltb (limit - length buffer) (length p) then take (limit - length buffer) p else p)

pub data Operation : Type 0 where
  write : List ℕ → Operation
  suppress flush : Operation

-- The limit is a parameter, so that a test need not write 65536 bytes.
module _ (limit : ℕ) where
  -- `Write`
  unfoldable pub do_write : RetryOutput → List ℕ → RetryOutput
  do_write o p =
      let kept : RetryOutput = record o { captured = capped_write limit o.captured p } in
      if o.verbose || o.revealed
      then record kept { output = o.output ++ p }
      else if o.suppressed
      then kept
      else record kept { pending = capped_write limit o.pending p }

  -- `Write`, `Suppress` and `Flush`
  unfoldable pub operate : RetryOutput → Operation → RetryOutput
  operate o (write p) = do_write o p
  operate o suppress = record o { pending = []; suppressed = true }
  operate o flush =
      if o.suppressed && not o.verbose
      then o
      else record o { revealed = true; output = o.output ++ o.pending; pending = [] }

  unfoldable pub operate_all : RetryOutput → List Operation → RetryOutput
  operate_all o [] = o
  operate_all o (op ∷ ops) = operate_all (operate o op) ops
