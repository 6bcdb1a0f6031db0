-- ===== src/Rpc.antt =====
-- What the services see of gRPC and of the tokenizer: statuses, results, and the parts of the
-- packages tonic and tokenizers that they call.
use dynamo_router.Base.{ℕ, ◌⊎◌, Bool, ◌||◌, List, ◌++◌, ◌==◌}
use dynamo_router.Text.{Text, codes}

-- A `tonic::Status`: its code, by number, and its message.
pub record Status : Type 0 where
  pub code : ℕ
  pub message : Text

-- `Result<A, Status>`
pub data Result (A : Type 0) : Type 0 where
  ok : A → Result A
  err : Status → Result A

-- The packages: the numbers of the status codes, the `Display` of a code and of a status (from its
-- code and message), and the tokenizer's
-- `encode(text, false)`, to the token ids or the error's `Display`.
pub record Packages : Type 0 where
  pub cancelled : ℕ
  pub unknown : ℕ
  pub invalid_argument : ℕ
  pub deadline_exceeded : ℕ
  pub resource_exhausted : ℕ
  pub internal : ℕ
  pub unavailable : ℕ
  pub describe : ℕ → Text
  pub display : ℕ → Text → Text
  pub encode : Text → List ℕ ⊎ Text

-- `fmt_status`
unfoldable pub fmt_status : Packages → Status → Text
fmt_status pkg status = pkg.describe status.code ++ codes ": " ++ status.message

-- `is_transport_failure`
unfoldable pub is_transport_failure : Packages → Status → Bool
is_transport_failure pkg status =
    (status.code == pkg.unavailable)
    || (status.code == pkg.unknown)
    || (status.code == pkg.internal)
    || (status.code == pkg.cancelled)
