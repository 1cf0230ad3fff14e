-- ===== src/Status.antt =====
-- The values of google.golang.org/grpc/codes that the program names, and the result of a handler:
-- a response, or status.Error with a code. Error texts are left out.
pub data Code : Type 0 where
  ok_code canceled invalid_argument deadline_exceeded not_found already_exists : Code
  permission_denied resource_exhausted aborted internal unavailable : Code

pub data Reply {ℓ} (A : Type ℓ) : Type ℓ where
  ok : A → Reply A
  fail : Code → Reply A
