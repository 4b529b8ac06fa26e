-- ===== src/Errors/Exceptions.antt =====
-- What the services throw, and a computation that either returns or throws.
use demo_t.Base.{ℕ, String}
use demo_t.Errors.Codes.{HttpStatus, ErrorCode, value, number}

-- `http` is a NestJS exception with its status and message; `named` is an error of another library
-- with its `name` and message, such as `TokenExpiredError`; `database` is a
-- `PrismaClientKnownRequestError` with its code and message; `plain` is a JavaScript `Error`;
-- `unknown` is a thrown value that is no `Error`.
pub data Exception : Type 0 where
  http : ℕ → String → Exception
  named : String → String → Exception
  database : String → String → Exception
  plain : String → Exception
  unknown : Exception

-- `new UnauthorizedException(code)` and its siblings.
abbrev pub http_error : HttpStatus → ErrorCode → Exception
http_error status code = http (number status) (value code)

pub data Result {ℓ} (A : Type ℓ) : Type ℓ where
  ok : A → Result A
  err : Exception → Result A
