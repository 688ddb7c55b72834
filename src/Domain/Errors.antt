-- ===== src/Domain/Errors.antt =====
-- pkg/apperror/error.go, retry.go and the status table of middleware.go. A Go `error` is either an
-- `*AppError` or an error of another type, of which the program only reads the text.
use Prim.Native.String.{◌++◌ as text_append}
use krampus.Prelude.{◌≡◌, ◌⊎◌, inl, inr, refl, ℕ, String, Bool, true, false, List, [], ◌∷◌}

pub data ErrorCode : Type 0 where
  invalid_message unauthorized rate_limit room_not_found user_not_found forbidden : ErrorCode
  storage connection validation duplicate timeout payload_too_large internal : ErrorCode

pub record AppError : Type 0 where
  pub code : ErrorCode
  pub message : String
  pub developer_message : String
  pub details : String

pub data Error : Type 0 where
  app : AppError → Error
  plain : String → Error

pub data Result {ℓ} (A : Type ℓ) : Type ℓ where
  ok : A → Result A
  err : Error → Result A

pub Result-cases {ℓ} :
    {A : Type ℓ} (r : Result A) → ((e : Error) × (r ≡ err e)) ⊎ ((a : A) × (r ≡ ok a))
Result-cases (err e) = inl (e, refl)
Result-cases (ok a) = inr (a, refl)

-- `New`
abbrev pub new_error : ErrorCode → String → Error
new_error c m = app (record { code = c; message = m; developer_message = ""; details = "" })

-- the constants behind `ErrorCode`
unfoldable pub code_text : ErrorCode → String
code_text invalid_message = "INVALID_MESSAGE"
code_text unauthorized = "UNAUTHORIZED"
code_text rate_limit = "RATE_LIMIT"
code_text room_not_found = "ROOM_NOT_FOUND"
code_text user_not_found = "USER_NOT_FOUND"
code_text forbidden = "FORBIDDEN"
code_text storage = "STORAGE_ERROR"
code_text connection = "CONNECTION_ERROR"
code_text validation = "VALIDATION_ERROR"
code_text duplicate = "DUPLICATE_ERROR"
code_text timeout = "TIMEOUT_ERROR"
code_text payload_too_large = "PAYLOAD_TOO_LARGE"
code_text internal = "INTERNAL_ERROR"

-- `Error()`
unfoldable pub error_text : Error → String
unfolding code_text
error_text (app e) = text_append (code_text e.code) (text_append ": " e.message)
error_text (plain m) = m

abbrev pub is_retryable_code : ErrorCode → Bool
is_retryable_code timeout = true
is_retryable_code connection = true
is_retryable_code internal = true
is_retryable_code storage = true
is_retryable_code _ = false

-- `IsRetryable`
unfoldable pub is_retryable : Error → Bool
is_retryable (app e) = is_retryable_code e.code
is_retryable (plain m) = false

-- `getHTTPStatus`
unfoldable pub http_status : ErrorCode → ℕ
http_status unauthorized = 401
http_status forbidden = 403
http_status rate_limit = 429
http_status room_not_found = 404
http_status user_not_found = 404
http_status validation = 400
http_status invalid_message = 400
http_status payload_too_large = 400
http_status duplicate = 409
http_status _ = 500

-- What the last error of a request turns into: the branches of `ErrorMiddleware`.
pub record Response : Type 0 where
  pub status : ℕ
  pub code : ErrorCode
  pub message : String

unfoldable pub last_error {ℓ} : {A : Type ℓ} → A → List A → A
last_error e [] = e
last_error e (x ∷ xs) = last_error x xs

unfoldable pub respond_to : Error → Response
unfolding http_status
respond_to (app e) = record { status = http_status e.code; code = e.code; message = e.message }
respond_to (plain m) = record { status = 500; code = internal; message = "internal server error" }
