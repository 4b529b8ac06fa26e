-- ===== src/Errors/Tables.antt =====
-- The two tables over the error codes, libs/models/src/error/error-codes-map.ts.
use demo_t.Base.{String}
use demo_t.Errors.Codes.{HttpStatus, ErrorCode}

-- `ERROR_CODE_TO_HTTP_STATUS`.
unfoldable pub status_of : ErrorCode → HttpStatus
status_of ErrorCode.invalid_credentials = HttpStatus.unauthorized
status_of ErrorCode.invalid_token = HttpStatus.unauthorized
status_of ErrorCode.token_expired = HttpStatus.unauthorized
status_of ErrorCode.token_not_found = HttpStatus.unauthorized
status_of ErrorCode.refresh_token_invalid = HttpStatus.unauthorized
status_of ErrorCode.refresh_token_not_found = HttpStatus.unauthorized
status_of ErrorCode.authentication_failed = HttpStatus.unauthorized
status_of ErrorCode.session_expired = HttpStatus.unauthorized
status_of ErrorCode.token_payload_mismatch = HttpStatus.unauthorized
status_of ErrorCode.unauthorized = HttpStatus.unauthorized
status_of ErrorCode.forbidden = HttpStatus.forbidden
status_of ErrorCode.access_denied = HttpStatus.forbidden
status_of ErrorCode.permission_denied = HttpStatus.forbidden
status_of ErrorCode.insufficient_permissions = HttpStatus.forbidden
status_of ErrorCode.email_not_verified = HttpStatus.forbidden
status_of ErrorCode.email_verification_required = HttpStatus.forbidden
status_of ErrorCode.verification_token_invalid = HttpStatus.bad_request
status_of ErrorCode.verification_token_expired = HttpStatus.bad_request
status_of ErrorCode.unverified_account_exists = HttpStatus.conflict
status_of ErrorCode.email_already_verified = HttpStatus.bad_request
status_of ErrorCode.not_found = HttpStatus.not_found
status_of ErrorCode.user_not_found = HttpStatus.not_found
status_of ErrorCode.resource_not_found = HttpStatus.not_found
status_of ErrorCode.user_update_failed = HttpStatus.bad_request
status_of ErrorCode.user_not_active = HttpStatus.forbidden
status_of ErrorCode.user_no_longer_exists = HttpStatus.forbidden
status_of ErrorCode.invalid_user_id = HttpStatus.bad_request
status_of ErrorCode.already_exists = HttpStatus.conflict
status_of ErrorCode.email_already_exists = HttpStatus.conflict
status_of ErrorCode.user_already_exists = HttpStatus.conflict
status_of ErrorCode.duplicate_entry = HttpStatus.conflict
status_of ErrorCode.conflict = HttpStatus.conflict
status_of ErrorCode.validation_failed = HttpStatus.bad_request
status_of ErrorCode.invalid_input = HttpStatus.bad_request
status_of ErrorCode.bad_request = HttpStatus.bad_request
status_of ErrorCode.missing_required_field = HttpStatus.bad_request
status_of ErrorCode.invalid_format = HttpStatus.bad_request
status_of ErrorCode.invalid_email = HttpStatus.bad_request
status_of ErrorCode.invalid_password = HttpStatus.bad_request
status_of ErrorCode.rate_limit_exceeded = HttpStatus.too_many_requests
status_of ErrorCode.too_many_requests = HttpStatus.too_many_requests
status_of ErrorCode.csrf_token_missing = HttpStatus.forbidden
status_of ErrorCode.csrf_token_invalid = HttpStatus.forbidden
status_of ErrorCode.csrf_validation_failed = HttpStatus.forbidden
status_of ErrorCode.internal_server_error = HttpStatus.internal_server_error
status_of ErrorCode.server_error = HttpStatus.internal_server_error
status_of ErrorCode.service_unavailable = HttpStatus.service_unavailable
status_of ErrorCode.database_error = HttpStatus.internal_server_error
status_of ErrorCode.external_service_error = HttpStatus.bad_gateway

-- `ERROR_CODE_MESSAGES`.
unfoldable pub message_of : ErrorCode → String
message_of ErrorCode.invalid_credentials = "Invalid email or password"
message_of ErrorCode.invalid_token = "Your session has expired, please login again"
message_of ErrorCode.token_expired = "Your session has expired, please login again"
message_of ErrorCode.token_not_found = "Authentication token not found"
message_of ErrorCode.refresh_token_invalid = "Invalid refresh token"
message_of ErrorCode.refresh_token_not_found = "Refresh token not found"
message_of ErrorCode.authentication_failed = "Authentication failed"
message_of ErrorCode.session_expired = "Your session has expired, please login again"
message_of ErrorCode.token_payload_mismatch = "Token payload does not match current user state"
message_of ErrorCode.unauthorized = "Unauthorized access"
message_of ErrorCode.forbidden = "Access forbidden"
message_of ErrorCode.access_denied = "Access denied"
message_of ErrorCode.permission_denied = "You do not have permission to perform this action"
message_of ErrorCode.insufficient_permissions = "Insufficient permissions"
message_of ErrorCode.email_not_verified = "Please verify your email address"
message_of ErrorCode.email_verification_required = "Email verification is required to continue"
message_of ErrorCode.verification_token_invalid = "Invalid verification token"
message_of ErrorCode.verification_token_expired =
    "Verification token has expired, please request a new one"
message_of ErrorCode.unverified_account_exists =
    "An unverified account with this email already exists. Please check your email for the verification link or wait for it to expire."
message_of ErrorCode.email_already_verified = "Email is already verified"
message_of ErrorCode.not_found = "Resource not found"
message_of ErrorCode.user_not_found = "User not found"
message_of ErrorCode.resource_not_found = "The requested resource could not be found"
message_of ErrorCode.user_update_failed = "Failed to update user"
message_of ErrorCode.user_not_active = "User account is not active"
message_of ErrorCode.user_no_longer_exists = "User no longer exists"
message_of ErrorCode.invalid_user_id = "Invalid user ID"
message_of ErrorCode.already_exists = "Resource already exists"
message_of ErrorCode.email_already_exists = "This email is already registered"
message_of ErrorCode.user_already_exists = "User already exists"
message_of ErrorCode.duplicate_entry = "Duplicate entry"
message_of ErrorCode.conflict = "Conflict with existing resource"
message_of ErrorCode.validation_failed = "Please check your input and try again"
message_of ErrorCode.invalid_input = "Invalid input provided"
message_of ErrorCode.bad_request = "Bad request"
message_of ErrorCode.missing_required_field = "Missing required field"
message_of ErrorCode.invalid_format = "Invalid format"
message_of ErrorCode.invalid_email = "Invalid email address"
message_of ErrorCode.invalid_password = "Invalid password"
message_of ErrorCode.rate_limit_exceeded = "Too many attempts, please try again later"
message_of ErrorCode.too_many_requests = "Too many requests, please try again later"
message_of ErrorCode.csrf_token_missing = "Security validation failed"
message_of ErrorCode.csrf_token_invalid = "Security validation failed"
message_of ErrorCode.csrf_validation_failed = "Security validation failed"
message_of ErrorCode.internal_server_error =
    "Something went wrong on our end, please try again later"
message_of ErrorCode.server_error = "Something went wrong on our end, please try again later"
message_of ErrorCode.service_unavailable = "Service temporarily unavailable, please try again later"
message_of ErrorCode.database_error = "Database error occurred"
message_of ErrorCode.external_service_error = "External service error"
