-- ===== src/Constants/Codes.antt =====
-- Error codes by their numbers (src/jdwpy/constants.py).
use jdwpy.Prelude.{some, ◌≡◌}
use jdwpy.Prelude.Int.{pos}
use jdwpy.Constants.ErrorCode.{JdwpErrorCode, error_code_value, from_int, to_error_code-value}

-- `JdwpErrorCode.from_int` gives each member for the member's value.
pub from_int-error_code_value :
    (code : JdwpErrorCode) → from_int (pos (error_code_value code)) ≡ some code
unfolding from_int
from_int-error_code_value code = rw (from_int, to_error_code-value code)
