-- ===== src/Constants/Flags.antt =====
-- JdwpClassStatus and JdwpInvokeOptions of src/jdwpy/constants.py. An `IntFlag` keeps the bits that
-- no member names, and its value is never negative.
use jdwpy.Prelude.{if◌then◌else◌, leb, ltb, suc, zero, ℕ, ◌+◌, ◌-◌, ◌/◌, ◌==◌, ◌^◌}
use jdwpy.Prelude.Int.{negsuc, pos, ℤ}

-- The bits of n, for n below 2 ^ fuel.
bit_length_within : ℕ → ℕ → ℕ
bit_length_within zero n = 0
bit_length_within (suc fuel) n =
    let rest = bit_length_within fuel (n / 2) in if n == 0 then 0 else suc rest

-- `n.bit_length()`: n is below 2 ^ n, so n rounds are enough.
unfoldable pub bit_length : ℕ → ℕ
unfolding bit_length_within
bit_length n = bit_length_within n n

-- The value of the flag that `JdwpClassStatus(v)` makes, where the named members cover `all_bits`. A
-- negative number is read as a bit pattern, of more bits where the named ones do not hold it.
unfoldable pub to_flag : ℕ → ℤ → ℕ
unfolding bit_length
to_flag all_bits (pos n) = n
to_flag all_bits (negsuc n) =
    if leb n all_bits
    then all_bits - n
    else (if ltb all_bits (2 ^ bit_length (n + 1)) then 2 ^ bit_length (n + 1) else all_bits + 1)
      - (n + 1)

-- VERIFIED, PREPARED, INITIALIZED, ERROR
unfoldable pub to_class_status : ℤ → ℕ
unfolding to_flag
to_class_status = to_flag 15

-- INVOKE_SINGLE_THREADED, INVOKE_NONVIRTUAL
unfoldable pub to_invoke_options : ℤ → ℕ
unfolding to_flag
to_invoke_options = to_flag 3
