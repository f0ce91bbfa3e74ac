-- ===== src/Io/Error.antt =====
-- api/src/io/error.rs, and the encoding of a result as one word: `op_request` completion in
-- kernel/src/io/provider/mod.rs writes it, `wait_for_result` of kernel/src/io/handle.rs reads it.
use idos_nx.Base.{ℕ, ◌+◌, ◌/◌, ◌%◌, ◌==◌, if◌then◌else◌, not}
use idos_nx.Base.Results.{Result, ok, err}

pub data IoError : Type 0 where
  file_system_error not_found file_handle_invalid file_handle_wrong_type operation_failed : IoError
  unsupported_operation unsupported_command already_open write_to_closed_io : IoError
  invalid_argument resource_in_use resource_limit_exceeded cross_device_link unknown : IoError

-- `self as u32`
unfoldable pub into : IoError → ℕ
into file_system_error = 1
into not_found = 2
into file_handle_invalid = 3
into file_handle_wrong_type = 4
into operation_failed = 5
into unsupported_operation = 6
into unsupported_command = 7
into already_open = 8
into write_to_closed_io = 9
into invalid_argument = 10
into resource_in_use = 11
into resource_limit_exceeded = 12
into cross_device_link = 13
into unknown = 0xffffffff

-- `try_from` never fails.
unfoldable pub try_from : ℕ → IoError
try_from value =
    if value == 1
    then file_system_error
    else if value == 2
    then not_found
    else if value == 3
    then file_handle_invalid
    else if value == 4
    then file_handle_wrong_type
    else if value == 5
    then operation_failed
    else if value == 6
    then unsupported_operation
    else if value == 7
    then unsupported_command
    else if value == 8
    then already_open
    else if value == 9
    then write_to_closed_io
    else if value == 10
    then invalid_argument
    else if value == 11
    then resource_in_use
    else if value == 12
    then resource_limit_exceeded
    else if value == 13
    then cross_device_link
    else unknown

-- `inner & 0x7fffffff` and `code | 0x80000000`
unfoldable pub complete_word : Result ℕ IoError → ℕ
unfolding into
complete_word (ok inner) = inner % 0x80000000
complete_word (err inner) = into inner % 0x80000000 + 0x80000000

-- The result that the completed word stands for.
unfoldable pub read_word : ℕ → Result ℕ IoError
unfolding try_from
read_word code =
    if not (code / 0x80000000 % 2 == 0) then err (try_from (code % 0x80000000)) else ok code

-- What the encoding keeps of a result: all of an error, and the lower 31 bits of a number.
abbrev pub kept : Result ℕ IoError → Result ℕ IoError
kept (ok inner) = ok (inner % 0x80000000)
kept (err e) = err e
