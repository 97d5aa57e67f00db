-- ===== src/Exception/Io.antt =====
-- vee/io.h and exception/exl_io.cpp: the errors of the streams.
use vee.Common.{ℕ, Option, List}
use vee.CString.{codes}
use vee.Exception.{Base, exception_of, to_string}

pub data Io : Type 0 where
  invalid_stream_exception : Io
  stream_write_failed_exception : Io
  stream_reset_exception : Io
  unknown_io_exception : Io

-- The message that each class hands to its base.
abbrev pub io_message : Io → List ℕ
io_message invalid_stream_exception = codes "invalid stream exception"
io_message stream_write_failed_exception = codes "stream write failed exception"
io_message stream_reset_exception = codes "stream corrupted exception"
io_message unknown_io_exception = codes "unknown io exception"

-- An object of the class, made with no argument.
unfoldable pub make_io : Io → Option Base
unfolding exception_of
make_io e = exception_of (io_message e)

-- Each class overrides `to_string` by the one of its base.
unfoldable pub io_to_string : Io → Base → List ℕ
unfolding to_string
io_to_string e b = to_string b
