-- ===== src/Exception/Messages.antt =====
-- What the exceptions report.
use vee.Common.{
  ℕ, ◌≤◌, ◌<◌, ◌≡◌, ◌⊎◌, inl, inr, refl, Option, none, some, List, arith, length, dec_lt,
}
use vee.CString.{IsText, strcpy_s_lem, strcpy_s-none}
use vee.Exception.{Base, exception_of, to_string, cleared, desc_buffer_size}
use vee.Exception.Exl.{
  Exl, precondition_violated_exception, key_generation_failed_exception, target_not_found_exception,
  key_already_exist_exception, not_implemented_exception, exl_message, make_exl, exl_to_string,
}
use vee.Exception.Io.{
  Io, invalid_stream_exception, stream_write_failed_exception, stream_reset_exception,
  unknown_io_exception, io_message, make_io, io_to_string,
}
use vee.Exception.Comm.{
  Comm, protocol_mismatch_exception, connection_failed_exception, connection_already_disconnected,
  accept_failed_exception, comm_message, make_comm, comm_to_string,
}

-- An exception made from a message of fewer than 256 characters reports that message; with a longer
-- one none is made.
pub exception_of_lem :
    (msg : List ℕ)
    → IsText msg
    → ((length msg < desc_buffer_size)
        × (e : Base) × (exception_of msg ≡ some e)
        × (to_string e ≡ msg))
      ⊎ ((desc_buffer_size ≤ length msg) × (exception_of msg ≡ none))
unfolding exception_of to_string
exception_of_lem msg t = elim (dec_lt (length msg) desc_buffer_size) [
  | yes fits ↦
      let (buffer, copied, read, size) = strcpy_s_lem cleared msg t fits in
      inl (fits, record { desc = buffer }, ground (arith, copied), read)
  | no long ↦ inr (omega arith, ground (arith, strcpy_s-none cleared msg (omega arith)))
]

-- An object that is made, and what it reports.
pub record Reports (made : Option Base) (report : Base → List ℕ) (msg : List ℕ) : Type 0 where
  pub object : Base
  pub returns : made ≡ some object
  pub reported : report object ≡ msg

-- Every exception class of the delegates and enumerations can be made with no argument, and then
-- reports its own message.
pub exl-Reports : (e : Exl) → Reports (make_exl e) (exl_to_string e) (exl_message e)
unfolding make_exl exl_to_string
exl-Reports precondition_violated_exception = record { object = _; returns = refl; reported = refl }
exl-Reports key_generation_failed_exception = record { object = _; returns = refl; reported = refl }
exl-Reports target_not_found_exception = record { object = _; returns = refl; reported = refl }
exl-Reports key_already_exist_exception = record { object = _; returns = refl; reported = refl }
exl-Reports not_implemented_exception = record { object = _; returns = refl; reported = refl }

-- Every exception class of the streams can be made with no argument, and then reports its own
-- message.
pub io-Reports : (e : Io) → Reports (make_io e) (io_to_string e) (io_message e)
unfolding make_io io_to_string
io-Reports invalid_stream_exception = record { object = _; returns = refl; reported = refl }
io-Reports stream_write_failed_exception = record { object = _; returns = refl; reported = refl }
io-Reports stream_reset_exception = record { object = _; returns = refl; reported = refl }
io-Reports unknown_io_exception = record { object = _; returns = refl; reported = refl }

-- Every exception class of the connections can be made with no argument, and then reports its own
-- message.
pub comm-Reports : (e : Comm) → Reports (make_comm e) (comm_to_string e) (comm_message e)
unfolding make_comm comm_to_string
comm-Reports protocol_mismatch_exception = record { object = _; returns = refl; reported = refl }
comm-Reports connection_failed_exception = record { object = _; returns = refl; reported = refl }
comm-Reports connection_already_disconnected = record {
  object = _;
  returns = refl;
  reported = refl;
}
comm-Reports accept_failed_exception = record { object = _; returns = refl; reported = refl }
