-- ===== src/Exception/Busy.antt =====
-- vee/worker.h and exception/exl_worker.cpp: the error of the workers.
use vee.Common.{ℕ, Option, List}
use vee.CString.{codes}
use vee.Exception.{Base, exception_of, to_string}

pub data Busy : Type 0 where
  worker_is_busy : Busy

-- The message that each class hands to its base.
abbrev pub busy_message : Busy → List ℕ
busy_message worker_is_busy = codes "worker is busy"

-- An object of the class, made with no argument.
unfoldable pub make_busy : Busy → Option Base
unfolding exception_of
make_busy e = exception_of (busy_message e)

-- Each class overrides `to_string` by the one of its base.
unfoldable pub busy_to_string : Busy → Base → List ℕ
unfolding to_string
busy_to_string e b = to_string b
