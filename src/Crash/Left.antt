-- ===== src/Crash/Left.antt =====
-- What a trap leaves: the dump, the report and the end of the process.
use mlnsdk.Base.{ℕ, Bool, Option, some, List, ◌++◌, if◌then◌else◌}
use mlnsdk.Base.Outcome.{Outcome}
use mlnsdk.Crash.Reports.{
  Dump, mini, full, Register, Pointers, System, Effect, Trap, seh, invalid_parameter, sigfpe,
  sigsegv, Settings, create_dump, my_stack_walk,
}
use mlnsdk.Crash.Traps.{get_exception_pointers, parameter_note}

-- The pointers that a handler passes on.
abbrev pub pointers_of : Trap → Option Pointers → (Register → ℕ) → Option Pointers
pointers_of seh p captured = p
pointers_of sigfpe p captured = p
pointers_of sigsegv p captured = p
pointers_of _ p captured = some (get_exception_pointers captured)

-- What a handler does before it ends the process.
abbrev before_end : Dump → Trap → Pointers → Settings → System → List Effect
before_end kind invalid_parameter p s y =
    (create_dump kind s y ++ my_stack_walk p s y) ++ parameter_note s y
before_end kind _ p s y = create_dump kind s y ++ my_stack_walk p s y

-- The dump that `init` chooses.
abbrev pub kind_of : Bool → Dump
kind_of is_full_dump = if is_full_dump then full else mini
