-- ===== src/Crash/Traps.antt =====
-- include/net/exceptionHandler.hpp: the handlers that `init` installs, and what they leave.
use mlnsdk.Base.{ℕ, Option, none, some, List, [], ◌∷◌, ◌++◌, if◌then◌else◌}
use mlnsdk.Base.Outcome.{Outcome, ok, fault, ◌>>=◌}
use mlnsdk.Text.{codes}
use mlnsdk.Crash.Reports.{
  Register, Pointers, System, Effect, opened, noted, closed, terminated, Trap, seh, pure_call,
  invalid_parameter, sigabrt, sigint, sigterm, terminate, unexpected, sigfpe, sigill, sigsegv,
  Settings, generate_filename, create_dump, walked,
}

-- `GetExceptionPointers(0, …)`
unfoldable pub get_exception_pointers : (Register → ℕ) → Pointers
get_exception_pointers captured = record { code = 0; context = captured }

module _ (s : Settings) (y : System) where
  -- The calls of `s_dump_func` and `MyStackWalk`.
  unfoldable pub dump_and_walk : Option Pointers → Outcome (List Effect)
  unfolding walked
  dump_and_walk p = elim s.dump_func [
    | none ↦ fault
    | some kind ↦ walked p s y >>= λ es. ok (create_dump kind s y ++ es)
  ]

  -- `TerminateProcess` after them.
  abbrev pub ending : List Effect → Outcome (List Effect)
  ending es = ok (es ++ terminated 1 ∷ [])

  unfoldable pub seh_handler : Option Pointers → Outcome (List Effect)
  unfolding dump_and_walk
  seh_handler p = dump_and_walk p >>= ending

  unfoldable pub terminate_handler : (Register → ℕ) → Outcome (List Effect)
  unfolding dump_and_walk get_exception_pointers
  terminate_handler captured = dump_and_walk (some (get_exception_pointers captured)) >>= ending

  unfoldable pub unexpected_handler : (Register → ℕ) → Outcome (List Effect)
  unfolding dump_and_walk get_exception_pointers
  unexpected_handler captured = dump_and_walk (some (get_exception_pointers captured)) >>= ending

  unfoldable pub pure_call_handler : (Register → ℕ) → Outcome (List Effect)
  unfolding dump_and_walk get_exception_pointers
  pure_call_handler captured = dump_and_walk (some (get_exception_pointers captured)) >>= ending

  -- The note of `InvalidParameterHandler`.
  unfoldable pub parameter_note : List Effect
  unfolding generate_filename
  parameter_note =
      let (made, path) =
        generate_filename (codes "InvalidParamDump") (codes "txt") s y y.note_time in
      made ++ (if y.creates path then opened path ∷ noted ∷ closed ∷ [] else [])

  unfoldable pub invalid_parameter_handler : (Register → ℕ) → Outcome (List Effect)
  unfolding dump_and_walk get_exception_pointers parameter_note
  invalid_parameter_handler captured =
      dump_and_walk (some (get_exception_pointers captured)) >>= λ es. ending (es ++ parameter_note)

  unfoldable pub new_handler : (Register → ℕ) → Outcome (List Effect)
  unfolding dump_and_walk get_exception_pointers
  new_handler captured = dump_and_walk (some (get_exception_pointers captured)) >>= ending

  unfoldable pub sigabrt_handler : (Register → ℕ) → Outcome (List Effect)
  unfolding dump_and_walk get_exception_pointers
  sigabrt_handler captured = dump_and_walk (some (get_exception_pointers captured)) >>= ending

  unfoldable pub sigfpe_handler : Option Pointers → Outcome (List Effect)
  unfolding dump_and_walk
  sigfpe_handler p = dump_and_walk p >>= ending

  unfoldable pub sigint_handler : (Register → ℕ) → Outcome (List Effect)
  unfolding dump_and_walk get_exception_pointers
  sigint_handler captured = dump_and_walk (some (get_exception_pointers captured)) >>= ending

  unfoldable pub sigill_handler : (Register → ℕ) → Outcome (List Effect)
  unfolding dump_and_walk get_exception_pointers
  sigill_handler captured = dump_and_walk (some (get_exception_pointers captured)) >>= ending

  unfoldable pub sigsegv_handler : Option Pointers → Outcome (List Effect)
  unfolding dump_and_walk
  sigsegv_handler p = dump_and_walk p >>= ending

  unfoldable pub sigterm_handler : (Register → ℕ) → Outcome (List Effect)
  unfolding dump_and_walk get_exception_pointers
  sigterm_handler captured = dump_and_walk (some (get_exception_pointers captured)) >>= ending

  -- The handler that is installed for a trap, with the system's pointers, which `_pxcptinfoptrs` does
  -- not have for a signal that was raised by a call, and a captured context.
  unfoldable pub handle : Trap → Option Pointers → (Register → ℕ) → Outcome (List Effect)
  unfolding seh_handler terminate_handler unexpected_handler pure_call_handler
      invalid_parameter_handler sigabrt_handler sigfpe_handler sigint_handler sigill_handler
      sigsegv_handler sigterm_handler
  handle seh p captured = seh_handler p
  handle pure_call p captured = pure_call_handler captured
  handle invalid_parameter p captured = invalid_parameter_handler captured
  handle sigabrt p captured = sigabrt_handler captured
  handle sigint p captured = sigint_handler captured
  handle sigterm p captured = sigterm_handler captured
  handle terminate p captured = terminate_handler captured
  handle unexpected p captured = unexpected_handler captured
  handle sigfpe p captured = sigfpe_handler p
  handle sigill p captured = sigill_handler captured
  handle sigsegv p captured = sigsegv_handler p
