-- ===== src/Tests/Loggers.antt =====
-- Runs of logger.hpp.
use mlnsdk.Base.{ℕ, ◌≡◌, refl, Bool, true, none, List, [], ◌∷◌, arith}
use mlnsdk.Text.{codes}
use mlnsdk.Logger.{
  trace, warn, Unset, create_initializer, Call, name_call, base_call, flush_call, size_call,
  files_call, console_lv_call, file_lv_call, console_pattern_call, file_pattern_call, apply_all,
  done, init_rotate,
}
use mlnsdk.Logger.Rotating.{SetsAll, turned, builder_rotates}

abbrev opening : List ℕ → ℕ → ℕ → Bool
opening name size files = true

abbrev opening_basic : List ℕ → Bool
opening_basic name = true

abbrev unset : Unset
unset = record { flush_every_sec = 77; max_file_size = 77; max_files = 77 }

-- A chain that sets a level twice.
abbrev chain : List Call
chain =
    name_call (codes "log")
    ∷ flush_call 3
    ∷ file_lv_call warn
    ∷ base_call (codes "file")
    ∷ size_call 4096
    ∷ files_call 2
    ∷ file_lv_call trace
    ∷ file_pattern_call none
    ∷ console_lv_call trace
    ∷ console_pattern_call none
    ∷ []

chain-SetsAll : SetsAll chain (codes "log") (codes "file") 4096 2 3
chain-SetsAll = record {
  named = refl;
  flushed = refl;
  console_level = refl;
  console_patterned = refl;
  based = refl;
  sized = refl;
  counted = refl;
  file_level = refl;
  file_patterned = refl;
}

builder_rotates_example :
    done opening opening_basic (apply_all chain (create_initializer unset))
    ≡ turned (init_rotate opening opening_basic (codes "log") (codes "file") 4096 2 3)
builder_rotates_example =
    builder_rotates opening opening_basic chain unset (codes "log") (codes "file") 4096 2 3
      chain-SetsAll (omega arith)
