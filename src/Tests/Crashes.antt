-- ===== src/Tests/Crashes.antt =====
-- Runs of exceptionHandler.hpp.
use mlnsdk.Base.{ℕ, ◌≡◌, true, none, some, [], ◌∷◌, arith}
use mlnsdk.Base.Outcome.{Outcome, ok, ◌>>=◌}
use mlnsdk.Text.{codes, c_string}
use mlnsdk.Crash.{Module, Time, dump_path, root_path, create_directories}
use mlnsdk.Crash.Roots.{dump_path_lem}
use mlnsdk.Crash.Directories.{created_lem}
use mlnsdk.Crash.Reports.{Register, Pointers, Frame, System, Settings, init}

abbrev module_path : Module
module_path = record { drive = codes "c:"; directory = codes "/srv/"; name = codes "mln" }

dump_path_example :
    (dump_path (some (codes "d/x//")) module_path >>= λ path. ok (c_string path)) ≡ ok (codes "d/x")
unfolding root_path
dump_path_example = dump_path_lem (some (codes "d/x//")) module_path (omega arith)

created_example :
    create_directories 5 0 (codes "a/b/c") ≡ some (codes "a" ∷ codes "a/b" ∷ codes "a/b/c" ∷ [])
created_example = created_lem b'a' 5 (codes "/b/c") (omega arith)

abbrev noon : Time
noon = record { year = 2024; month = 1; day = 2; hour = 12; minute = 0; second = 0 }

abbrev frame : Frame
frame = record { pc = 4096; symbol = some (codes "main", 4090); error = 0; line_of = λ a. none }

abbrev machine : System
machine = record {
  library = true;
  creates = λ path. true;
  dump_function = true;
  dumps = true;
  symbols = true;
  host = codes "host";
  dump_time = noon;
  date = noon;
  stack_time = noon;
  note_time = noon;
  process = 7;
  thread = 8;
  frames = frame ∷ [];
  stack_pointer = 65536;
  memory = λ a. 0;
}

abbrev registers_of : Register → ℕ
registers_of r = 1

abbrev pointers : Pointers
pointers = record { code = 5; context = registers_of }

abbrev settings_in : Outcome Settings → Settings
settings_in (ok s) = s
settings_in _ = record { dump_path = []; filename = []; dump_func = none; installed = [] }

abbrev ready : Settings
ready = settings_in (init (some (codes "d")) none true module_path)
