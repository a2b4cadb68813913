-- ===== src/Crash/Reports.antt =====
-- include/net/exceptionHandler.hpp: the dump, the stack report and the handlers, for a 64-bit process.
-- What the system answers is a record; a line of the report is its kind and the values that it prints.
use mlnsdk.Base.{
  ℕ, zero, suc, ◌+◌, ◌%◌, ◌^◌, Bool, not, Option, none, some, List, [], ◌∷◌, ◌++◌, map, ◌==◌,
  if◌then◌else◌, length, sub_uint64, to_uint64,
}
use mlnsdk.Base.Outcome.{Outcome, ok, fault, ◌>>=◌}
use mlnsdk.Text.{codes, c_string}
use mlnsdk.Crash.{
  Module, Time, dump_path, file_name, target_directory, generated, create_directories,
}

pub data Dump : Type 0 where
  mini full : Dump

pub data Register : Type 0 where
  rax rbx rcx rdx rsi rdi rbp rsp r8 r9 r10 r11 r12 r13 r14 r15 rip : Register

-- `EXCEPTION_POINTERS`
pub record Pointers : Type 0 where
  pub code : ℕ
  pub context : Register → ℕ

-- A frame that `StackWalk` finds: the symbol at its address with its start, or the error, and the
-- source lines of addresses.
pub record Frame : Type 0 where
  pub pc : ℕ
  pub symbol : Option (List ℕ × ℕ)
  pub error : ℕ
  pub line_of : ℕ → Option (List ℕ × ℕ)

-- `stack_pointer` is the context's after the walk, which may change it.
pub record System : Type 0 where
  pub library : Bool
  pub creates : List ℕ → Bool
  pub dump_function : Bool
  pub dumps : Bool
  pub symbols : Bool
  pub host : List ℕ
  pub dump_time : Time
  pub date : Time
  pub stack_time : Time
  pub note_time : Time
  pub process : ℕ
  pub thread : ℕ
  pub frames : List Frame
  pub stack_pointer : ℕ
  pub memory : ℕ → ℕ

pub data Entry : Type 0 where
  blank : Entry
  date_line : Time → Entry
  process_line thread_line exception_line line_line : ℕ → Entry
  registers : Register → ℕ → Register → ℕ → Entry
  known_frame : ℕ → List ℕ → ℕ → Entry
  unknown_frame : ℕ → ℕ → Entry
  file_line : List ℕ → Entry
  stack_line : ℕ → ℕ → Entry
  row : ℕ → List ℕ → Entry

pub data Effect : Type 0 where
  made_directory opened : List ℕ → Effect
  dumped : Dump → Effect
  wrote : Entry → Effect
  noted : Effect
  closed symbols_ready symbols_cleaned : Effect
  terminated : ℕ → Effect

-- The static members, and the handlers that are installed.
pub data Trap : Type 0 where
  seh pure_call invalid_parameter sigabrt sigint sigterm : Trap
  terminate unexpected sigfpe sigill sigsegv : Trap

pub record Settings : Type 0 where
  pub dump_path : List ℕ
  pub filename : List ℕ
  pub dump_func : Option Dump
  pub installed : List Trap

unfoldable pub set_process_exception_handlers : List Trap
set_process_exception_handlers =
    seh ∷ pure_call ∷ invalid_parameter ∷ sigabrt ∷ sigint ∷ sigterm ∷ []

unfoldable pub set_thread_exception_handlers : List Trap
set_thread_exception_handlers = terminate ∷ unexpected ∷ sigfpe ∷ sigill ∷ sigsegv ∷ []

unfoldable pub init : Option (List ℕ) → Option (List ℕ) → Bool → Module → Outcome Settings
unfolding set_process_exception_handlers set_thread_exception_handlers
init root header is_full_dump m = do
  path ← dump_path root m
  ok (record {
    dump_path = path;
    filename = file_name header m;
    dump_func = some (if is_full_dump then full else mini);
    installed = set_process_exception_handlers ++ set_thread_exception_handlers;
  })

-- `generate_filename`: the directories that it makes, and the path of the file.
unfoldable pub generate_filename : List ℕ → List ℕ → Settings → System → Time → List Effect × List ℕ
generate_filename header ext s y t =
    let root = c_string s.dump_path in
    let target = target_directory root t in
    (
      (elim (create_directories (suc (length target)) 0 target) [
        | none ↦ []
        | some paths ↦ map made_directory paths
      ]),
      generated header ext root (c_string s.filename) y.host t,
    )

abbrev pub dump_name : Dump → List ℕ
dump_name mini = codes "MiniDump"
dump_name full = codes "FullDump"

-- `CreateMiniDump` and `CreateFullDump`. After a failure the file stays open.
unfoldable pub create_dump : Dump → Settings → System → List Effect
unfolding generate_filename
create_dump kind s y =
    if not y.library
    then []
    else (let (made, path) = generate_filename (dump_name kind) (codes "dmp") s y y.dump_time in
        made
        ++ (if y.creates path
            then opened path
              ∷ (if y.dump_function
                  then (if y.dumps then dumped kind ∷ closed ∷ [] else [])
                  else [])
            else []))

-- The loop over `lineIdx`, with the tries that are left.
unfoldable pub find_line : ℕ → ℕ → Frame → Option (List ℕ × ℕ)
find_line zero index f = none
find_line (suc left) index f = elim (f.line_of (sub_uint64 f.pc index)) [
  | some line ↦ some line
  | none ↦ find_line left (index + 1) f
]

abbrev pub line_entries : Option (List ℕ × ℕ) → List Entry
line_entries none = []
line_entries (some (file, number)) = file_line file ∷ line_line number ∷ []

-- The image names are printed to the buffer and not written.
unfoldable pub frame_entries : Frame → List Entry
unfolding find_line
frame_entries f =
    (elim f.symbol [
      | some (name, start) ↦ known_frame f.pc name (sub_uint64 f.pc start % 2 ^ 32)
      | none ↦ unknown_frame f.pc f.error
    ])
    ∷ line_entries (find_line 512 0 f)

-- The loop over `walkIdx`, from the address of the last frame.
unfoldable pub walk : ℕ → ℕ → List Frame → List Entry
walk zero pc frames = []
walk (suc left) pc [] = []
walk (suc left) pc (f ∷ frames) =
    let rest = frame_entries f ++ walk left f.pc frames in if pc == 0 then [] else rest

-- `n` bytes of the stack, and `n` rows of 16.
unfoldable pub bytes_at : ℕ → ℕ → (ℕ → ℕ) → List ℕ
bytes_at zero address memory = []
bytes_at (suc n) address memory = memory address ∷ bytes_at n (to_uint64 (address + 1)) memory

unfoldable pub rows : ℕ → ℕ → (ℕ → ℕ) → List Entry
unfolding bytes_at
rows zero address memory = []
rows (suc n) address memory =
    row address (bytes_at 16 address memory) ∷ rows n (to_uint64 (address + 16)) memory

abbrev pub register_entries : (Register → ℕ) → List Entry
register_entries c =
    registers rax (c rax) rbx (c rbx)
    ∷ registers rcx (c rcx) rdx (c rdx)
    ∷ registers rsi (c rsi) rdi (c rdi)
    ∷ registers rbp (c rbp) rsp (c rsp)
    ∷ registers r8 (c r8) r9 (c r9)
    ∷ registers r10 (c r10) r11 (c r11)
    ∷ registers r12 (c r12) r13 (c r13)
    ∷ registers r14 (c r14) r15 (c r15)
    ∷ []

unfoldable pub report : Pointers → System → List Entry
report p y =
    date_line y.date
    ∷ process_line y.process
    ∷ thread_line y.thread
    ∷ blank
    ∷ exception_line p.code
    ∷ blank
    ∷ (register_entries p.context
        ++ blank
          ∷ (walk 512 (p.context rip) y.frames
              ++ blank
                ∷ stack_line y.stack_pointer (to_uint64 (y.stack_pointer + 512))
                ∷ rows 32 y.stack_pointer y.memory))

-- `MyStackWalk`
unfoldable pub my_stack_walk : Pointers → Settings → System → List Effect
unfolding generate_filename
my_stack_walk p s y =
    if not y.symbols
    then []
    else (let (made, path) = generate_filename (codes "StackDump") (codes "txt") s y y.stack_time in
        symbols_ready
        ∷ (made
            ++ (if y.creates path
                then opened path ∷ (map wrote (report p y) ++ symbols_cleaned ∷ closed ∷ [])
                else [])))

-- `MyStackWalk` on the pointers that a handler passes on. It opens the file, and then reads what they
-- point to.
unfoldable pub walked : Option Pointers → Settings → System → Outcome (List Effect)
unfolding my_stack_walk generate_filename
walked (some p) s y = ok (my_stack_walk p s y)
walked none s y =
    if not y.symbols
    then ok []
    else (let (made, path) = generate_filename (codes "StackDump") (codes "txt") s y y.stack_time in
        if y.creates path then fault else ok (symbols_ready ∷ made))
