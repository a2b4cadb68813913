-- ===== src/Crash/Effects.antt =====
-- What is left of the effects of a dump and of a stack report.
use mlnsdk.Base.{
  ℕ, ◌≡◌, refl, sym, ap, ap₂, ◌∙◌, Bool, true, false, not, ◌&&◌, none, some, List, [], ◌∷◌, ◌++◌,
  map, append_assoc, append-nil, if◌then◌else◌, length, suc,
}
use mlnsdk.Text.{codes, c_string}
use mlnsdk.Crash.{Time, create_directories, target_directory}
use mlnsdk.Crash.Reports.{
  Dump, Pointers, System, Entry, Effect, made_directory, opened, dumped, wrote, noted, closed,
  symbols_ready, symbols_cleaned, terminated, Settings, generate_filename, dump_name, create_dump,
  report, my_stack_walk,
}
use mlnsdk.Crash.Traps.{parameter_note}

-- What is kept of a list of effects.
abbrev pub collect {ℓ} : {A : Type ℓ} → (Effect → List A) → List Effect → List A
collect f [] = []
collect f (e ∷ es) = f e ++ collect f es

abbrev pub dump_in : Effect → List Dump
dump_in (dumped kind) = kind ∷ []
dump_in _ = []

abbrev pub entry_in : Effect → List Entry
entry_in (wrote entry) = entry ∷ []
entry_in _ = []

abbrev pub end_in : Effect → List ℕ
end_in (terminated code) = code ∷ []
end_in _ = []

-- The dumps, the lines of reports and the ends of the process.
abbrev pub dumps_in : List Effect → List Dump
dumps_in = collect dump_in

abbrev pub entries_in : List Effect → List Entry
entries_in = collect entry_in

abbrev pub ends_in : List Effect → List ℕ
ends_in = collect end_in

pub collect-append {ℓ} :
    {A : Type ℓ} (f : Effect → List A) (es fs : List Effect)
    → collect f (es ++ fs) ≡ collect f es ++ collect f fs
collect-append f [] fs = refl
collect-append f (e ∷ es) fs =
    ap (λ x. f e ++ x) (collect-append f es fs)
    ∙ sym (append_assoc (f e) (collect f es) (collect f fs))

-- What nothing but dumps, lines and ends leaves.
pub record IsQuiet {ℓ} {A : Type ℓ} (f : Effect → List A) : Type ℓ where
  pub directory : (path : List ℕ) → f (made_directory path) ≡ []
  pub open_file : (path : List ℕ) → f (opened path) ≡ []
  pub close_file : f closed ≡ []
  pub ready : f symbols_ready ≡ []
  pub cleaned : f symbols_cleaned ≡ []
  pub note : f noted ≡ []

pub dump_in-IsQuiet : IsQuiet dump_in
dump_in-IsQuiet = record {
  directory = λ path. refl;
  open_file = λ path. refl;
  close_file = refl;
  ready = refl;
  cleaned = refl;
  note = refl;
}

pub entry_in-IsQuiet : IsQuiet entry_in
entry_in-IsQuiet = record {
  directory = λ path. refl;
  open_file = λ path. refl;
  close_file = refl;
  ready = refl;
  cleaned = refl;
  note = refl;
}

pub end_in-IsQuiet : IsQuiet end_in
end_in-IsQuiet = record {
  directory = λ path. refl;
  open_file = λ path. refl;
  close_file = refl;
  ready = refl;
  cleaned = refl;
  note = refl;
}

collect-directories {ℓ} :
    {A : Type ℓ} (f : Effect → List A) (paths : List (List ℕ))
    → IsQuiet f
    → collect f (map made_directory paths) ≡ []
collect-directories f [] h = refl
collect-directories f (p ∷ ps) h = ap₂ (λ x z. x ++ z) (h.directory p) (collect-directories f ps h)

collect-made {ℓ} :
    {A : Type ℓ} (f : Effect → List A) (header ext : List ℕ) (s : Settings) (y : System) (t : Time)
    → IsQuiet f
    → collect f (generate_filename header ext s y t).0 ≡ []
unfolding generate_filename
collect-made f header ext s y t h =
    elim (create_directories (suc (length (target_directory (c_string s.dump_path) t))) 0
        (target_directory (c_string s.dump_path) t))
      as (λ x. collect f (elim x [ none ↦ [] | some paths ↦ map made_directory paths ]) ≡ []) [
        | none ↦ refl
        | some paths ↦ collect-directories f paths h
      ]

pub entries_in-wrote : (es : List Entry) → entries_in (map wrote es) ≡ es
entries_in-wrote [] = refl
entries_in-wrote (e ∷ es) = ap (λ x. e ∷ x) (entries_in-wrote es)

-- Where the files go.
abbrev pub dump_file : Dump → Settings → System → List ℕ
dump_file kind s y = (generate_filename (dump_name kind) (codes "dmp") s y y.dump_time).1

abbrev pub stack_file : Settings → System → List ℕ
stack_file s y = (generate_filename (codes "StackDump") (codes "txt") s y y.stack_time).1

-- Whether a dump is written, and a report.
abbrev pub dump_works : Dump → Settings → System → Bool
dump_works kind s y = y.library && (y.creates (dump_file kind s y) && (y.dump_function && y.dumps))

abbrev pub report_works : Settings → System → Bool
report_works s y = y.symbols && y.creates (stack_file s y)

-- A dump and a stack report by what succeeds.
abbrev dump_by : Bool → Bool → Bool → Bool → List Effect → List ℕ → Dump → List Effect
dump_by library creates function works made path kind =
    if not library
    then []
    else made
      ++ (if creates
          then opened path
            ∷ (if function then (if works then dumped kind ∷ closed ∷ [] else []) else [])
          else [])

abbrev report_by : Bool → Bool → List Effect → List ℕ → List Entry → List Effect
report_by symbols creates made path es =
    if not symbols
    then []
    else symbols_ready
      ∷ (made
          ++ (if creates
              then opened path ∷ (map wrote es ++ symbols_cleaned ∷ closed ∷ [])
              else []))

collect-dump_by {ℓ} :
    {A : Type ℓ} (f : Effect → List A) (l c d w : Bool) (made : List Effect) (path : List ℕ)
    (kind : Dump)
    → collect f made ≡ []
    → f (opened path) ≡ []
    → f closed ≡ []
    → collect f (dump_by l c d w made path kind)
      ≡ (if l && (c && (d && w)) then f (dumped kind) else [])
collect-dump_by f false c d w made path kind m o e = refl
collect-dump_by f true false d w made path kind m o e =
    collect-append f made [] ∙ ap (λ x. x ++ []) m
collect-dump_by f true true false w made path kind m o e =
    collect-append f made (opened path ∷ []) ∙ ap₂ (λ x z. x ++ (z ++ [])) m o
collect-dump_by f true true true false made path kind m o e =
    collect-append f made (opened path ∷ []) ∙ ap₂ (λ x z. x ++ (z ++ [])) m o
collect-dump_by f true true true true made path kind m o e =
    collect-append f made (opened path ∷ dumped kind ∷ closed ∷ [])
    ∙ ap₂ (λ x z. x ++ (z ++ (f (dumped kind) ++ (f closed ++ [])))) m o
    ∙ ap (λ x. f (dumped kind) ++ (x ++ [])) e
    ∙ append-nil (f (dumped kind))

collect-report_by {ℓ} :
    {A : Type ℓ} (f : Effect → List A) (l c : Bool) (made : List Effect) (path : List ℕ)
    (es : List Entry)
    → collect f made ≡ []
    → f (opened path) ≡ []
    → f closed ≡ []
    → f symbols_ready ≡ []
    → f symbols_cleaned ≡ []
    → collect f (report_by l c made path es) ≡ (if l && c then collect f (map wrote es) else [])
collect-report_by f false c made path es m o e r k = refl
collect-report_by f true false made path es m o e r k =
    ap₂ (λ x z. x ++ z) r (collect-append f made [] ∙ ap (λ x. x ++ []) m)
collect-report_by f true true made path es m o e r k =
    let tail = map wrote es ++ symbols_cleaned ∷ closed ∷ [] in
    ap₂ (λ x z. x ++ z) r
      (collect-append f made (opened path ∷ tail) ∙ ap₂ (λ x z. x ++ (z ++ collect f tail)) m o)
    ∙ collect-append f (map wrote es) (symbols_cleaned ∷ closed ∷ [])
    ∙ ap₂ (λ x z. collect f (map wrote es) ++ (x ++ (z ++ []))) k e
    ∙ append-nil (collect f (map wrote es))

-- What a dump and a stack report leave together.
pub collect-reports {ℓ} :
    {A : Type ℓ} (f : Effect → List A) (kind : Dump) (p : Pointers) (s : Settings) (y : System)
    → IsQuiet f
    → collect f (create_dump kind s y ++ my_stack_walk p s y)
      ≡ (if dump_works kind s y then f (dumped kind) else [])
        ++ (if report_works s y then collect f (map wrote (report p y)) else [])
unfolding create_dump my_stack_walk
collect-reports f kind p s y q =
    let made = generate_filename (codes "StackDump") (codes "txt") s y y.stack_time in
    collect-append f (create_dump kind s y) (my_stack_walk p s y)
    ∙ ap₂ (λ x z. x ++ z)
        (collect-dump_by f y.library (y.creates (dump_file kind s y)) y.dump_function y.dumps
          (generate_filename (dump_name kind) (codes "dmp") s y y.dump_time).0 (dump_file kind s y)
          kind (collect-made f (dump_name kind) (codes "dmp") s y y.dump_time q)
          (q.open_file (dump_file kind s y)) q.close_file)
        (collect-report_by f y.symbols (y.creates (stack_file s y)) made.0 (stack_file s y)
          (report p y) (collect-made f (codes "StackDump") (codes "txt") s y y.stack_time q)
          (q.open_file (stack_file s y)) q.close_file q.ready q.cleaned)

pub collect-note {ℓ} :
    {A : Type ℓ} (f : Effect → List A) (s : Settings) (y : System)
    → IsQuiet f
    → collect f (parameter_note s y) ≡ []
unfolding parameter_note
collect-note f s y q =
    let made = generate_filename (codes "InvalidParamDump") (codes "txt") s y y.note_time in
    collect-append f made.0 (if y.creates made.1 then opened made.1 ∷ noted ∷ closed ∷ [] else [])
    ∙ ap₂ (λ x z. x ++ z)
        (collect-made f (codes "InvalidParamDump") (codes "txt") s y y.note_time q)
        (elim (y.creates made.1)
          as (λ b. collect f (if b then opened made.1 ∷ noted ∷ closed ∷ [] else []) ≡ []) [
            | true ↦
                ap₂ (λ x z. x ++ z) (q.open_file made.1)
                  (ap₂ (λ x z. x ++ (z ++ [])) q.note q.close_file)
            | false ↦ refl
          ])
