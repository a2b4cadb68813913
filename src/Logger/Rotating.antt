-- ===== src/Logger/Rotating.antt =====
-- The logger of a chain of calls beside that of `InitRotate`.
use mlnsdk.Base.{
  ℕ, ◌<◌, ◌^◌, ◌≡◌, refl, ap, ◌∙◌, Bool, true, false, some, List, if◌then◌else◌, lt→leb, not, ◌&&◌,
}
use mathlib.Core.List.{reverse}
use mlnsdk.Base.Outcome.{Outcome, ok, thrown, fault}
use mlnsdk.Logger.{
  trace, log_pattern_default, Initializer, Unset, create_initializer, Call, apply_all, Made, done,
  init_rotate,
}
use mlnsdk.Logger.Building.{
  last, name_in, flush_in, console_lv_in, console_pattern_in, base_in, size_in, files_in,
  file_lv_in, file_pattern_in, described, configured_lem,
}

-- The sinks in the other order.
abbrev pub turned : Outcome Made → Outcome Made
turned (ok m) = ok (record m { sinks = reverse m.sinks })
turned thrown = thrown
turned fault = fault

-- A chain of calls that sets what `InitRotate` takes, and leaves the levels and patterns at its own.
pub record SetsAll (cs : List Call) (name base : List ℕ) (size files sec : ℕ) : Type 0 where
  pub named : last name_in cs ≡ some name
  pub flushed : last flush_in cs ≡ some sec
  pub console_level : last console_lv_in cs ≡ some trace
  pub console_patterned : last console_pattern_in cs ≡ some log_pattern_default
  pub based : last base_in cs ≡ some base
  pub sized : last size_in cs ≡ some size
  pub counted : last files_in cs ≡ some files
  pub file_level : last file_lv_in cs ≡ some trace
  pub file_patterned : last file_pattern_in cs ≡ some log_pattern_default

-- The configuration that `InitRotate` amounts to.
abbrev rotating : List ℕ → List ℕ → ℕ → ℕ → ℕ → Initializer
rotating name base size files sec = record {
  global = record { logger_name = name; flush_every_sec = sec };
  console = record { lv = trace; pattern = log_pattern_default; in_use = true };
  file = record {
    file_name_base = base;
    max_file_size = size;
    max_files = files;
    lv = trace;
    pattern = log_pattern_default;
    in_use = true;
  };
}

described_all :
    (cs : List Call) (u : Unset) (name base : List ℕ) (size files sec : ℕ)
    → SetsAll cs name base size files sec
    → described cs u ≡ rotating name base size files sec
described_all cs u name base size files sec a =
    rw
      (
        a.named, a.flushed, a.console_level, a.console_patterned, a.based, a.sized, a.counted,
        a.file_level, a.file_patterned,
      )
      refl

by_test :
    (t : Bool) (x y : Made)
    → x ≡ record y { sinks = reverse y.sinks }
    → (if true && not t then thrown else ok x) ≡ turned (if t then ok y else thrown)
by_test true x y e = ap (λ m. ok m) e
by_test false x y e = refl

done-rotating :
    (opens : List ℕ → ℕ → ℕ → Bool) (opens_basic : List ℕ → Bool) (name base : List ℕ)
    (size files sec : ℕ)
    → sec < 2 ^ 31
    → done opens opens_basic (rotating name base size files sec)
      ≡ turned (init_rotate opens opens_basic name base size files sec)
unfolding done init_rotate
done-rotating opens opens_basic name base size files sec small =
    by_test (opens base size files) _ _ (rw (lt→leb (2 ^ 31) sec small) refl)

-- If in a chain of calls on Create the last of each kind give a name, a base, a size, a number of
-- files and a period below 2 ^ 31, and leave the levels and patterns at the logger's own, then
-- done makes the logger that InitRotate makes for these, with the sinks in the other order, or
-- throws as it does; earlier calls, their order and the members that are left unset have no part
-- in it.
pub builder_rotates :
    (opens : List ℕ → ℕ → ℕ → Bool) (opens_basic : List ℕ → Bool) (cs : List Call) (u : Unset)
    (name base : List ℕ) (size files sec : ℕ)
    → SetsAll cs name base size files sec
    → sec < 2 ^ 31
    → done opens opens_basic (apply_all cs (create_initializer u))
      ≡ turned (init_rotate opens opens_basic name base size files sec)
builder_rotates opens opens_basic cs u name base size files sec a small =
    ap (done opens opens_basic)
      (configured_lem cs u ∙ described_all cs u name base size files sec a)
    ∙ done-rotating opens opens_basic name base size files sec small
