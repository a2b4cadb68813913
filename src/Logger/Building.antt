-- ===== src/Logger/Building.antt =====
-- What the calls on a logger's configuration come to.
use mlnsdk.Base.{ℕ, ◌≡◌, refl, ◌∙◌, Bool, true, false, Option, none, some, List, [], ◌∷◌}
use mlnsdk.Logger.{
  Level, trace, Initializer, Unset, create_initializer, pattern_or_default, Call, name_call,
  base_call, flush_call, size_call, files_call, console_lv_call, file_lv_call, console_pattern_call,
  file_pattern_call, apply, apply_all,
}

-- What a call gives, if it is of a kind.
abbrev pub name_in : Call → Option (List ℕ)
name_in (name_call name) = some name
name_in _ = none

abbrev pub flush_in : Call → Option ℕ
flush_in (flush_call sec) = some sec
flush_in _ = none

abbrev pub console_lv_in : Call → Option Level
console_lv_in (console_lv_call lv) = some lv
console_lv_in _ = none

abbrev pub console_pattern_in : Call → Option (List ℕ)
console_pattern_in (console_pattern_call p) = some (pattern_or_default p)
console_pattern_in _ = none

abbrev pub base_in : Call → Option (List ℕ)
base_in (base_call name) = some name
base_in _ = none

abbrev pub size_in : Call → Option ℕ
size_in (size_call n) = some n
size_in _ = none

abbrev pub files_in : Call → Option ℕ
files_in (files_call n) = some n
files_in _ = none

abbrev pub file_lv_in : Call → Option Level
file_lv_in (file_lv_call lv) = some lv
file_lv_in _ = none

abbrev pub file_pattern_in : Call → Option (List ℕ)
file_pattern_in (file_pattern_call p) = some (pattern_or_default p)
file_pattern_in _ = none

-- The last call of a kind decides.
abbrev pub last {ℓ} : {A : Type ℓ} → (Call → Option A) → List Call → Option A
last f [] = none
last f (c ∷ cs) = elim (last f cs) [ some a ↦ some a | none ↦ f c ]

abbrev pub or {ℓ} : {A : Type ℓ} → Option A → A → A
or none d = d
or (some a) d = a

abbrev pub is_some {ℓ} : {A : Type ℓ} → Option A → Bool
is_some none = false
is_some (some a) = true

-- The configuration that the last calls describe.
abbrev pub described : List Call → Unset → Initializer
described cs u = record {
  global = record {
    logger_name = or (last name_in cs) [];
    flush_every_sec = or (last flush_in cs) u.flush_every_sec;
  };
  console = record {
    lv = or (last console_lv_in cs) trace;
    pattern = or (last console_pattern_in cs) [];
    in_use = is_some (last console_lv_in cs);
  };
  file = record {
    file_name_base = or (last base_in cs) [];
    max_file_size = or (last size_in cs) u.max_file_size;
    max_files = or (last files_in cs) u.max_files;
    lv = or (last file_lv_in cs) trace;
    pattern = or (last file_pattern_in cs) [];
    in_use = is_some (last file_lv_in cs);
  };
}

-- The same, one call after the other.
abbrev last_or {ℓ} : {A : Type ℓ} → (Call → Option A) → List Call → A → A
last_or f [] d = d
last_or f (c ∷ cs) d = last_or f cs (or (f c) d)

abbrev true_if {ℓ} : {A : Type ℓ} → Option A → Bool → Bool
true_if none b = b
true_if (some a) b = true

abbrev used {ℓ} : {A : Type ℓ} → (Call → Option A) → List Call → Bool → Bool
used f [] b = b
used f (c ∷ cs) b = used f cs (true_if (f c) b)

last_or_lem {ℓ} :
    {A : Type ℓ} (f : Call → Option A) (cs : List Call) (d : A) → last_or f cs d ≡ or (last f cs) d
last_or_lem f [] d = refl
last_or_lem f (c ∷ cs) d =
    last_or_lem f cs (or (f c) d)
    ∙ elim (last f cs)
        as (λ l. or l (or (f c) d) ≡ or (elim l [ some a ↦ some a | none ↦ f c ]) d) [
          | some a ↦ refl
          | none ↦ refl
        ]

true_if_lem {ℓ} :
    {A : Type ℓ} (l x : Option A) (b : Bool)
    → true_if l (true_if x b) ≡ true_if (elim l [ some a ↦ some a | none ↦ x ]) b
true_if_lem none x b = refl
true_if_lem (some a) x b = refl

used_lem {ℓ} :
    {A : Type ℓ} (f : Call → Option A) (cs : List Call) (b : Bool)
    → used f cs b ≡ true_if (last f cs) b
used_lem f [] b = refl
used_lem f (c ∷ cs) b = used_lem f cs (true_if (f c) b) ∙ true_if_lem (last f cs) (f c) b

used-is_some {ℓ} :
    {A : Type ℓ} (f : Call → Option A) (cs : List Call) → used f cs false ≡ is_some (last f cs)
used-is_some f cs =
    used_lem f cs false
    ∙ elim (last f cs) as (λ l. true_if l false ≡ is_some l) [ some a ↦ refl | none ↦ refl ]

-- The configuration after calls, from any.
abbrev over : List Call → Initializer → Initializer
over cs i = record {
  global = record {
    logger_name = last_or name_in cs i.global.logger_name;
    flush_every_sec = last_or flush_in cs i.global.flush_every_sec;
  };
  console = record {
    lv = last_or console_lv_in cs i.console.lv;
    pattern = last_or console_pattern_in cs i.console.pattern;
    in_use = used console_lv_in cs i.console.in_use;
  };
  file = record {
    file_name_base = last_or base_in cs i.file.file_name_base;
    max_file_size = last_or size_in cs i.file.max_file_size;
    max_files = last_or files_in cs i.file.max_files;
    lv = last_or file_lv_in cs i.file.lv;
    pattern = last_or file_pattern_in cs i.file.pattern;
    in_use = used file_lv_in cs i.file.in_use;
  };
}

apply_all_lem : (cs : List Call) (i : Initializer) → apply_all cs i ≡ over cs i
unfolding apply_all
apply_all_lem [] i = refl
apply_all_lem (name_call name ∷ cs) i = apply_all_lem cs (apply (name_call name) i)
apply_all_lem (base_call name ∷ cs) i = apply_all_lem cs (apply (base_call name) i)
apply_all_lem (flush_call n ∷ cs) i = apply_all_lem cs (apply (flush_call n) i)
apply_all_lem (size_call n ∷ cs) i = apply_all_lem cs (apply (size_call n) i)
apply_all_lem (files_call n ∷ cs) i = apply_all_lem cs (apply (files_call n) i)
apply_all_lem (console_lv_call lv ∷ cs) i = apply_all_lem cs (apply (console_lv_call lv) i)
apply_all_lem (file_lv_call lv ∷ cs) i = apply_all_lem cs (apply (file_lv_call lv) i)
apply_all_lem (console_pattern_call p ∷ cs) i = apply_all_lem cs (apply (console_pattern_call p) i)
apply_all_lem (file_pattern_call p ∷ cs) i = apply_all_lem cs (apply (file_pattern_call p) i)

pub configured_lem :
    (cs : List Call) (u : Unset) → apply_all cs (create_initializer u) ≡ described cs u
unfolding create_initializer
configured_lem cs u =
    apply_all_lem cs (create_initializer u)
    ∙ rw
        (
          last_or_lem name_in cs [],
          last_or_lem flush_in cs u.flush_every_sec,
          last_or_lem console_lv_in cs trace,
          last_or_lem console_pattern_in cs [],
          used-is_some console_lv_in cs,
          last_or_lem base_in cs [],
          last_or_lem size_in cs u.max_file_size,
          last_or_lem files_in cs u.max_files,
          last_or_lem file_lv_in cs trace,
          last_or_lem file_pattern_in cs [],
          used-is_some file_lv_in cs,
        )
        refl
