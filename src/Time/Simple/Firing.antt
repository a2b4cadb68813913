-- ===== src/Time/Simple/Firing.antt =====
-- How often the jobs of simpleScheduler.h are called.
use mlnsdk.Base.{
  ℕ, zero, suc, ◌+◌, ◌-◌, ◌*◌, ◌/◌, ◌^◌, ◌≤◌, ◌<◌, ◌≡◌, sym, ap, ◌∙◌, true, false, if◌then◌else◌,
  arith, to_uint64, sub_uint64,
}
use mlnsdk.Time.Simple.{Entry, new_entry, update_entry}
use native.Mathlib.Nat.{mul-le-mul_right, add-div_right, div-eq_of_lt, zero-add}

-- How often a job is called in `n` rounds of the timer.
unfoldable pub called : ℕ → ℕ → Entry → ℕ
called increment zero e = 0
called increment (suc n) e =
    let (e', due) = update_entry increment e in (if due then 1 else 0) + called increment n e'

-- A job of `w` increments, with `k` of them left.
abbrev counting : ℕ → ℕ → ℕ → ℕ → ℕ → Entry
counting increment id callback w k = record {
  id = id;
  interval = w * increment;
  remain = k * increment;
  callback = callback;
}

sub_uint64-add : (x inc : ℕ) → x + inc < 2 ^ 63 → sub_uint64 (x + inc) inc ≡ x
sub_uint64-add x inc h = omega arith

-- A due entry starts its interval again; another one loses an increment.
update-due :
    (e : Entry) (inc : ℕ)
    → inc < 2 ^ 63
    → e.remain ≡ inc
    → update_entry inc e ≡ (record e { remain = e.interval }, true)
unfolding update_entry
update-due e inc h eq = rw eq (ground arith)

update-waits :
    (e : Entry) (inc x : ℕ)
    → 0 < x
    → x + inc < 2 ^ 63
    → e.remain ≡ x + inc
    → update_entry inc e ≡ (record e { remain = x }, false)
unfolding update_entry
update-waits e inc x p h eq = rw eq (rw (sub_uint64-add x inc h) (ground arith))

fits-below : (k w inc : ℕ) → k < w → k * inc + inc ≤ w * inc
fits-below k w inc h = omega (arith, mul-le-mul_right inc h)

next-multiple : (n w : ℕ) → 0 < w → (suc n + (w - 1)) / w ≡ 1 + (n + (w - w)) / w
next-multiple n w h =
    ap (λ x. x / w) {x = suc n + (w - 1)} {y = n + (w - w) + w} (omega arith)
    ∙ add-div_right (n + (w - w)) h
    ∙ omega arith

-- In `n` rounds a job with `suc k` of its `w` increments left is called as often as `w` goes into
-- the `n` rounds and the rounds that have passed.
called-counting :
    (inc id cb w n k : ℕ)
    → 0 < inc
    → w * inc < 2 ^ 63
    → k < w
    → called inc n (counting inc id cb w (suc k)) ≡ (n + (w - suc k)) / w
unfolding called
called-counting inc id cb w zero k pos fits h = sym (div-eq_of_lt (omega arith))
called-counting inc id cb zero (suc n) zero pos fits h = elim h [ ]
called-counting inc id cb (suc w) (suc n) zero pos fits h =
    rw
      (
        update-due (counting inc id cb (suc w) 1) inc (omega (arith, fits-below 0 (suc w) inc h))
            (omega arith),
        next-multiple n (suc w) h,
      )
      (ap (λ x. 1 + x) (called-counting inc id cb (suc w) n w pos fits (omega arith)))
called-counting inc id cb w (suc n) (suc k) pos fits h =
    rw
      (update-waits (counting inc id cb w (suc (suc k))) inc (suc k * inc) (omega arith)
        (omega (arith, fits-below (suc k) w inc h)) (omega arith))
      (zero-add (called inc n (counting inc id cb w (suc k)))
        ∙ called-counting inc id cb w n k pos fits (omega arith)
        ∙ ap (λ x. x / w) {x = n + (w - suc k)} {y = suc n + (w - suc (suc k))} (omega arith))

abbrev entry_of : ℕ → ℕ → ℕ → Entry
entry_of id cb x = record { id = id; interval = x; remain = x; callback = cb }

-- A job that AddJobInterval makes for every w increments, where w and the increment are above 0
-- and w increments fit in an int64_t, is called n / w times (rounded down) in its first n rounds,
-- for every n.
pub called-new_entry :
    (inc id wait_count cb n : ℕ)
    → 0 < inc
    → 0 < wait_count
    → wait_count * inc < 2 ^ 63
    → called inc n (new_entry id inc wait_count cb) ≡ n / wait_count
called-new_entry inc id zero cb n pos h fits = elim h [ ]
called-new_entry inc id (suc w) cb n pos h fits =
    ap (λ x. called inc n (entry_of id cb x)) {x = to_uint64 (suc w * inc)} {y = suc w * inc}
      (omega arith)
    ∙ called-counting inc id cb (suc w) n w pos fits (omega arith)
    ∙ ap (λ x. x / suc w) {x = n + (suc w - suc w)} {y = n} (omega arith)
