-- ===== src/Service/Common/Rounding.antt =====
-- netCommonObjects.hpp: what the calls of onUpdate add up to.
use mlnsdk.Base.{
  ℕ, ◌+◌, ◌-◌, ◌*◌, ◌/◌, ◌^◌, ◌≤◌, ◌<◌, ◌≡◌, refl, ◌∙◌, ap, true, false, some, List, [], ◌∷◌,
  length, arith,
}
use mlnsdk.Base.Outcome.{ok, ◌>>=◌}
use mlnsdk.Service.Receiver.{Callback, invoked}
use mlnsdk.Service.Common.{NetCommonObjects, elapsed, handle_update, updates}

-- The times do not go back from `t` on and stay below 2 ^ 63.
abbrev pub Ascending : ℕ → List ℕ → Type 0
Ascending t [] = Unit
Ascending t (u ∷ us) = (t ≤ u) × (u < 2 ^ 63) × Ascending u us

abbrev pub last : ℕ → List ℕ → ℕ
last t [] = t
last t (u ∷ us) = last u us

-- The sum of the times that onUpdate was given.
abbrev pub total : List (Callback × ℕ) → ℕ
total [] = 0
total ((c, e) ∷ told) = e + total told

elapsed_lem : (now prev : ℕ) → prev ≤ now → now < 2 ^ 63 → elapsed now prev ≡ (now - prev) / 1000000
unfolding elapsed
elapsed_lem now prev h k = ground arith

module _ {P : Type 0} (c : Callback) where
  -- The service after one round.
  abbrev told_at : ℕ → NetCommonObjects P → NetCommonObjects P
  told_at t n = record n {
    prev_time = t;
    told = (c, elapsed t n.prev_time) ∷ n.told;
    waiting = true;
  }

  handle_update-bound :
      (t : ℕ) (n : NetCommonObjects P)
      → n.event_receiver.on_update ≡ some c
      → handle_update false t n ≡ ok (told_at t n)
  unfolding handle_update
  handle_update-bound t n bound =
      ap
        (λ o. invoked o >>= λ k.
          ok (record n {
            prev_time = t;
            told = (k, elapsed t n.prev_time) ∷ n.told;
            waiting = true;
          }))
        bound

  -- If onUpdate is bound and the timer fires without errors at times that do not go back and stay below
  -- 2 ^ 63, handleUpdate returns each time and calls onUpdate once; the milliseconds that it is given add
  -- up to no more than the time that went by, and fall short of it by at most one each.
  pub updates_lem :
      (times : List ℕ) (n : NetCommonObjects P)
      → n.event_receiver.on_update ≡ some c
      → Ascending n.prev_time times
      → (n' : NetCommonObjects P) × (updates times n ≡ ok n')
        × (n'.prev_time ≡ last n.prev_time times)
        × (length n'.told ≡ length n.told + length times)
        × (total n'.told * 1000000 + n.prev_time ≤ total n.told * 1000000 + n'.prev_time)
        × (total n.told * 1000000 + n'.prev_time
            ≤ (total n'.told + length times) * 1000000 + n.prev_time)
  unfolding updates
  updates_lem [] n bound a = (n, refl, refl, omega arith, omega arith, omega arith)
  updates_lem (t ∷ ts) n bound a =
      let (n', ran, at, count, low, high) = updates_lem ts (told_at t n) bound a.2 in
      let e = elapsed_lem t n.prev_time a.0 a.1 in
      (
        n',
        ap (λ o. o >>= updates ts) (handle_update-bound t n bound) ∙ ran,
        at,
        omega arith,
        omega arith,
        omega arith,
      )
