-- ===== src/RentalPool/Lending.antt =====
-- How often an item of rentalItemPool.hpp is lent.
use mlnsdk.Base.{ℕ, zero, suc, ◌+◌, ◌*◌, ◌≡◌, ap, ◌∙◌, List, [], ◌∷◌, arith}
use mlnsdk.RentalPool.{Pool, lend, get_item, create_item, drop_rental, release_item, lend_times}

-- A pool with nothing in it, `made` items having been made.
abbrev pub pool : ℕ → Pool
pool made = record { items = []; made = made }

-- Every item twice.
unfoldable pub twice_each : ℕ → ℕ → List ℕ
twice_each s zero = []
twice_each s (suc n) = s ∷ s ∷ twice_each (suc s) n

two_rounds :
    (n made : ℕ)
    → lend_times (suc (suc n)) (pool made)
      ≡ ((lend_times n (pool (suc made))).0, made ∷ made ∷ (lend_times n (pool (suc made))).1)
unfolding lend_times get_item lend create_item drop_rental release_item
two_rounds n made =
    ap (λ k. ((lend_times n (pool k)).0, made ∷ made ∷ (lend_times n (pool k)).1)) {x = made + 1}
      {y = suc made} (omega arith)

-- From an empty pool, 2 * n rentals, each dropped before the next is got, make n items, lend each
-- of them twice in a row and leave the pool empty.
pub lent_twice :
    (n made : ℕ) → lend_times (n * 2) (pool made) ≡ (pool (made + n), twice_each made n)
unfolding twice_each lend_times
lent_twice zero made = ap (λ k. (pool k, [])) {x = made} {y = made + 0} (omega arith)
lent_twice (suc n) made =
    ap (λ k. lend_times k (pool made)) {x = suc n * 2} {y = suc (suc (n * 2))} (omega arith)
    ∙ two_rounds (n * 2) made
    ∙ ap (λ r. (r.0, made ∷ made ∷ r.1)) (lent_twice n (suc made))
    ∙ ap (λ k. (pool k, made ∷ made ∷ twice_each (suc made) n)) {x = suc made + n}
        {y = made + suc n} (omega arith)
