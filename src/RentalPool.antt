-- ===== src/RentalPool.antt =====
-- include/net/container/rentalItemPool.hpp: items that are lent and come back when the last pointer
-- to the rental goes. An item is its number in the order of creation; the calls are taken one at a
-- time, as the mutex makes them.
pub mod Lending
use mlnsdk.Base.{
  ℕ, zero, suc, ◌+◌, ◌≡◌, refl, ◌&&◌, Bool, true, false, Option, none, some, List, [], ◌∷◌, ◌++◌,
  ◌==◌, if◌then◌else◌,
}

-- `RentalItem`: `releases` is whether `_releaseFunction` is set.
pub record Rental : Type 0 where
  pub item : ℕ
  pub reusable : Bool
  pub releases : Bool

-- `RentalItemPool`, with the number of items made.
pub record Pool : Type 0 where
  pub items : List ℕ
  pub made : ℕ

unfoldable pub create_item : Pool → Pool × Rental
create_item p =
    (record p { made = p.made + 1 }, record { item = p.made; reusable = true; releases = true })

-- `getItem`: a rental of an item that was in the pool gets no release function.
unfoldable pub lend : List ℕ → Pool → Pool × Rental
unfolding create_item
lend [] p = create_item p
lend (item ∷ items) p =
    (record p { items = items }, record { item = item; reusable = true; releases = false })

unfoldable pub get_item : Pool → Pool × Rental
unfolding lend
get_item p = lend p.items p

-- `releaseItem`; none is a null pointer.
unfoldable pub release_item : Option ℕ → Pool → Pool × Bool
release_item none p = (p, false)
release_item (some item) p = (record p { items = p.items ++ item ∷ [] }, true)

-- `~RentalItem`
unfoldable pub drop_rental : Rental → Pool → Pool
drop_rental r p = if r.reusable && r.releases then (release_item (some r.item) p).0 else p

-- A rental that is got and dropped at once, `n` times over; the items that were lent.
unfoldable pub lend_times : ℕ → Pool → Pool × List ℕ
lend_times zero p = (p, [])
lend_times (suc n) p =
    let (p', r) = get_item p in
    let (p'', lent) = lend_times n (drop_rental r p') in (p'', r.item ∷ lent)
