-- ===== src/Procedure/Written.antt =====
-- What a session of session.hpp has handed to its socket, by its log.
use mlnsdk.Base.{ℕ, ◌≡◌, refl, ap, true, false, List, [], ◌∷◌, ◌++◌, ltb, if◌then◌else◌}
use mlnsdk.Packet.Websocket.{renewed}
use mlnsdk.Session.Types.{tcp, Effect, async_read, async_write, arm_keep_alive}

-- The bytes that were handed to the socket, the latest first.
abbrev pub writes : List Effect → List (List ℕ)
writes [] = []
writes (async_write bytes ∷ l) = bytes ∷ writes l
writes (_ ∷ l) = writes l

abbrev pub sending : List (List ℕ) → List Effect → List Effect
sending [] l = l
sending (bytes ∷ rs) l = async_write bytes ∷ sending rs l

pub writes-sending : (rs : List (List ℕ)) (l : List Effect) → writes (sending rs l) ≡ rs ++ writes l
writes-sending [] l = refl
writes-sending (bytes ∷ rs) l = ap (◌∷◌ bytes) (writes-sending rs l)

pub writes-renewed : (k : ℕ) (l : List Effect) → writes (renewed k (async_read tcp ∷ l)) ≡ writes l
writes-renewed k l =
    elim (ltb 0 k)
      as (λ t.
        writes (if t then arm_keep_alive k ∷ async_read tcp ∷ l else async_read tcp ∷ l)
        ≡ writes l) [ true ↦ refl | false ↦ refl ]
