-- ===== src/Service/Net/Tables.antt =====
-- What the tables of netService.hpp hold after a service was created.
use mlnsdk.Base.{
  ℕ, zero, suc, ◌+◌, ◌-◌, ◌≡◌, refl, ap, ◌∙◌, Bool, true, false, Option, none, some, List, [], ◌∷◌,
  ◌++◌, append-nil, if◌then◌else◌, length, replicate, arith,
}
use mlnsdk.Base.Outcome.{ok}
use mlnsdk.Service.Acceptor.{Acceptor, new_acceptor, accept_wait}
use mlnsdk.Service.Net.{
  Services, AcceptorParams, resize, slot, set_slot, keep_ioc, count_threads, add_worker_threads,
  place_acceptor, open_slot, create_tcp_acceptor, create_acceptor, get_acceptor,
}

resize_one : {V : Type 0} → (xs : List (Option V)) → resize (length xs + 1) xs ≡ xs ++ none ∷ []
unfolding resize
resize_one xs =
    ap (λ k. xs ++ replicate k none) {x = length xs + 1 - length xs} {y = 1} (omega arith)

slot-snoc :
    {V : Type 0} → (x : Option V) (xs : List (Option V)) → slot (length xs) (xs ++ x ∷ []) ≡ x
unfolding slot
slot-snoc x [] = refl
slot-snoc x (y ∷ ys) = slot-snoc x ys

set_slot-snoc :
    {V : Type 0}
    → (v : V) (xs : List (Option V)) → set_slot (length xs) v (xs ++ none ∷ []) ≡ xs ++ some v ∷ []
unfolding set_slot
set_slot-snoc v [] = refl
set_slot-snoc v (y ∷ ys) = ap (λ zs. y ∷ zs) (set_slot-snoc v ys)

-- The tables with one more acceptor, whose workers run if it was started.
abbrev pub with_acceptor : Acceptor → Bool → AcceptorParams → Services → Services
with_acceptor a started p s = record s {
  ioc = keep_ioc s.ioc (some p.service_ioc);
  acceptors = s.acceptors ++ some a ∷ [];
  threads = if started then s.threads + p.workers else s.threads;
}

kept_ioc : (i : Option ℕ) (k : ℕ) → (ioc : ℕ) × (keep_ioc i (some k) ≡ some ioc)
unfolding keep_ioc
kept_ioc none k = (k, refl)
kept_ioc (some ioc) k = (ioc, refl)

place-lem :
    (p : AcceptorParams) (a : Acceptor) (started : Bool) (s : Services)
    (xs : List (Option Acceptor))
    → place_acceptor
        (length xs)
        p.workers
        (a, started)
        (record s { ioc = keep_ioc s.ioc (some p.service_ioc); acceptors = xs ++ none ∷ [] })
      ≡ ok (with_acceptor a started p (record s { acceptors = xs }))
unfolding place_acceptor add_worker_threads count_threads keep_ioc
place-lem p a false s xs = rw (set_slot-snoc a xs) refl
place-lem p a true s xs =
    let (ioc, kept) = kept_ioc s.ioc p.service_ioc in rw kept (rw (set_slot-snoc a xs) refl)

-- If acceptWait returns for the new acceptor, with true or with false, createAcceptor appends the
-- acceptor to the table, sets the io_context if there is none, and starts the workers only if
-- acceptWait returned true; getAcceptor at the new index then gives the acceptor, also where
-- acceptWait returned false.
pub create_acceptor_lem :
    (p : AcceptorParams) (a : Acceptor) (started : Bool) (s : Services)
    → accept_wait p.tcp_port p.web_port (new_acceptor p.keep_alive_time p.update_time)
      ≡ ok (a, started)
    → (create_acceptor p s ≡ ok (with_acceptor a started p s))
      × (get_acceptor (length s.acceptors) (with_acceptor a started p s) ≡ some a)
unfolding create_acceptor create_tcp_acceptor get_acceptor open_slot
create_acceptor_lem p a started s e = (
  rw (resize_one s.acceptors)
      (rw (slot-snoc none s.acceptors) (rw e (place-lem p a started s s.acceptors))),
  slot-snoc (some a) s.acceptors,
)

resize_known :
    {V : Type 0}
    → (n : ℕ) (v : V) (xs : List (Option V)) → slot n xs ≡ some v
    → resize (n + 1) xs ≡ xs
unfolding slot resize
resize_known n v [] h = cc
resize_known zero v (x ∷ xs) h =
    ap (λ k. x ∷ (xs ++ replicate k none)) {x = 0 + 1 - suc (length xs)} {y = 0} (omega arith)
    ∙ ap (λ ys. x ∷ ys) (append-nil xs)
resize_known (suc n) v (x ∷ xs) h =
    ap (λ k. x ∷ (xs ++ replicate k none)) {x = suc n + 1 - suc (length xs)} {y = n + 1 - length xs}
      (omega arith)
    ∙ ap (λ ys. x ∷ ys) (resize_known n v xs h)

-- Where an io_context is set and an acceptor stands at the index, createTcpAcceptor for that index
-- changes nothing, whatever its parameters.
pub create_again :
    (index : ℕ) (p : AcceptorParams) (a : Acceptor) (ioc : ℕ) (s : Services)
    → s.ioc ≡ some ioc
    → slot index s.acceptors ≡ some a
    → create_tcp_acceptor index p s ≡ ok s
unfolding create_tcp_acceptor open_slot keep_ioc
create_again index p a ioc s i e =
    let same : keep_ioc s.ioc (some p.service_ioc) ≡ s.ioc = rw i refl in
    ap {A = Services} (λ t. open_slot index p (slot index t.acceptors) t)
      (λ k. record s { ioc = same k; acceptors = resize_known index a s.acceptors e k })
    ∙ ap (λ q. open_slot index p q s) {x = slot index s.acceptors} {y = some a} e
