-- ===== src/Ep/Ready.antt =====
-- crates/tx5/src/sig.rs: the cell that a `Sig` and its task share, and the methods of `Sig` that look at
-- it. `E` is a `DynBackEp`, and a caller of `ready` is a number.
pub mod Waits
use tx.Base.{
  ℕ, Bool, true, false, List, [], ◌∷◌, Option, none, some, Result, ok, err, ◌==◌, if◌then◌else◌,
}
use tx.Url.{UrlCanon, to_peer}
use tx.Url.Crates.{UrlCrates}

pub data MaybeReady (E : Type 0) : Type 0 where
  ready : E → MaybeReady E
  wait : MaybeReady E

-- `Error::other("not ready")`.
pub data ConnectError : Type 0 where
  not_ready : ConnectError

-- The mutex' content; whether the semaphore of `Wait` is closed; the callers of `ready` that have cloned
-- its handle, and those that wait in `acquire`. It never has a permit.
pub record Cell (E : Type 0) : Type 0 where
  pub maybe_ready : MaybeReady E
  pub closed : Bool
  pub holding : List ℕ
  pub waiting : List ℕ

-- The list without one occurrence of an element that it has.
unfoldable pub take_one : ℕ → List ℕ → Option (List ℕ)
take_one w [] = none
take_one w (v ∷ vs) =
    let rest = take_one w vs in
    if v == w then some vs else elim rest [ some r ↦ some (v ∷ r) | none ↦ none ]

module _ {E : Type 0} where
  -- `Sig::new`.
  abbrev pub new : Cell E
  new = record { maybe_ready = wait; closed = false; holding = []; waiting = [] }

  -- A step gives the cell and the callers of `ready` that return in it.
  abbrev pub looked : Cell E → ℕ → MaybeReady E → Cell E × List ℕ
  looked s w (ready e) = (s, w ∷ [])
  looked s w wait = (record s { holding = w ∷ s.holding }, [])

  -- `ready` up to the end of its match.
  unfoldable pub look : Cell E → ℕ → Cell E × List ℕ
  look s w = looked s w s.maybe_ready

  abbrev pub acquired : Cell E → ℕ → Option (List ℕ) → Cell E × List ℕ
  acquired s w none = (s, [])
  acquired s w (some rest) =
      if s.closed
      then (record s { holding = rest }, w ∷ [])
      else (record s { holding = rest; waiting = w ∷ s.waiting }, [])

  -- Its `w.acquire()`, of a caller that holds the semaphore.
  unfoldable pub acquire : Cell E → ℕ → Cell E × List ℕ
  acquire s w = acquired s w (take_one w s.holding)

  abbrev pub readied : Cell E → E → MaybeReady E → Cell E × List ℕ
  readied s e (ready old) = (record s { maybe_ready = ready e }, [])
  readied s e wait = (record s { maybe_ready = ready e; closed = true; waiting = [] }, s.waiting)

  -- In `task`: closes the semaphore, which ends what waits in `acquire`.
  unfoldable pub set_ready : Cell E → E → Cell E × List ℕ
  set_ready s e = readied s e s.maybe_ready

  abbrev pub connect_with : List ℕ → MaybeReady E → Result ConnectError (E × List ℕ)
  connect_with k (ready e) = ok (e, k)
  connect_with k wait = err not_ready

  -- The endpoint whose `connect` is called, with the key.
  unfoldable pub connect : Cell E → List ℕ → Result ConnectError (E × List ℕ)
  connect s k = connect_with k s.maybe_ready

  module _ ⦃crates : UrlCrates⦄ where
    abbrev pub url_with : UrlCanon → (E → List ℕ) → MaybeReady E → Option UrlCanon
    url_with sig_url pub_key (ready e) = some (to_peer sig_url (pub_key e))
    url_with sig_url pub_key wait = none

    unfoldable pub get_peer_url : UrlCanon → (E → List ℕ) → Cell E → Option UrlCanon
    get_peer_url sig_url pub_key s = url_with sig_url pub_key s.maybe_ready
