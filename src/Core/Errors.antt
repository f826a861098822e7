-- ===== src/Core/Errors.antt =====
-- crates/tx5-core/src/error.rs: errors that are handed on.
use tx.Base.{◌≡◌, refl, List, [], ◌∷◌}
use tx.Core.{Error, IoError, tx5, other, into_io, from_io, from_io_ref, err_clone, error_err_clone}

-- The ways in which an `io::Error` is handed on as one.
pub data Hop : Type 0 where
  cloned : Hop
  converted : Hop
  converted_ref : Hop
  cloned_inside : Hop

abbrev pub hop : Hop → IoError → IoError
hop cloned e = err_clone e
hop converted e = into_io (from_io e)
hop converted_ref e = into_io (from_io_ref e)
hop cloned_inside e = error_err_clone (from_io e)

abbrev pub handed : List Hop → IoError → IoError
handed [] e = e
handed (h ∷ hops) e = handed hops (hop h e)

hop_tx5 : (h : Hop) (x : Error) → hop h (tx5 x) ≡ tx5 x
unfolding err_clone from_io from_io_ref into_io error_err_clone
hop_tx5 cloned x = refl
hop_tx5 converted x = refl
hop_tx5 converted_ref x = refl
hop_tx5 cloned_inside x = refl

handed_tx5 : (hops : List Hop) (x : Error) → handed hops (tx5 x) ≡ tx5 x
handed_tx5 [] x = refl
handed_tx5 (h ∷ hops) x = rw (hop_tx5 h x) (handed_tx5 hops x)

hop_first : (h : Hop) (e : IoError) → hop h e ≡ tx5 (from_io e)
unfolding err_clone from_io from_io_ref into_io error_err_clone
hop_first cloned (tx5 x) = refl
hop_first converted (tx5 x) = refl
hop_first converted_ref (tx5 x) = refl
hop_first cloned_inside (tx5 x) = refl
hop_first cloned (other t) = refl
hop_first converted (other t) = refl
hop_first converted_ref (other t) = refl
hop_first cloned_inside (other t) = refl

-- However often and in whatever ways an error is cloned or converted, at least once, what comes out is
-- the `Error` that one conversion makes of it: the same identifier and information if it was one, and
-- otherwise the identifier "Error" with its text as the information.
pub handed_on :
    (h : Hop) (hops : List Hop) (e : IoError) → handed (h ∷ hops) e ≡ into_io (from_io e)
unfolding into_io
handed_on h hops e = rw (hop_first h e) (handed_tx5 hops (from_io e))
