-- ===== src/GoPion/GoBuf.antt =====
-- crates/tx5-go-pion/src/go_buf.rs: a buffer of the Go library, held by its handle. An action on the
-- library's state gives the new state and a result. That a `GoBuf` is not used after it is dropped,
-- nor while it is borrowed, is up to the caller, as in Rust.
pub mod Model
pub mod Calls
pub mod Agreement
pub mod Refines
use tx.Base.{ℕ, zero, suc, ◌+◌, List, [], ◌∷◌, ◌++◌, Result, ok, err, length, drop}
use tx.Core.{Text, IoError, other, to_string, err_clone}
use tx.Sys.Library.{Library, Runtime}
use tx.Sys.Api.{IoResult, Unit0, Callback}
use tx.Sys.Calls.{
  buffer_alloc, buffer_free, buffer_access, buffer_reserve, buffer_extend, buffer_read,
}

abbrev pub Action : Type 0 → Type 0
Action A = Library → Library × IoResult A

infixl 5 ◌>>=◌ ◌>>◌
abbrev pub after : {A B : Type 0} → Library × IoResult A → (A → Action B) → Library × IoResult B
after (l, ok a) f = f a l
after (l, err e) f = (l, err e)

abbrev pub ◌>>=◌ : {A B : Type 0} → Action A → (A → Action B) → Action B
◌>>=◌ m f l = after (m l) f

abbrev pub ◌>>◌ : {A B : Type 0} → Action A → Action B → Action B
m >> k = m >>= λ _. k

abbrev pub pure : {A : Type 0} → A → Action A
pure a l = (l, ok a)

-- `?` on a result that is there.
abbrev pub from_result : {A : Type 0} → IoResult A → Action A
from_result r l = (l, r)

abbrev pub map_error :
    {A : Type 0} → (IoError → IoError) → Library × IoResult A → Library × IoResult A
map_error f (l, ok a) = (l, ok a)
map_error f (l, err e) = (l, err (f e))

-- `map_err(std::io::Error::other)` wraps the error as one that is not an `Error`, with its text.
abbrev pub wrapped : {A : Type 0} → Action A → Action A
wrapped m l = map_error (λ e. other (to_string e)) (m l)

-- `GoBufRef`: an owned buffer, or the error of making it, or a borrowed buffer.
pub data GoBufRef : Type 0 where
  owned : IoResult ℕ → GoBufRef
  borrowed : ℕ → GoBufRef

unfoldable pub as_mut_ref : GoBufRef → IoResult ℕ
as_mut_ref (owned (ok b)) = ok b
as_mut_ref (owned (err e)) = err (err_clone e)
as_mut_ref (borrowed b) = ok b

abbrev pub total : List (List ℕ) → ℕ
total [] = 0
total (buf ∷ bufs) = length buf + total bufs

module _ (rt : Runtime) where
  unfoldable pub new : Action ℕ
  new = buffer_alloc rt

  -- `Drop::drop`.
  unfoldable pub drop_buf : ℕ → Library → Library
  drop_buf = buffer_free rt

  unfoldable pub reserve : ℕ → ℕ → Action Unit0
  reserve = buffer_reserve rt

  -- `place` is the address of the bytes.
  unfoldable pub extend : ℕ → ℕ → List ℕ → Action Unit0
  extend = buffer_extend rt

  abbrev pub on_data : {A : Type 0} → Callback (List ℕ) A → Callback (ℕ × List ℕ) A
  on_data cb (ok (_, bytes)) l = cb (ok bytes) l
  on_data cb (err e) l = cb (err e) l

  unfoldable pub access : {A : Type 0} → ℕ → Callback (List ℕ) A → Action A
  access id cb = buffer_access rt id (on_data cb)

  -- A `GoBuf` that is not returned is dropped.
  abbrev pub extended : ℕ → Library × IoResult Unit0 → Library × IoResult ℕ
  extended b (l, ok _) = (l, ok b)
  extended b (l, err e) = (drop_buf b l, err e)

  unfoldable pub from_slice : ℕ → List ℕ → Action ℕ
  from_slice place r = do b ← new; λ l. extended b (extend place b r l)

  unfoldable pub try_clone : ℕ → ℕ → Action ℕ
  try_clone place id = do
    out ← new
    λ l. extended out (access id (λ bytes. from_result bytes >>= extend place out) l)

  unfoldable pub len : ℕ → Action ℕ
  len id = access id λ bytes. from_result bytes >>= λ b. pure (length b)

  unfoldable pub mut_clone : ℕ → ℕ → Action ℕ
  mut_clone place id = access id λ bytes. from_result bytes >>= from_slice place

  unfoldable pub to_vec : ℕ → Action (List ℕ)
  to_vec id = access id λ bytes. from_result bytes

  -- `serde_json::from_slice`, with the errors' texts, is the parameter `from_json`.
  unfoldable pub as_json : {D : Type 0} → (List ℕ → IoResult D) → ℕ → Action D
  as_json from_json id = access id λ bytes. from_result bytes >>= λ b. from_result (from_json b)

  -- The bytes read stand at the front of the caller's slice.
  abbrev pub copied : List ℕ → Callback (List ℕ) (ℕ × List ℕ)
  copied buf (ok bytes) l = (l, ok (length bytes, bytes ++ drop (length bytes) buf))
  copied buf (err e) l = (l, err e)

  -- `Read::read`.
  unfoldable pub read : ℕ → List ℕ → Action (ℕ × List ℕ)
  read id buf = wrapped (buffer_read rt id (length buf) (copied buf))

  -- `Write::write`, and `write_all` with `flush`.
  unfoldable pub write : ℕ → ℕ → List ℕ → Action ℕ
  write place id buf = do wrapped (extend place id buf); pure (length buf)

  unfoldable pub write_all : ℕ → ℕ → List ℕ → Action Unit0
  write_all place id buf = wrapped (extend place id buf)

  abbrev pub extend_each : ℕ → ℕ → List (List ℕ) → Action Unit0
  extend_each place id [] = pure tt
  extend_each place id (buf ∷ bufs) = do wrapped (extend place id buf); extend_each place id bufs

  -- `Write::write_vectored`.
  unfoldable pub write_vectored : ℕ → ℕ → List (List ℕ) → Action ℕ
  write_vectored place id bufs = do
    let len = total bufs
    wrapped (reserve id len)
    extend_each place id bufs
    pure len
