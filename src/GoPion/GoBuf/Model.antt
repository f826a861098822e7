-- ===== src/GoPion/GoBuf/Model.antt =====
-- crates/tx5-go-pion/src/go_buf.rs: what a `GoBuf` promises, a vector of bytes. A store holds the vectors
-- of the buffers that are not dropped, without handles' values, slots, pointers and responses.
use tx.Base.{
  ℕ, ◌+◌, List, [], ◌∷◌, ◌++◌, Option, none, some, ok, err, if◌then◌else◌, length, take, drop, find,
  remove,
}
use tx.Core.{IoError, tx5, other, error_id, to_string}
use tx.Sys.Library.{Library, Runtime, too_large}
use tx.Sys.Api.{IoResult, Unit0}
use tx.GoPion.GoBuf

abbrev pub Bytes : Type 0
Bytes = List ℕ

pub record Store : Type 0 where
  pub next : ℕ
  pub bufs : List (ℕ × Bytes)

pub data Op : Type 0 where
  new : Op
  from_slice : Bytes → Op
  drop_buf : ℕ → Op
  try_clone : ℕ → Op
  mut_clone : ℕ → Op
  len : ℕ → Op
  to_vec : ℕ → Op
  reserve : ℕ → ℕ → Op
  extend : ℕ → Bytes → Op
  read : ℕ → Bytes → Op
  write : ℕ → Bytes → Op
  write_all : ℕ → Bytes → Op
  write_vectored : ℕ → List Bytes → Op

pub data Out : Type 0 where
  number : IoResult ℕ → Out
  contents : IoResult Bytes → Out
  done : IoResult Unit0 → Out
  was_read : IoResult (ℕ × Bytes) → Out
  dropped : Out

abbrev pub out : {A : Type 0} → (IoResult A → Out) → Library × IoResult A → Library × Out
out f (l, r) = (l, f r)

-- An operation of the code.
unfoldable pub perform : Runtime → ℕ → Op → Library → Library × Out
perform rt place new l = out number (GoBuf.new rt l)
perform rt place (from_slice r) l = out number (GoBuf.from_slice rt place r l)
perform rt place (drop_buf id) l = (GoBuf.drop_buf rt id l, dropped)
perform rt place (try_clone id) l = out number (GoBuf.try_clone rt place id l)
perform rt place (mut_clone id) l = out number (GoBuf.mut_clone rt place id l)
perform rt place (len id) l = out number (GoBuf.len rt id l)
perform rt place (to_vec id) l = out contents (GoBuf.to_vec rt id l)
perform rt place (reserve id add) l = out done (GoBuf.reserve rt id add l)
perform rt place (extend id add) l = out done (GoBuf.extend rt place id add l)
perform rt place (read id buf) l = out was_read (GoBuf.read rt id buf l)
perform rt place (write id buf) l = out number (GoBuf.write rt place id buf l)
perform rt place (write_all id buf) l = out done (GoBuf.write_all rt place id buf l)
perform rt place (write_vectored id bufs) l = out number (GoBuf.write_vectored rt place id bufs l)

abbrev pub put_bytes : ℕ → Bytes → Store → Store
put_bytes id bytes s = record s { bufs = (id, bytes) ∷ remove id s.bufs }

abbrev pub if_live : {A B : Type 0} → Option A → (A → Option B) → Option B
if_live none k = none
if_live (some a) k = k a

abbrev pub store_out :
    {A B : Type 0} → (IoResult B → Out) → (A → B) → Store × IoResult A → Store × Out
store_out f g (s, ok a) = (s, f (ok (g a)))
store_out f g (s, err e) = (s, f (err e))

abbrev pub same : {A : Type 0} → A → A
same a = a

module _ (rt : Runtime) where
  -- A buffer that cannot hold so many bytes.
  abbrev pub full : IoError
  full = tx5 (record { id = rt.lossy error_id; info = rt.lossy (rt.panic_text too_large) })

  abbrev pub full_wrapped : IoError
  full_wrapped = other (to_string full)

  -- A new buffer with these bytes; its number is used up though they do not fit.
  abbrev pub made : Bytes → Store → Store × Out
  made bytes s =
      if rt.fits (length bytes)
      then (record { next = s.next + 1; bufs = (s.next, bytes) ∷ s.bufs }, number (ok s.next))
      else (record s { next = s.next + 1 }, number (err full))

  abbrev pub appended : {A : Type 0} → ℕ → Bytes → Bytes → IoError → A → Store → Store × IoResult A
  appended id bytes add e a s =
      if rt.fits (length bytes + length add)
      then (put_bytes id (bytes ++ add) s, ok a)
      else (s, err e)

  -- What is written until the first part that does not fit.
  abbrev pub appended_each : ℕ → Bytes → List Bytes → Store → Store × IoResult Unit0
  appended_each id bytes [] s = (s, ok tt)
  appended_each id bytes (buf ∷ bufs) s =
      let rest = appended_each id (bytes ++ buf) bufs (put_bytes id (bytes ++ buf) s) in
      if rt.fits (length bytes + length buf) then rest else (s, err full_wrapped)

  -- The operation on a vector; `none` for a buffer that was never made or is dropped.
  unfoldable pub spec : Op → Store → Option (Store × Out)
  spec new s = some (record { next = s.next + 1; bufs = (s.next, []) ∷ s.bufs }, number (ok s.next))
  spec (from_slice r) s = some (made r s)
  spec (drop_buf id) s =
      if_live (find id s.bufs) λ bytes. some (record s { bufs = remove id s.bufs }, dropped)
  spec (try_clone id) s = if_live (find id s.bufs) λ bytes. some (made bytes s)
  spec (mut_clone id) s = if_live (find id s.bufs) λ bytes. some (made bytes s)
  spec (len id) s = if_live (find id s.bufs) λ bytes. some (s, number (ok (length bytes)))
  spec (to_vec id) s = if_live (find id s.bufs) λ bytes. some (s, contents (ok bytes))
  spec (reserve id add) s =
      if_live (find id s.bufs)
        λ bytes. some (s, done (if rt.fits (length bytes + add) then ok tt else err full))
  spec (extend id add) s =
      if_live (find id s.bufs) λ bytes. some (store_out done same (appended id bytes add full tt s))
  spec (read id buf) s = if_live (find id s.bufs) λ bytes.
      let front = take (length buf) bytes in
      some (
        put_bytes id (drop (length buf) bytes) s,
        was_read (ok (length front, front ++ drop (length front) buf)),
      )
  spec (write id buf) s =
      if_live (find id s.bufs)
        λ bytes. some (store_out number same (appended id bytes buf full_wrapped (length buf) s))
  spec (write_all id buf) s =
      if_live (find id s.bufs)
        λ bytes. some (store_out done same (appended id bytes buf full_wrapped tt s))
  spec (write_vectored id bufs) s = if_live (find id s.bufs) λ bytes.
      if rt.fits (length bytes + GoBuf.total bufs)
      then some (store_out number (λ _. GoBuf.total bufs) (appended_each id bytes bufs s))
      else some (s, number (err full_wrapped))
