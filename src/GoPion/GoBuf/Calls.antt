-- ===== src/GoPion/GoBuf/Calls.antt =====
-- crates/tx5-go-pion/src/go_buf.rs with the library's buffer.go: what each call does to the handles.
use tx.Base.{
  ℕ, ◌+◌, ◌≡◌, refl, ap, false, [], ◌∷◌, ◌++◌, some, ok, err, if◌then◌else◌, ◌==◌, suc, length,
  take, drop, find, remove, arith, ==_refl, Bool-cases, inl, inr, take-length_append, append-nil,
  subst,
}
use tx.Core.{error_id, tx5}
use tx.Sys.Library.{
  call_buffer_free, recovered, silent, Library, Runtime, Value, buffer, put, new_handle, go_call,
  at, access_message, read_message, panic_message, Panic,
}
use tx.Sys.{from_raw_parts}
use tx.Sys.Api.{Callback, call, decoded, error_of}
use tx.Sys.Calls.{
  buffer_alloc, buffer_free, buffer_access, buffer_reserve, buffer_extend, buffer_read, accessed,
  was_read,
}
use tx.GoPion.GoBuf
use tx.GoPion.GoBuf.Model.{Bytes, full}

abbrev pub open_buffer : Bytes → Value
open_buffer bytes = buffer (record { closed = false; buf = bytes })

take_all : (xs : Bytes) → take (length xs) xs ≡ xs
take_all xs = subst (λ t. take (length xs) t ≡ xs) (append-nil xs) (take-length_append xs [])

pub at_read : (place : ℕ) (xs : Bytes) → from_raw_parts (at place xs) place (length xs) ≡ xs
at_read place xs = rw (==_refl place) (take_all xs)

suc_not_zero : (n : ℕ) → (suc n == 0) ≡ false
suc_not_zero n = ground arith

access_decoded :
    {A : Type 0} (rt : Runtime) (id : ℕ) (bytes : Bytes) (cb : Callback Bytes A) (l : Library)
    → accessed rt (GoBuf.on_data rt cb) (decoded rt (access_message rt.place id bytes)) l
      ≡ cb (ok bytes) l
access_decoded rt id [] cb l = refl
access_decoded rt id (x ∷ xs) cb l =
    rw (suc_not_zero (length xs)) (ap (λ t. cb (ok t) l) (at_read rt.place (x ∷ xs)))

read_decoded :
    {A : Type 0} (rt : Runtime) (bytes : Bytes) (cb : Callback Bytes A) (l : Library)
    → was_read rt cb (decoded rt (read_message rt.place bytes)) l ≡ cb (ok bytes) l
read_decoded rt [] cb l = refl
read_decoded rt (x ∷ xs) cb l =
    rw (suc_not_zero (length xs)) (ap (λ t. cb (ok t) l) (at_read rt.place (x ∷ xs)))

apart : (n : ℕ) → (n + 5 == n) ≡ false
apart n = ground arith

panic_error :
    (rt : Runtime) (p : Panic)
    → error_of rt (panic_message rt p)
      ≡ tx5 (record { id = rt.lossy error_id; info = rt.lossy (rt.panic_text p) })
panic_error rt p =
    rw (==_refl rt.place, apart rt.place, ==_refl (rt.place + 5))
      (ap (λ t. tx5 (record { id = rt.lossy error_id; info = rt.lossy t }))
        (take_all (rt.panic_text p)))

module _ (rt : Runtime) (l : Library) (id : ℕ) (bytes : Bytes)
    (live : find id l.handles ≡ some (open_buffer bytes)) where
  freed : call_buffer_free id l ≡ (record l { handles = remove id l.handles }, silent)
  freed = rw live refl

  pub drop_buf_live : GoBuf.drop_buf rt id l ≡ record l { handles = remove id l.handles }
  unfolding GoBuf.drop_buf buffer_free go_call
  drop_buf_live = ap (λ r. (recovered rt false r).0) freed

  pub access_live : {A : Type 0} (cb : Callback Bytes A) → GoBuf.access rt id cb l ≡ cb (ok bytes) l
  unfolding GoBuf.access buffer_access call go_call
  access_live cb = rw live (access_decoded rt id bytes cb l)

  pub reserve_live :
      (add : ℕ)
      → GoBuf.reserve rt id add l
        ≡ (l, if rt.fits (length bytes + add) then ok tt else err (full rt))
  unfolding GoBuf.reserve buffer_reserve call go_call
  reserve_live add = rw live (elim (Bool-cases (rt.fits (length bytes + add))) [
    | inl t ↦ rw t refl
    | inr f ↦ rw f (ap (λ e. (l, err e)) (panic_error rt Panic.too_large))
  ])

  pub extend_live :
      (place : ℕ) (add : Bytes)
      → GoBuf.extend rt place id add l ≡ (
          if rt.fits (length bytes + length add)
          then (put id (open_buffer (bytes ++ add)) l, ok tt)
          else (l, err (full rt)))
  unfolding GoBuf.extend buffer_extend call go_call
  extend_live place add =
      rw (live, at_read place add)
        (elim (Bool-cases (rt.fits (length bytes + length add))) [
          | inl t ↦ rw t refl
          | inr f ↦ rw f (ap (λ e. (l, err e)) (panic_error rt Panic.too_large))
        ])

  pub read_live :
      (buf : Bytes)
      → GoBuf.read rt id buf l ≡ (
          let front = take (length buf) bytes in
          (
            put id (open_buffer (drop (length buf) bytes)) l,
            ok (length front, front ++ drop (length front) buf),
          ))
  unfolding GoBuf.read buffer_read call go_call
  read_live buf =
      rw live
        (ap (GoBuf.map_error _) (read_decoded rt (take (length buf) bytes) (GoBuf.copied rt buf) _))

zero_add : (n : ℕ) → 0 + n ≡ n
zero_add n = omega arith

module _ (rt : Runtime) (l : Library) where
  newest : find l.next (new_handle (open_buffer []) l).handles ≡ some (open_buffer [])
  newest = rw (==_refl l.next) refl

  -- A new buffer with its bytes, or none, if they do not fit.
  pub from_slice_eq :
      (place : ℕ) (bytes : Bytes)
      → GoBuf.from_slice rt place bytes l ≡ (
          let l' = new_handle (open_buffer []) l in
          if rt.fits (length bytes)
          then (put l.next (open_buffer bytes) l', ok l.next)
          else (record l' { handles = remove l.next l'.handles }, err (full rt)))
  unfolding GoBuf.from_slice GoBuf.new buffer_alloc call go_call
  from_slice_eq place bytes =
      rw
        (
          extend_live rt (new_handle (open_buffer []) l) l.next [] newest place bytes,
          zero_add (length bytes),
        )
        (elim (Bool-cases (rt.fits (length bytes))) [
          | inl t ↦ rw t refl
          | inr f ↦ rw (f, drop_buf_live rt (new_handle (open_buffer []) l) l.next [] newest) refl
        ])

  module _ (id : ℕ) (bytes : Bytes) (live : find id l.handles ≡ some (open_buffer bytes)) where
    pub mut_clone_eq :
        (place : ℕ) → GoBuf.mut_clone rt place id l ≡ GoBuf.from_slice rt place bytes l
    unfolding GoBuf.mut_clone
    mut_clone_eq place = access_live rt l id bytes live _

    pub try_clone_eq :
        (place : ℕ)
        → (l.next == id) ≡ false
        → GoBuf.try_clone rt place id l ≡ GoBuf.from_slice rt place bytes l
    unfolding GoBuf.try_clone GoBuf.from_slice GoBuf.new buffer_alloc call go_call
    try_clone_eq place older =
        ap (GoBuf.extended rt l.next)
          (access_live rt (new_handle (open_buffer []) l) id bytes (rw older live) _)

    pub to_vec_eq : GoBuf.to_vec rt id l ≡ (l, ok bytes)
    unfolding GoBuf.to_vec
    to_vec_eq = access_live rt l id bytes live _

    pub len_eq : GoBuf.len rt id l ≡ (l, ok (length bytes))
    unfolding GoBuf.len
    len_eq = access_live rt l id bytes live _
