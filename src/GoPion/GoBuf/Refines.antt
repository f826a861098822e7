-- ===== src/GoPion/GoBuf/Refines.antt =====
-- crates/tx5-go-pion/src/go_buf.rs: a `GoBuf` keeps its promise, operation by operation and over a whole
-- history.
use tx.Base.{
  ℕ, ◌+◌, ◌≡◌, subst, refl, ap, List, [], ◌∷◌, ◌++◌, Option, none, some, ok, err, length, find,
  ==_refl, Bool-cases, Option-cases, inl, inr,
}
use tx.Sys.Library.{Library, Runtime, go_call}
use tx.Sys.Api.{IoResult, call}
use tx.Sys.Calls.{buffer_alloc}
use tx.Core.{to_string}
use tx.GoPion.GoBuf
use tx.GoPion.GoBuf.Model.{
  Bytes, Store, Op, Out, new, from_slice, drop_buf, try_clone, mut_clone, len, to_vec, reserve,
  extend, read, write, write_all, write_vectored, number, perform, spec, out, store_out, if_live,
  made, appended_each,
}
use tx.GoPion.GoBuf.Calls.{
  drop_buf_live, reserve_live, extend_live, read_live, from_slice_eq, mut_clone_eq, try_clone_eq,
  to_vec_eq, len_eq,
}
use tx.GoPion.GoBuf.Agreement.{
  Agrees, live_of, put-Agrees, remove-Agrees, new-Agrees, made-Agrees, unmade-Agrees, older,
}

abbrev Follows : Library × Out → Option (Store × Out) → Type 0
Follows (l, o) none = Unit
Follows (l, o) (some (s, p)) = Agrees l s × (o ≡ p)

-- Both sides of an operation that appends.
abbrev Both : {A : Type 0} → Library × IoResult A → Store × IoResult A → Type 0
Both (l, q) (s, p) = Agrees l s × (q ≡ p)

Both-out :
    {A B : Type 0} (f : IoResult B → Out) (g : A → B) (c : Library × IoResult A)
    (d : Store × IoResult A)
    → Both c d
    → Follows (out f (GoBuf.after c (λ a. GoBuf.pure (g a)))) (some (store_out f g d))
Both-out f g (l, ok a) (s, ok b) h = (h.0, cc (h.1))
Both-out f g (l, err a) (s, err b) h = (h.0, cc (h.1))
Both-out f g (l, ok a) (s, err b) h = absurd (cc (h.1))
Both-out f g (l, err a) (s, ok b) h = absurd (cc (h.1))

module _ (rt : Runtime) (place : ℕ) where
  made-Follows :
      {l : Library} {s : Store} (r : Agrees l s) (bytes : Bytes)
      → Follows (out number (GoBuf.from_slice rt place bytes l)) (some (made rt bytes s))
  made-Follows {l} {s} r bytes =
      rw (from_slice_eq rt l place bytes) (elim (Bool-cases (rt.fits (length bytes))) [
        | inl t ↦ rw t (made-Agrees r bytes, ap (λ n. number (ok n)) r.counted)
        | inr f ↦ rw f (unmade-Agrees r, refl)
      ])

  each-Both :
      (bufs : List Bytes) (id : ℕ) (bytes : Bytes) {l : Library} {s : Store} (r : Agrees l s)
      → find id s.bufs ≡ some bytes
      → Both (GoBuf.extend_each rt place id bufs l) (appended_each rt id bytes bufs s)
  each-Both [] id bytes r e = (r, refl)
  each-Both (buf ∷ bufs) id bytes {l} {s} r e =
      let r' = put-Agrees r id bytes (bytes ++ buf) e in
      rw (extend_live rt l id bytes (live_of r id bytes e) place buf)
        (elim (Bool-cases (rt.fits (length bytes + length buf))) [
          | inl t ↦ rw t (each-Both bufs id (bytes ++ buf) r' (rw (==_refl id) refl))
          | inr f ↦ rw f (r, refl)
        ])

  -- An operation on a buffer that is not live is nothing that Rust lets happen.
  live-Follows :
      {l : Library} {s : Store} (r : Agrees l s) (id : ℕ) (k : Bytes → Option (Store × Out))
      (c : Library × Out)
      → ((bytes : Bytes) → find id s.bufs ≡ some bytes → Follows c (k bytes))
      → Follows c (if_live (find id s.bufs) k)
  live-Follows {s} r id k c f = elim (Option-cases (find id s.bufs)) [
    | inl n ↦ rw n tt
    | inr (bytes, e) ↦ rw e (f bytes e)
  ]

  perform-Follows :
      {l : Library} {s : Store} (r : Agrees l s) (op : Op)
      → Follows (perform rt place op l) (spec rt op s)
  unfolding perform spec GoBuf.new buffer_alloc call go_call GoBuf.write GoBuf.write_all
      GoBuf.write_vectored to_string
  perform-Follows r new = (new-Agrees r, ap (λ n. number (ok n)) r.counted)
  perform-Follows r (from_slice bytes) = made-Follows r bytes
  perform-Follows {l} {s} r (drop_buf id) =
      live-Follows r id _ _ λ bytes e.
        rw (drop_buf_live rt l id bytes (live_of r id bytes e)) (remove-Agrees r id, refl)
  perform-Follows {l} {s} r (try_clone id) = live-Follows r id _ _ λ bytes e.
      rw (try_clone_eq rt l id bytes (live_of r id bytes e) place (older r id bytes e))
        (made-Follows r bytes)
  perform-Follows {l} {s} r (mut_clone id) =
      live-Follows r id _ _ λ bytes e.
        rw (mut_clone_eq rt l id bytes (live_of r id bytes e) place) (made-Follows r bytes)
  perform-Follows {l} {s} r (len id) =
      live-Follows r id _ _ λ bytes e. rw (len_eq rt l id bytes (live_of r id bytes e)) (r, refl)
  perform-Follows {l} {s} r (to_vec id) =
      live-Follows r id _ _ λ bytes e. rw (to_vec_eq rt l id bytes (live_of r id bytes e)) (r, refl)
  perform-Follows {l} {s} r (reserve id add) =
      live-Follows r id _ _
        λ bytes e. rw (reserve_live rt l id bytes (live_of r id bytes e) add) (r, refl)
  perform-Follows {l} {s} r (extend id add) = live-Follows r id _ _ λ bytes e.
      rw (extend_live rt l id bytes (live_of r id bytes e) place add)
        (elim (Bool-cases (rt.fits (length bytes + length add))) [
          | inl t ↦ rw t (put-Agrees r id bytes (bytes ++ add) e, refl)
          | inr f ↦ rw f (r, refl)
        ])
  perform-Follows {l} {s} r (read id buf) = live-Follows r id _ _ λ bytes e.
      rw (read_live rt l id bytes (live_of r id bytes e) buf) (put-Agrees r id bytes _ e, refl)
  perform-Follows {l} {s} r (write id buf) = live-Follows r id _ _ λ bytes e.
      rw (extend_live rt l id bytes (live_of r id bytes e) place buf)
        (elim (Bool-cases (rt.fits (length bytes + length buf))) [
          | inl t ↦ rw t (put-Agrees r id bytes (bytes ++ buf) e, refl)
          | inr f ↦ rw f (r, refl)
        ])
  perform-Follows {l} {s} r (write_all id buf) = live-Follows r id _ _ λ bytes e.
      rw (extend_live rt l id bytes (live_of r id bytes e) place buf)
        (elim (Bool-cases (rt.fits (length bytes + length buf))) [
          | inl t ↦ rw t (put-Agrees r id bytes (bytes ++ buf) e, refl)
          | inr f ↦ rw f (r, refl)
        ])
  perform-Follows {l} {s} r (write_vectored id bufs) = live-Follows r id _ _ λ bytes e.
      rw (reserve_live rt l id bytes (live_of r id bytes e) (GoBuf.total bufs))
        (elim (Bool-cases (rt.fits (length bytes + GoBuf.total bufs))) [
          | inl t ↦ rw t (Both-out number (λ _. GoBuf.total bufs) _ _ (each-Both bufs id bytes r e))
          | inr f ↦ rw f (r, refl)
        ])

-- A history of operations, each with the address of the bytes that it passes.
abbrev pub performed : Runtime → List (ℕ × Op) → Library → Library × List Out
performed rt [] l = (l, [])
performed rt ((place, op) ∷ ops) l =
    let (l', o) = perform rt place op l in let (l'', outs) = performed rt ops l' in (l'', o ∷ outs)

abbrev pub specified : Runtime → List (ℕ × Op) → Store → Option (Store × List Out)
specified rt [] s = some (s, [])
specified rt ((_, op) ∷ ops) s =
    if_live (spec rt op s) λ p. if_live (specified rt ops p.0) λ q. some (q.0, p.1 ∷ q.1)

-- Let the library and a store of vectors of bytes agree. A history of operations on buffers, none of
-- which is used after it is dropped, has the results that it has on the vectors, wherever the library
-- puts its bytes in memory: each call gives what the vector's operation gives, or the error of a
-- buffer that cannot hold so much. In the end the library has an open buffer for each vector that is
-- left, with its bytes, and no other.
pub performed-Agrees :
    (rt : Runtime) (ops : List (ℕ × Op)) {l : Library} {s : Store} (r : Agrees l s) (t : Store)
    (outs : List Out)
    → specified rt ops s ≡ some (t, outs)
    → Agrees (performed rt ops l).0 t × ((performed rt ops l).1 ≡ outs)
performed-Agrees rt [] {l} {s} r t outs e = let h : s ≡ t = cc in (subst (λ x. Agrees l x) h r, cc)
performed-Agrees rt ((place, op) ∷ ops) {l} {s} r t outs e = elim (Option-cases (spec rt op s)) [
  | inl n ↦ let z = (rw n at e) in absurd (cc z)
  | inr ((s', o), e1) ↦ elim (Option-cases (specified rt ops s')) [
    | inl n ↦ let z = (rw (e1, n) at e) in absurd (cc z)
    | inr ((s'', os), e2) ↦
        let f = (rw e1 at (perform-Follows rt place r op)) in
        let g = performed-Agrees rt ops f.0 s'' os e2 in
        let h = (rw (e1, e2) at e) in
        let a : s'' ≡ t = cc in
        let b : (o ∷ os) ≡ outs = cc in
        let c = f.1 in
        let d = g.1 in
        (subst (λ x. Agrees (performed rt ops (perform rt place op l).0).0 x) a g.0, cc (b, c, d))
  ]
]
