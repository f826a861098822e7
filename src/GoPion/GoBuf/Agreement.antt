-- ===== src/GoPion/GoBuf/Agreement.antt =====
-- crates/tx5-go-pion/src/go_buf.rs: when the library and the store of vectors agree. A library and a store agree when each
-- open buffer's handle has the bytes that the store says, and no other handle is an open buffer.
use tx.Base.{
  subst, ℕ, ◌+◌, ◌≤◌, ◌≡◌, refl, sym, ap, ◌∙◌, Bool, true, false, List, [], ◌∷◌, Option, none, some,
  if◌then◌else◌, ◌==◌, find, remove, arith, ==_refl, ==_iff, Bool-cases, inl, inr, find-remove,
  find-remove_other,
}
use tx.Sys.Library.{Library, Value, buffer, other, put, new_handle}
use tx.GoPion.GoBuf.Model.{Bytes, Store, put_bytes}
use tx.GoPion.GoBuf.Calls.{open_buffer}

abbrev pub open_bytes : Option Value → Option Bytes
open_bytes none = none
open_bytes (some (other v)) = none
open_bytes (some (buffer b)) = if b.closed then none else some b.buf

pub record Agrees (l : Library) (s : Store) : Type 0 where
  pub counted : l.next ≡ s.next
  pub bytes_at : (id : ℕ) → open_bytes (find id l.handles) ≡ find id s.bufs
  pub unused : (id : ℕ) → s.next ≤ id → find id s.bufs ≡ none

open_inv :
    (o : Option Value) (bytes : Bytes) → open_bytes o ≡ some bytes → o ≡ some (open_buffer bytes)
open_inv none bytes h = cc
open_inv (some (other v)) bytes h = cc
open_inv (some (buffer b)) bytes h = ground arith

module _ {ℓ} {A : Type ℓ} (id k : ℕ) (m : List (ℕ × A)) where
  pub find-put : (a : A) → find k ((id, a) ∷ remove id m) ≡ (if id == k then some a else find k m)
  find-put a = elim (Bool-cases (id == k)) [
    | inl t ↦ rw t refl
    | inr f ↦ rw f (find-remove_other id k m f)
  ]

  pub find-remove_if : find k (remove id m) ≡ (if id == k then none else find k m)
  find-remove_if = elim (Bool-cases (id == k)) [
    | inl t ↦ rw (t, sym ((==_iff id k).0 t)) (find-remove id m)
    | inr f ↦ rw f (find-remove_other id k m f)
  ]

open_bytes_if :
    (b : Bool) (v : Option Value) (o : Option Value)
    → open_bytes (if b then v else o) ≡ (if b then open_bytes v else open_bytes o)
open_bytes_if true v o = refl
open_bytes_if false v o = refl

pub lt_ne : (a b : ℕ) → a + 1 ≤ b → (a == b) ≡ false
lt_ne a b h = ground arith

pub store-Agrees :
    {l : Library} {s : Store} (t : Store)
    → Agrees l s
    → s.next ≡ t.next
    → ((k : ℕ) → find k s.bufs ≡ find k t.bufs)
    → Agrees l t
store-Agrees t r n same = record {
  counted = r.counted ∙ n;
  bytes_at = λ k. r.bytes_at k ∙ same k;
  unused = λ k h. sym (same k) ∙ r.unused k (rw n h);
}

module _ {l : Library} {s : Store} (r : Agrees l s) where
  pub live_of :
      (id : ℕ) (bytes : Bytes)
      → find id s.bufs ≡ some bytes
      → find id l.handles ≡ some (open_buffer bytes)
  live_of id bytes e = open_inv (find id l.handles) bytes (r.bytes_at id ∙ e)

  -- A buffer that is there has a number below the next.
  below :
      (id : ℕ) (bytes : Bytes)
      → find id s.bufs ≡ some bytes
      → (k : ℕ) → s.next ≤ k
      → (id == k) ≡ false
  below id bytes e k h = elim (Bool-cases (id == k)) [
    | inl t ↦ let n = r.unused k h in let q = (==_iff id k).0 t in absurd (cc (e, n, q))
    | inr f ↦ f
  ]

  pub put-Agrees :
      (id : ℕ) (old bytes : Bytes)
      → find id s.bufs ≡ some old
      → Agrees (put id (open_buffer bytes) l) (put_bytes id bytes s)
  put-Agrees id old bytes e = record {
    counted = r.counted;
    bytes_at = λ k.
        ap open_bytes (find-put id k l.handles (open_buffer bytes))
        ∙ open_bytes_if (id == k) _ _
        ∙ ap (λ t. if id == k then some bytes else t) (r.bytes_at k)
        ∙ sym (find-put id k s.bufs bytes);
    unused = λ k h. find-put id k s.bufs bytes ∙ rw (below id old e k h) (r.unused k h);
  }

  pub remove-Agrees :
      (id : ℕ)
      → Agrees (record l { handles = remove id l.handles }) (record s { bufs = remove id s.bufs })
  remove-Agrees id = record {
    counted = r.counted;
    bytes_at = λ k.
        ap open_bytes (find-remove_if id k l.handles)
        ∙ open_bytes_if (id == k) none _
        ∙ ap (λ t. if id == k then none else t) (r.bytes_at k)
        ∙ sym (find-remove_if id k s.bufs);
    unused = λ k h. find-remove_if id k s.bufs ∙ rw (r.unused k h) (ground arith);
  }

  pub new-Agrees :
      Agrees
        (new_handle (open_buffer []) l)
        (record { next = s.next + 1; bufs = (s.next, []) ∷ s.bufs })
  new-Agrees = record {
    counted = ap (λ t. t + 1) r.counted;
    bytes_at = λ k.
        open_bytes_if (l.next == k) _ _
        ∙ ap (λ t. if l.next == k then some [] else t) (r.bytes_at k)
        ∙ ap (λ t. if t == k then some [] else find k s.bufs) r.counted;
    unused = λ k h. let n = r.unused k (omega arith) in rw (lt_ne s.next k h, n) refl;
  }

  -- A buffer that is there is older than the next.
  pub older : (id : ℕ) (bytes : Bytes) → find id s.bufs ≡ some bytes → (l.next == id) ≡ false
  older id bytes e = elim (Bool-cases (l.next == id)) [
    | inl t ↦
        let q = (==_iff l.next id).0 t in
        let n = r.unused id (omega (arith, r.counted)) in absurd (cc (e, n))
    | inr f ↦ f
  ]

module _ {l : Library} {s : Store} (r : Agrees l s) where
  pub made-Agrees :
      (bytes : Bytes)
      → Agrees
          (put l.next (open_buffer bytes) (new_handle (open_buffer []) l))
          (record { next = s.next + 1; bufs = (s.next, bytes) ∷ s.bufs })
  made-Agrees bytes =
      store-Agrees _
        (subst
          (λ n. Agrees (put n (open_buffer bytes) (new_handle (open_buffer []) l)) (record {
            next = s.next + 1;
            bufs = (s.next, bytes) ∷ remove s.next ((s.next, []) ∷ s.bufs);
          }))
          (sym r.counted) (put-Agrees (new-Agrees r) s.next [] bytes (rw (==_refl s.next) refl)))
        refl
        λ k.
          find-put s.next k ((s.next, []) ∷ s.bufs) bytes
          ∙ elim (Bool-cases (s.next == k)) [ inl t ↦ rw t refl | inr f ↦ rw f refl ]

  pub unmade-Agrees :
      Agrees
        (record (new_handle (open_buffer []) l) {
          handles = remove l.next (new_handle (open_buffer []) l).handles;
        })
        (record s { next = s.next + 1 })
  unmade-Agrees =
      store-Agrees _
        (subst
          (λ n.
            Agrees
              (record (new_handle (open_buffer []) l) {
                handles = remove n (new_handle (open_buffer []) l).handles;
              })
              (record { next = s.next + 1; bufs = remove s.next ((s.next, []) ∷ s.bufs) }))
          (sym r.counted) (remove-Agrees (new-Agrees r) s.next))
        refl
        λ k. find-remove_if s.next k ((s.next, []) ∷ s.bufs) ∙ elim (Bool-cases (s.next == k)) [
          | inl t ↦
              let q = (==_iff s.next k).0 t in let n = r.unused k (omega arith) in rw (t, n) refl
          | inr f ↦ rw f refl
        ]
