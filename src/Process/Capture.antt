-- ===== src/Process/Capture.antt =====
-- Theorems on the bounded writer of platform/process: sequences of writes.
use codera.Base.{
  ℕ, ◌-◌, Bool, List, [], ◌∷◌, ◌++◌, ◌≡◌, refl, ◌∙◌, arith, Bytes, length, take, ltb, append_assoc,
  append-nil, length-append, take-all, take-append_le, take-append_ge, length-take, Bool-cases, inl,
  inr, map, ◌&&◌,
}
use codera.Process.Writer.{BoundedWriter, new_bounded_writer, write, write_all}

abbrev pub concat : List Bytes → Bytes
concat [] = []
concat (p ∷ ps) = p ++ concat ps

-- The writer has seen the stream `s`.
pub record HasSeen (s : Bytes) (w : BoundedWriter) : Type 0 where
  pub buf : w.buf ≡ take w.max_size s
  pub exceeded : w.exceeded ≡ ltb w.max_size (length s)
  pub current : w.current ≡ length w.buf
  pub canceled : w.canceled ≡ (w.has_cancel && w.exceeded)

max_size-write : (p : Bytes) (w : BoundedWriter) → (write p w).0.max_size ≡ w.max_size
unfolding write
max_size-write p w = ground arith

write-HasSeen : (p s : Bytes) (w : BoundedWriter) → HasSeen s w → HasSeen (s ++ p) (write p w).0
unfolding write
write-HasSeen p s w h = elim (Bool-cases (ltb w.max_size (length s))) [
  | inl over ↦
      ground
        (arith, h.exceeded, over, length-append s p, take-append_le w.max_size s p (ground arith))
  | inr fits ↦ ground (
    arith,
    h.exceeded,
    fits,
    length-append s p,
    take-all w.max_size s (ground arith),
    take-append_ge w.max_size s p (ground arith),
    take-all (w.max_size - length s) p,
    length-append s (take (w.max_size - length s) p),
    length-take (w.max_size - length s) p,
    append-nil s,
  )
]

has_cancel-write : (p : Bytes) (w : BoundedWriter) → (write p w).0.has_cancel ≡ w.has_cancel
unfolding write
has_cancel-write p w = ground arith

count-write : (p : Bytes) (w : BoundedWriter) → (write p w).1 ≡ length p
unfolding write
count-write p w = ground arith

write_all-HasSeen :
    (ps : List Bytes) (s : Bytes) (w : BoundedWriter)
    → HasSeen s w
    → HasSeen (s ++ concat ps) (write_all ps w).0
      × ((write_all ps w).0.max_size ≡ w.max_size)
      × ((write_all ps w).0.has_cancel ≡ w.has_cancel)
      × ((write_all ps w).1 ≡ map length ps)
unfolding write_all
write_all-HasSeen [] s w h = (rw append-nil h, refl, refl, refl)
write_all-HasSeen (p ∷ ps) s w h =
    let (seen, m, c, ns) = write_all-HasSeen ps (s ++ p) (write p w).0 (write-HasSeen p s w h) in
    (
      rw (← append_assoc) seen,
      m ∙ max_size-write p w,
      c ∙ has_cancel-write p w,
      rw (count-write, ns),
    )

-- However a stream is cut into writes, the writer keeps the first `max_size` bytes of it and
-- reports an excess exactly if there are more; then, and only then, it has cancelled the process,
-- if it was given a cancel function. Every write reports its full length.
pub capture_lem :
    (max_size : ℕ) (has_cancel : Bool) (ps : List Bytes)
    → let (w, counts) = write_all ps (new_bounded_writer max_size has_cancel) in
      (w.buf ≡ take max_size (concat ps))
      × (w.exceeded ≡ ltb max_size (length (concat ps)))
      × (w.canceled ≡ (has_cancel && w.exceeded))
      × (counts ≡ map length ps)
capture_lem max_size has_cancel ps =
    let (seen, m, c, ns) =
      write_all-HasSeen ps [] (new_bounded_writer max_size has_cancel)
        (ground (arith, take-all {A = ℕ} max_size [])) in
    (rw m at seen.buf, rw m at seen.exceeded, rw c at seen.canceled, ns)
