-- ===== src/FileIo/Transfer.antt =====
-- A read or a write from File_io::submit_read or submit_write to its result (lib/io/file_io.cpp).
use miniss.Base.{
  subst, ℕ, suc, ℤ, pos, negsuc, ◌+◌, ◌≤◌, ◌<◌, ◌≡◌, refl, sym, ap, ◌∙◌, inl, inr, Bool, true,
  false, ◌&&◌, ◌==◌, some, List, [], ◌∷◌, ◌++◌, length-append, get_elem?, count, count-append_one,
  Bool-cases, arith,
}
use miniss.Exceptions.{ok, throws, system_error}
use miniss.Semaphore.{wait}
use miniss.Semaphore.Usage.{prs, prs-append}
use miniss.FileIo.{
  Opcode, pread, pwrite, Iocb, Request, IoEvent, FileIo, prepare, with_eventfd, submit, submit_io,
  to_result, requests, Reach, next, submits,
}
use miniss.FileIo.Turns.{Turns, outstanding, turns-resolved}

abbrev is_same_op : Opcode → Opcode → Bool
is_same_op pread pread = true
is_same_op pwrite pwrite = true
is_same_op _ _ = false

abbrev is_same_int : ℤ → ℤ → Bool
is_same_int (pos m) (pos n) = m == n
is_same_int (negsuc m) (negsuc n) = m == n
is_same_int _ _ = false

abbrev is_same_flag : Bool → Bool → Bool
is_same_flag true b = b
is_same_flag false true = false
is_same_flag false false = true

abbrev is_same_iocb : Iocb → Iocb → Bool
is_same_iocb a b =
    is_same_op a.aio_lio_opcode b.aio_lio_opcode
    && (is_same_int a.aio_fildes b.aio_fildes
        && ((a.aio_buf == b.aio_buf)
            && ((a.aio_nbytes == b.aio_nbytes)
                && ((a.aio_offset == b.aio_offset)
                    && (is_same_int a.aio_resfd b.aio_resfd
                        && is_same_flag a.flag_resfd b.flag_resfd)))))

abbrev is_same : Request → Request → Bool
is_same (i, a) (j, b) = (i == j) && is_same_iocb a b

is_same_op-≡ : (a b : Opcode) → is_same_op a b ≡ true → a ≡ b
is_same_op-≡ pread pread h = refl
is_same_op-≡ pwrite pwrite h = refl
is_same_op-≡ pread pwrite h = ground arith
is_same_op-≡ pwrite pread h = ground arith

is_same_int-≡ : (m n : ℤ) → is_same_int m n ≡ true → m ≡ n
is_same_int-≡ (pos m) (pos n) h = ground arith
is_same_int-≡ (negsuc m) (negsuc n) h = ground arith
is_same_int-≡ (pos m) (negsuc n) h = ground arith
is_same_int-≡ (negsuc m) (pos n) h = ground arith

is_same_flag-≡ : (a b : Bool) → is_same_flag a b ≡ true → a ≡ b
is_same_flag-≡ a b h = ground arith

&&-true : (a b : Bool) → a && b ≡ true → (a ≡ true) × (b ≡ true)
&&-true a b h = ground arith

Iocb-≡ :
    (a b : Iocb)
    → a.aio_lio_opcode ≡ b.aio_lio_opcode
    → a.aio_fildes ≡ b.aio_fildes
    → a.aio_buf ≡ b.aio_buf
    → a.aio_nbytes ≡ b.aio_nbytes
    → a.aio_offset ≡ b.aio_offset
    → a.aio_resfd ≡ b.aio_resfd
    → a.flag_resfd ≡ b.flag_resfd
    → a ≡ b
Iocb-≡ a b h i j k l m n = ground arith

is_same_int_refl : (n : ℤ) → is_same_int n n ≡ true
is_same_int_refl (pos n) = ground arith
is_same_int_refl (negsuc n) = ground arith

is_same_iocb-≡ : (a b : Iocb) → is_same_iocb a b ≡ true → a ≡ b
is_same_iocb-≡ a b h = ground (
  arith,
  is_same_op-≡ a.aio_lio_opcode b.aio_lio_opcode,
  is_same_int-≡ a.aio_fildes b.aio_fildes,
  is_same_int-≡ a.aio_resfd b.aio_resfd,
  is_same_flag-≡ a.flag_resfd b.flag_resfd,
  Iocb-≡ a b,
)

is_same-≡ : (r s : Request) → is_same r s ≡ true → r ≡ s
is_same-≡ (i, a) (j, b) h =
    let (number, fields) = &&-true (i == j) (is_same_iocb a b) h in
    let same : a ≡ b = is_same_iocb-≡ a b fields in let number_same : i ≡ j = ground arith in cc

is_same_refl : (r : Request) → is_same r r ≡ true
is_same_refl (i, a) = ground (arith, is_same_int_refl a.aio_fildes, is_same_int_refl a.aio_resfd)

count-found :
    (p : Request → Bool) (es : List IoEvent)
    → 0 < count p (requests es)
    → (i : ℕ) × (e : IoEvent) × (get_elem? es i ≡ some e) × (p e.request ≡ true)
count-found p [] h = absurd (omega arith)
count-found p (e ∷ es) h = elim (Bool-cases (p e.request)) [
  | inl f ↦ (0, e, refl, f)
  | inr f ↦ let (i, d, g, k) = count-found p es (ground arith) in (suc i, d, g, k)
]

submit_io-adds :
    (r : Request) (f : FileIo)
    → let f' = submit_io r f in
      (f'.submitted ≡ f.submitted ++ r ∷ [])
      × (f'.failed ≡ f.failed)
      × (outstanding f' ≡ outstanding f + 1)
unfolding submit_io wait
submit_io-adds r f = ground (
  arith,
  length-append f.scheduled (r ∷ []),
  prs-append f.aio_available.waiting_list (record { tokens = 1; pr = r } ∷ []),
  length-append (prs f.aio_available.waiting_list) (r ∷ []),
)

-- What the future of a request comes true with, by the result in its event.
abbrev pub Answered : IoEvent → ℤ → Type 0
Answered e (pos n) = to_result e ≡ ok n
Answered e (negsuc n) = to_result e ≡ throws (system_error (pos (suc n)))

to_result-Answered : (e : IoEvent) (res : ℤ) → res ≡ e.res → Answered e res
unfolding to_result
to_result-Answered e (pos n) h = ground arith
to_result-Answered e (negsuc n) h = ground arith

-- What the kernel is to do for a call of submit_read or submit_write.
abbrev pub Wanted : Opcode → ℤ → ℕ → ℕ → ℕ → ℤ → Iocb → Type 0
Wanted op fd position buf size eventfd io =
    (io.aio_lio_opcode ≡ op)
    × (io.aio_fildes ≡ fd)
    × (io.aio_offset ≡ position)
    × (io.aio_buf ≡ buf)
    × (io.aio_nbytes ≡ size)
    × (io.aio_resfd ≡ eventfd)
    × (io.flag_resfd ≡ true)

-- A read or a write of `size` bytes at `buf`, at an offset of a descriptor, comes to its end: in any history
-- in which no io_submit has failed, let it be submitted, and let `n + 2` turns follow, where `n` is at least
-- the number of requests that were waiting, scheduled or in the kernel before it. A turn is the oldest
-- continuation of `submit_io_`, if there is one, whose io_submit succeeds, and a call of `reap_io`, in which
-- the kernel reports any of the requests that it holds, but at least one. Then an event of that request was
-- reported, whose iocb has exactly that operation, descriptor, offset, buffer, size and the File_io's eventfd;
-- and what the caller gets is the event's result, or, where that is negative, an exception with the negated
-- result as its error number.
pub submit-Answered :
    (op : Opcode) (fd : ℤ) (position buf size id n : ℕ) {f g : FileIo}
    → Reach f
    → f.failed ≡ []
    → outstanding f ≤ n
    → Turns (suc (suc n)) (submit op fd position buf size id f) g
    → (i : ℕ) × (e : IoEvent) × (get_elem? g.resolved i ≡ some e)
      × (e.request.0 ≡ id)
      × Wanted op fd position buf size f.aio_eventfd e.request.1
      × Answered e e.res
unfolding submit with_eventfd prepare
submit-Answered op fd position buf size id n {f} {g} reach unfailed few ts =
    let r : Request = (id, with_eventfd f.aio_eventfd (prepare op fd position buf size)) in
    let adds = submit_io-adds r f in
    let all =
      turns-resolved (is_same r) (suc n) (next reach (submits r refl)) (adds.1 ∙ unfailed)
        (omega (arith, adds.2)) ts in
    let one = is_same_refl r in
    let some_found : 0 < count (is_same r) (requests g.resolved) = ground (
      arith,
      all,
      ap (count (is_same r)) adds.0,
      count-append_one (is_same r) f.submitted r,
      one,
    ) in
    let (i, e, at, same) = count-found (is_same r) g.resolved some_found in
    let found : r ≡ e.request = is_same-≡ r e.request same in
    (
      i,
      e,
      at,
      ap (λ z. z.0) (sym found),
      subst (λ (z : Request). Wanted op fd position buf size f.aio_eventfd z.1) found
          (refl, refl, refl, refl, refl, refl, refl),
      to_result-Answered e e.res refl,
    )
