-- ===== src/Wire/Sends.antt =====
-- wire_protocol.cpp: a writer and a reader that fit each other, and how they are put together.
use minidb_cpp.Prelude.{
  ℕ, ◌+◌, ◌-◌, ◌≤◌, ◌≡◌, refl, sym, ap, ◌∙◌, Bool, true, false, List, [], ◌++◌, Result, ok, err,
  ltb, ◌==◌, length, arith, length-append, false≢true, subst, ==_iff, ok-injective, err≢ok,
}
use minidb_cpp.Prelude.Stateful.{returns, on_result, throw_when, bind-returned, threw≢returned}
use minidb_cpp.Wire.{
  ◌>>=◌, ◌>>◌, ProtocolError, Writer, Reader, Writes, ReadsA, require_room, require_bytes,
  plain_error, WireMessage, payload_too_large, truncated, run_writer, outcome, run_reader,
  finish_reading, remaining_bytes,
}
use minidb_cpp.Wire.Rows.{throw_beyond}
use mathlib.Core.List.{append_assoc, append-nil}

-- The reader that has read `front` of `front ++ rest`.
abbrev pub reader_at : List ℕ → List ℕ → Reader
reader_at front rest = record { bytes = front ++ rest; cursor = length front }

-- From wherever it stands, the reader `r` reads the bytes `w` as the value `v`.
abbrev pub Reads : {A : Type 0} → ReadsA A → A → List ℕ → Type 0
Reads r v w =
    (front rest : List ℕ) → r (reader_at front (w ++ rest)) ≡ (reader_at (front ++ w) rest, ok v)

abbrev pub extend : Writer → List ℕ → Writer
extend s w = record s { bytes = s.bytes ++ w }

-- Whatever `m` writes where it returns, `k` bytes, is read by `r` as `v`.
pub record Sends {A : Type 0} (k : ℕ) (m : Writes) (r : ReadsA A) (v : A) : Type 0 where
  pub sent :
      (s t : Writer)
      → m s ≡ (t, ok tt)
      → (w : List ℕ) × (t ≡ extend s w) × (length w ≡ k) × Reads r v w

pub Reads-returns : {A : Type 0} (v : A) → Reads (returns v) v []
Reads-returns v front rest = rw (append-nil front) refl

pub Reads-bind :
    {A B : Type 0} (r : ReadsA A) (f : A → ReadsA B) (a : A) (b : B) (u w : List ℕ)
    → Reads r a u
    → Reads (f a) b w
    → Reads (r >>= f) b (u ++ w)
unfolding ◌>>=◌
Reads-bind {B = B} r f a b u w h k front rest =
    ap (λ (y : List ℕ). on_result f (r (reader_at front y))) (append_assoc u w rest)
    ∙ ap (on_result f) (h front (w ++ rest))
    ∙ k (front ++ u) rest
    ∙ ap (λ (y : List ℕ). pair (reader_at y rest) b) (append_assoc front u w)
  where
    pair : Reader → B → Reader × Result ProtocolError B
    pair r c = (r, ok c)

-- A test that passes reads nothing.
pub Reads-passes :
    {A : Type 0} (t : Bool) (e : ProtocolError) (r : ReadsA A) (v : A) (w : List ℕ)
    → t ≡ false
    → Reads r v w
    → Reads (throw_when t e >> r) v w
unfolding ◌>>=◌
Reads-passes true e r v w h k = absurd (false≢true (sym h))
Reads-passes false e r v w h k = k

-- One after the other.
pub Sends-bind :
    {A B : Type 0} (k l : ℕ) (m n : Writes) (r : ReadsA A) (f : A → ReadsA B) (a : A) (b : B)
    → Sends k m r a
    → Sends l n (f a) b
    → Sends (k + l) (m >> n) (r >>= f) b
unfolding ◌>>=◌
Sends-bind k l m n r f a b h g = record {
  sent = λ s t e.
      let (s1, u1, e1, e2) = bind-returned m (λ _. n) s t tt e in
      let (u, same1, long1, reads1) = h.sent s s1 e1 in
      let (w, same2, long2, reads2) = g.sent s1 t e2 in
      (
        u ++ w,
        same2
            ∙ ap (λ (y : Writer). extend y w) same1
            ∙ ap (λ (y : List ℕ). record s { bytes = y }) (append_assoc s.bytes u w),
        omega (arith, length-append u w, long1, long2),
        Reads-bind r f a b u w reads1 reads2,
      );
}

-- More that the reader does, with no further bytes.
pub Sends-then :
    {A B : Type 0} (k : ℕ) (m : Writes) (r : ReadsA A) (f : A → ReadsA B) (a : A) (b : B)
    → Sends k m r a
    → Reads (f a) b []
    → Sends k m (r >>= f) b
Sends-then k m r f a b h g = record {
  sent = λ s t e.
      let (u, same, long, reads) = h.sent s t e in
      (u, same, long, subst (Reads (r >>= f) b) (append-nil u) (Reads-bind r f a b u [] reads g));
}

-- A test of the writer, which has passed where it returns.
pub Sends-checked :
    {A : Type 0} (k : ℕ) (c : Bool) (e : ProtocolError) (m : Writes) (r : ReadsA A) (v : A)
    → (c ≡ false → Sends k m r v)
    → Sends k (throw_when c e >> m) r v
unfolding ◌>>=◌
Sends-checked k true e m r v h = record { sent = λ s t g. absurd (threw≢returned s t e tt g) }
Sends-checked k false e m r v h = record { sent = λ s t g. (h refl).sent s t g }

-- A test of the reader that passes.
pub Sends-passes :
    {A : Type 0} (k : ℕ) (m : Writes) (c : Bool) (e : ProtocolError) (r : ReadsA A) (v : A)
    → c ≡ false
    → Sends k m r v
    → Sends k m (throw_when c e >> r) v
unfolding ◌>>=◌
Sends-passes k m c e r v h g = record {
  sent = λ s t q.
      let (u, same, long, reads) = g.sent s t q in (u, same, long, Reads-passes c e r v u h reads);
}

pub Sends-nothing : {A : Type 0} (v : A) → Sends 0 (returns tt) (returns v) v
Sends-nothing v = record { sent = λ s t e. ([], same s t e, omega arith, Reads-returns v) }
  where
    same :
        (s t : Writer)
        → ◌≡◌ {A = Writer × Result ProtocolError (Unit {0})} (s, ok tt) (t, ok tt)
        → t ≡ extend s []
    same s t e =
        ap (λ (p : Writer × Result ProtocolError (Unit {0})). p.0) (sym e)
        ∙ ap (λ (y : List ℕ). record s { bytes = y }) (sym (append-nil s.bytes))

-- The room that a writer asks for is there where it returns.
pub Sends-room :
    {A : Type 0} (k n : ℕ) (m : Writes) (r : ReadsA A) (v : A)
    → Sends k m r v
    → Sends k (require_room n >> m) r v
unfolding require_room ◌>>=◌
Sends-room k n m r v h = record {
  sent = λ s t e.
      (Sends-checked k (ltb (s.maximum - length s.bytes) n) (plain_error payload_too_large) m r v
          (λ _. h)).sent
        s t e;
}

-- The bytes that a reader asks for are there.
abbrev ask : ℕ → ProtocolError → ReadsA (Unit {0})
ask n e r = throw_when (ltb (remaining_bytes r) n) e r

Reads-ask :
    {A : Type 0} (n : ℕ) (e : ProtocolError) (r : ReadsA A) (v : A) (w : List ℕ)
    → n ≤ length w
    → Reads r v w
    → Reads (ask n e >> r) v w
unfolding ◌>>=◌
Reads-ask n e r v w h k front rest = rw enough (k front rest)
  where
    enough : ltb (length (front ++ (w ++ rest)) - length front) n ≡ false
    enough = ground (arith, length-append front (w ++ rest), length-append w rest, h)

pub Reads-require :
    {A : Type 0} (n : ℕ) (r : ReadsA A) (v : A) (w : List ℕ)
    → n ≤ length w
    → Reads r v w
    → Reads (require_bytes n >> r) v w
unfolding require_bytes
Reads-require n r v w h k = Reads-ask n (plain_error truncated) r v w h k

pub Sends-require :
    {A : Type 0} (k n : ℕ) (m : Writes) (r : ReadsA A) (v : A)
    → n ≤ k
    → Sends k m r v
    → Sends k m (require_bytes n >> r) v
unfolding ◌>>=◌
Sends-require k n m r v h g = record {
  sent = λ s t e.
      let (u, same, long, reads) = g.sent s t e in
      (u, same, long, Reads-require n r v u (omega (arith, h, long)) reads);
}

-- What was written by itself is read by itself, to the end.
pub Sends-run :
    {A : Type 0} (k maximum : ℕ) (m : Writes) (r : ReadsA A) (v : A) (bytes : List ℕ)
    → Sends k m r v
    → run_writer maximum m ≡ ok bytes
    → run_reader bytes (r >>= λ a. finish_reading >> returns a) ≡ ok v
unfolding run_writer run_reader finish_reading ◌>>=◌
Sends-run k maximum m r v bytes h e = finished (m (record { bytes = []; maximum = maximum })) refl e
  where
    blank : Writer
    blank = record { bytes = []; maximum = maximum }

    read_whole :
        (w : List ℕ)
        → Reads r v w
        → (on_result (λ a. finish_reading >> returns a) (r (record { bytes = w; cursor = 0 }))).1
          ≡ ok v
    read_whole w k =
        ap
          (λ (y : List ℕ).
            (on_result (λ a. finish_reading >> returns a) (r (record { bytes = y; cursor = 0 }))).1)
          (sym (append-nil w))
        ∙ rw (k [] []) (rw (at_the_end (w ++ []) w (append-nil w)) refl)
      where
        at_the_end : (a b : List ℕ) → a ≡ b → (length b == length a) ≡ true
        at_the_end a b q = (==_iff (length b) (length a)).1 (ap (λ (l : List ℕ). length l) (sym q))

    finished :
        (p : Writer × Result ProtocolError (Unit {0}))
        → m blank ≡ p
        → outcome p ≡ ok bytes
        → (on_result
            (λ a. finish_reading >> returns a)
            (r (record { bytes = bytes; cursor = 0 }))).1
          ≡ ok v
    finished (t, err x) q f = absurd (err≢ok x bytes f)
    finished (t, ok u) q f =
        let (w, same, long, reads) = h.sent blank t q in
        let whole : w ≡ bytes =
          ap (λ (y : Writer). y.bytes) (sym same) ∙ ok-injective t.bytes bytes f in
        read_whole bytes (subst (Reads r v) whole reads)

pub Sends-length :
    {A : Type 0} (k maximum : ℕ) (m : Writes) (r : ReadsA A) (v : A) (bytes : List ℕ)
    → Sends k m r v
    → run_writer maximum m ≡ ok bytes
    → length bytes ≡ k
unfolding run_writer
Sends-length k maximum m r v bytes h e = finished (m blank) refl e
  where
    blank : Writer
    blank = record { bytes = []; maximum = maximum }

    finished :
        (p : Writer × Result ProtocolError (Unit {0}))
        → m blank ≡ p
        → outcome p ≡ ok bytes
        → length bytes ≡ k
    finished (t, err x) q f = absurd (err≢ok x bytes f)
    finished (t, ok u) q f =
        let (w, same, long, reads) = h.sent blank t q in
        ap (λ (l : List ℕ). length l) (sym (ok-injective t.bytes bytes f))
        ∙ ap (λ (y : Writer). length y.bytes) same
        ∙ long

pub Sends-beyond :
    {A : Type 0} (k n : ℕ) (message : WireMessage) (m : Writes) (r : ReadsA A) (v : A)
    → n ≤ k
    → Sends k m r v
    → Sends k m (throw_beyond n message >> r) v
unfolding throw_beyond
Sends-beyond k n message m r v h g = record {
  sent = λ s t e.
      let (u, same, long, reads) = g.sent s t e in
      (u, same, long, Reads-ask n (plain_error message) r v u (omega (arith, h, long)) reads);
}
