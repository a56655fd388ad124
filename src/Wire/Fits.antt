-- ===== src/Wire/Fits.antt =====
-- wire_protocol.cpp: writers that return where there is room, and that never pass the maximum.
use minidb_cpp.Prelude.{
  ℕ, ◌+◌, ◌-◌, ◌^◌, ◌≤◌, ◌≡◌, refl, sym, ap, ◌∙◌, Bool, true, false, ◌||◌, List, [], ◌∷◌, ◌++◌,
  Result, ok, err, ltb, length, arith, length-append, false≢true, err≢ok, ok-injective,
}
use minidb_cpp.Prelude.Stateful.{
  returns, on_result, throw_when, get_state, put_state, bind-returned, threw≢returned,
}
use minidb_cpp.Wire.{
  ◌>>=◌, ◌>>◌, ProtocolError, Writer, Writes, plain_error, payload_too_large, string_too_long,
  require_room, write_byte, push_back, push_big, write_big, write_raw, write_string, run_writer,
  outcome, max_wire_string_bytes,
}
use minidb_cpp.Wire.Sends.{extend}
use minidb_cpp.Wire.Numbers.{big_endian, length-big_endian, push_big-extend}

-- Where there is room for `k` bytes, `m` returns and has written `k` bytes.
abbrev pub Fits : ℕ → Writes → Type 0
Fits k m =
    (s : Writer)
    → length s.bytes + k ≤ s.maximum
    → (t : Writer) × (m s ≡ (t, ok tt))
      × (t.maximum ≡ s.maximum)
      × (length t.bytes ≡ length s.bytes + k)

-- Where `m` returns, the bytes are at most the maximum, which is kept.
abbrev pub Bounded : Writes → Type 0
Bounded m =
    (s t : Writer)
    → m s ≡ (t, ok tt)
    → length s.bytes ≤ s.maximum
    → (t.maximum ≡ s.maximum) × (length t.bytes ≤ s.maximum)

pub Fits-bind : (k l : ℕ) (m n : Writes) → Fits k m → Fits l n → Fits (k + l) (m >> n)
unfolding ◌>>=◌
Fits-bind k l m n h g s room =
    let (t, e1, same1, long1) = h s (omega (arith, room)) in
    let (u, e2, same2, long2) = g t (omega (arith, room, same1, long1)) in
    (u, ap (on_result (λ (i : Unit {0}). n)) e1 ∙ e2, same2 ∙ same1, omega (arith, long1, long2))

pub Fits-nothing : Fits 0 (returns tt)
Fits-nothing s room = (s, refl, refl, omega arith)

-- A test of the writer that passes.
pub Fits-checked :
    (k : ℕ) (c : Bool) (e : ProtocolError) (m : Writes)
    → c ≡ false
    → Fits k m
    → Fits k (throw_when c e >> m)
unfolding ◌>>=◌
Fits-checked k true e m h g = absurd (false≢true (sym h))
Fits-checked k false e m h g = g

-- A writer that asks for the room of the bytes that it appends.
abbrev appending : ℕ → (Writer → Writer) → Writes
appending k f = require_room k >> (get_state >>= λ s. put_state (f s))

appending-Fits :
    (k : ℕ) (w : List ℕ) (f : Writer → Writer)
    → length w ≡ k
    → ((s : Writer) → f s ≡ extend s w)
    → Fits k (appending k f)
unfolding require_room ◌>>=◌
appending-Fits k w f e h s room =
    rw enough (f s, refl, rw (h s) refl, rw (h s) (omega (arith, length-append s.bytes w, e)))
  where
    enough : ltb (s.maximum - length s.bytes) k ≡ false
    enough = ground (arith, room)

appending-Bounded :
    (k : ℕ) (w : List ℕ) (f : Writer → Writer)
    → length w ≡ k
    → ((s : Writer) → f s ≡ extend s w)
    → Bounded (appending k f)
unfolding require_room ◌>>=◌
appending-Bounded k w f e h s t g room = split (ltb (s.maximum - length s.bytes) k) refl g
  where
    split :
        (c : Bool)
        → ltb (s.maximum - length s.bytes) k ≡ c
        → on_result
            (λ (i : Unit {0}). (get_state >>= λ s. put_state (f s)))
            (throw_when c (plain_error payload_too_large) s)
          ≡ (t, ok tt)
        → (t.maximum ≡ s.maximum) × (length t.bytes ≤ s.maximum)
    split true c q = absurd (threw≢returned s t (plain_error payload_too_large) tt q)
    split false c q =
        let same : extend s w ≡ t =
          sym (h s) ∙ ap (λ (p : Writer × Result ProtocolError (Unit {0})). p.0) q in
        rw (← same) (refl, ground (arith, c, e, room, length-append s.bytes w))

pub Bounded-bind : (m n : Writes) → Bounded m → Bounded n → Bounded (m >> n)
unfolding ◌>>=◌
Bounded-bind m n h g s t e room =
    let (u, a, e1, e2) = bind-returned m (λ _. n) s t tt e in
    let (same1, room1) = h s u e1 room in
    let (same2, room2) = g u t e2 (omega (arith, same1, room1)) in
    (same2 ∙ same1, omega (arith, same1, room2))

pub Bounded-nothing : Bounded (returns tt)
Bounded-nothing s t e room =
    let same : s ≡ t = ap (λ (p : Writer × Result ProtocolError (Unit {0})). p.0) e in
    rw (← same) (refl, room)

pub Bounded-checked :
    (c : Bool) (e : ProtocolError) (m : Writes) → Bounded m → Bounded (throw_when c e >> m)
unfolding ◌>>=◌
Bounded-checked true e m g s t q room = absurd (threw≢returned s t e tt q)
Bounded-checked false e m g s t q room = g s t q room

pub Fits-byte : (v : ℕ) → Fits 1 (write_byte v)
unfolding write_byte
Fits-byte v = appending-Fits 1 (v ∷ []) (push_back v) refl (λ s. refl)

pub Bounded-byte : (v : ℕ) → Bounded (write_byte v)
unfolding write_byte
Bounded-byte v = appending-Bounded 1 (v ∷ []) (push_back v) refl (λ s. refl)

pub Fits-big : (width value : ℕ) → Fits width (write_big width value)
unfolding write_big
Fits-big width value =
    appending-Fits width (big_endian width value) (push_big width value)
      (length-big_endian width value) (push_big-extend width value)

pub Bounded-big : (width value : ℕ) → Bounded (write_big width value)
unfolding write_big
Bounded-big width value =
    appending-Bounded width (big_endian width value) (push_big width value)
      (length-big_endian width value) (push_big-extend width value)

pub Fits-raw : (bytes : List ℕ) → Fits (length bytes) (write_raw bytes)
unfolding write_raw
Fits-raw bytes =
    appending-Fits (length bytes) bytes (λ w. record w { bytes = w.bytes ++ bytes }) refl
      (λ s. refl)

pub Bounded-raw : (bytes : List ℕ) → Bounded (write_raw bytes)
unfolding write_raw
Bounded-raw bytes =
    appending-Bounded (length bytes) bytes (λ w. record w { bytes = w.bytes ++ bytes }) refl
      (λ s. refl)

pub Fits-string :
    (value : List ℕ)
    → length value ≤ max_wire_string_bytes
    → Fits (4 + length value) (write_string value)
unfolding write_string
Fits-string value h =
    Fits-checked (4 + length value)
      (ltb max_wire_string_bytes (length value) || ltb (2 ^ 32 - 1) (length value))
      (plain_error string_too_long) (write_big 4 (length value) >> write_raw value)
      (ground (arith, h))
      (Fits-bind 4 (length value) _ _ (Fits-big 4 (length value)) (Fits-raw value))

pub Bounded-string : (value : List ℕ) → Bounded (write_string value)
unfolding write_string
Bounded-string value =
    Bounded-checked _ _ _ (Bounded-bind _ _ (Bounded-big 4 (length value)) (Bounded-raw value))

-- What fits the maximum is written.
pub Fits-run :
    (k maximum : ℕ) (m : Writes)
    → Fits k m
    → k ≤ maximum
    → (bytes : List ℕ) × (run_writer maximum m ≡ ok bytes) × (length bytes ≡ k)
unfolding run_writer
Fits-run k maximum m h room =
    let (t, e, same, long) = h (record { bytes = []; maximum = maximum }) (omega (arith, room)) in
    (t.bytes, ap outcome e, omega (arith, long))

pub Bounded-run :
    (maximum : ℕ) (m : Writes) (bytes : List ℕ)
    → Bounded m
    → run_writer maximum m ≡ ok bytes
    → length bytes ≤ maximum
unfolding run_writer
Bounded-run maximum m bytes h e = finished (m blank) refl e
  where
    blank : Writer
    blank = record { bytes = []; maximum = maximum }

    finished :
        (p : Writer × Result ProtocolError (Unit {0}))
        → m blank ≡ p
        → outcome p ≡ ok bytes
        → length bytes ≤ maximum
    finished (t, err x) q f = absurd (err≢ok x bytes f)
    finished (t, ok u) q f = rw (← ok-injective t.bytes bytes f) (h blank t q (omega arith)).1
