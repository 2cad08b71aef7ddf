-- ===== src/ByteArray/StringLimits.antt =====
-- Two limits of the strings with a length field: a field that is too short for the length, and an
-- empty string at the end of the memory.
use kit_server.Common.{
  ℕ, ◌%◌, ◌^◌, ◌≤◌, ◌<◌, ◌≡◌, sym, ap, ◌∙◌, arith, List, [], ◌++◌, length, take, drop, subst,
  length-take, length-append, take-append-drop,
}
use kit_server.Codec.Endian.{Endian, to_memory, length-to_memory}
use kit_server.ByteArray.{ByteArray, ok, crash, set_position}
use kit_server.ByteArray.Invariant.{IsValid}
use kit_server.ByteArray.Transfer.{unread, Wrote, read_end}
use kit_server.ByteArray.Seek.{set_position_lem, unread-Wrote}
use kit_server.ByteArray.Typed.{write_string_f16, read_string_f16, read_fuint16}
use kit_server.ByteArray.Typed.Fixed.{read_fixed_lem}
use kit_server.ByteArray.Typed.Strings.{write_string_f16_lem, read_string_f16_lem}
use kit_server.ByteArray.RoundTrip.{ok-injective}
use mathlib.Core.List.{append_assoc}

-- What was written by a write of a string is known.
string-Wrote :
    (writer : Endian) (str : List ℕ) (s t : ByteArray)
    → IsValid s
    → write_string_f16 writer str s ≡ ok tt t
    → Wrote (to_memory s.endian 2 (length str % 2 ^ 16) ++ str) s t
string-Wrote writer str s t h e =
    let (t', e', w) = write_string_f16_lem writer str s h in
    subst (Wrote (to_memory s.endian 2 (length str % 2 ^ 16) ++ str) s) (ok-injective (sym e' ∙ e))
      w

-- The beginning of a string, whose length the field holds.
read_front :
    (reader : Endian) (k : ℕ) (str rest : List ℕ) (u : ByteArray)
    → IsValid u
    → 0 < k
    → k < 2 ^ 16
    → k ≤ length str
    → unread u ≡ (to_memory u.endian 2 k ++ str) ++ rest
    → (w : ByteArray) × (read_string_f16 reader u ≡ ok (take k str) w)
read_front reader k str rest u h pos lt le e =
    let len : length (take k str) ≡ k = omega (arith, length-take k str) in
    let parts : unread u
        ≡ to_memory u.endian 2 (length (take k str)) ++ (take k str ++ (drop k str ++ rest)) =
      e
      ∙ append_assoc (to_memory u.endian 2 k) str rest
      ∙ ap (λ bs. to_memory u.endian 2 k ++ (bs ++ rest)) (sym (take-append-drop k str))
      ∙ ap (◌++◌ (to_memory u.endian 2 k)) (append_assoc (take k str) (drop k str) rest)
      ∙ ap (λ j. to_memory u.endian 2 j ++ (take k str ++ (drop k str ++ rest))) (sym len) in
    let (w, ew, _) =
      read_string_f16_lem reader (take k str) (drop k str ++ rest) u h (omega arith)
        (λ z. absurd (omega arith)) parts in
    (w, ew)

-- A string written by writeStringF16 from a valid state and read back from there on any machine
-- is its beginning of as many bytes as its length modulo 2 ^ 16 says, where that is not 0.
pub read_string_f16-write_string_f16 :
    (writer reader : Endian) (str : List ℕ) (s t : ByteArray)
    → IsValid s
    → write_string_f16 writer str s ≡ ok tt t
    → 0 < length str % 2 ^ 16
    → (u w : ByteArray) × (set_position s.position t ≡ ok tt u)
      × (read_string_f16 reader u ≡ ok (take (length str % 2 ^ 16) str) w)
read_string_f16-write_string_f16 writer reader str s t h e pos =
    let k = length str % 2 ^ 16 in
    let wr = string-Wrote writer str s t h e in
    let count = length-append (to_memory s.endian 2 k) str in
    let (u, eu, mv) =
      set_position_lem s.position t wr.valid
        (omega (arith, wr.moved, count, wr.valid.position_le, wr.valid.size_le)) in
    let (rest, er) = unread-Wrote (to_memory s.endian 2 k ++ str) s t u wr mv in
    let same : s.endian ≡ u.endian = sym (mv.same_endian ∙ wr.same_endian) in
    let (w, ew) =
      read_front reader k str rest u mv.valid pos (omega arith) (omega arith)
        (er ∙ ap (λ d. (to_memory d 2 k ++ str) ++ rest) same) in
    (u, w, eu, ew)

-- An empty string written by writeStringF16 from a valid state so that the position ends at the
-- capacity cannot be read back: setPosition to its start succeeds, and readStringF16 follows the
-- null pointer.
read_string_f16-empty_end :
    (writer reader : Endian) (s t : ByteArray)
    → IsValid s
    → write_string_f16 writer [] s ≡ ok tt t
    → t.position ≡ t.capacity
    → (u : ByteArray) × (set_position s.position t ≡ ok tt u) × (read_string_f16 reader u ≡ crash)
unfolding read_string_f16 read_fuint16
read_string_f16-empty_end writer reader s t h e end =
    let wr = string-Wrote writer [] s t h e in
    let count = length-append (to_memory s.endian 2 0) [] in
    let two = length-to_memory s.endian 2 0 in
    let (u, eu, mv) =
      set_position_lem s.position t wr.valid (omega (arith, wr.moved, count, two)) in
    let (rest, er) = unread-Wrote (to_memory s.endian 2 0 ++ []) s t u wr mv in
    let same : s.endian ≡ u.endian = sym (mv.same_endian ∙ wr.same_endian) in
    let (v, ev, c) = read_fixed_lem reader 2 0 rest u mv.valid (omega arith) (omega arith) (
      er
      ∙ append_assoc (to_memory s.endian 2 0) [] rest
      ∙ ap (λ d. to_memory d 2 0 ++ rest) same) in
    (
      u,
      eu,
      rw ev (
          read_end v c.valid (
            omega (
              arith,
              c.moved,
              c.same_capacity,
              mv.same_capacity,
              mv.at,
              wr.moved,
              count,
              two,
              length-to_memory u.endian 2 0,
              end,
            ))),
    )
