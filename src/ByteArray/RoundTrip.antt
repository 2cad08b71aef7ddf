-- ===== src/ByteArray/RoundTrip.antt =====
-- A message that is written and read back: every item keeps its bytes and its value.
use kit_server.Common.{
  ℕ, ◌+◌, ◌<◌, ◌≡◌, refl, sym, ap, ◌∙◌, arith, List, [], ◌∷◌, ◌++◌, length, map, All, length-append,
  subst,
}
use kit_server.Codec.Endian.{Endian}
use kit_server.ByteArray.{ByteArray, ok, ◌>>=◌, return, set_position, write}
use kit_server.ByteArray.Invariant.{IsValid}
use kit_server.ByteArray.Transfer.{unread, Wrote}
use kit_server.ByteArray.Seek.{set_position_lem, unread-Wrote}
use kit_server.ByteArray.Rules.{Writes, Reads, Writes-then, Reads-then, Reads-map, Writes-bytes}
use kit_server.ByteArray.Typed.{}
use kit_server.ByteArray.Typed.Fixed.{}
use kit_server.ByteArray.Typed.Groups.{}
use kit_server.ByteArray.Typed.Strings.{}
use kit_server.ByteArray.Sequence.{
  Item, kind, FitsItem, item_bytes, message_bytes, write_item, read_item, write_items, read_items,
}
use mathlib.Core.List.{append_assoc}
use kit_server.ByteArray.Items.{write_item_lem, read_item_lem}

module _ (host : Endian) where
  -- A message is written whole, from any valid state.
  pub write_items_lem :
      (xs : List Item) (s : ByteArray)
      → IsValid s
      → All FitsItem xs
      → Writes (write_items host xs) s (message_bytes s.endian xs)
  unfolding write_items message_bytes write
  write_items_lem [] s h f = Writes-bytes [] s h
  write_items_lem (x ∷ xs) s h f =
      Writes-then (write_item host x) (write_items host xs) s (item_bytes s.endian x)
        (message_bytes s.endian xs) (write_item_lem host x s h f.0)
        (λ t w.
          subst (λ e. Writes (write_items host xs) t (message_bytes e xs)) w.same_endian
            (write_items_lem xs t w.valid f.1))

  pub read_items_lem :
      (xs : List Item) (rest : List ℕ) (s : ByteArray)
      → IsValid s
      → All FitsItem xs
      → s.position + length (message_bytes s.endian xs) < s.capacity
      → unread s ≡ message_bytes s.endian xs ++ rest
      → Reads (read_items host (map kind xs)) xs s (message_bytes s.endian xs) rest
  unfolding read_items message_bytes unread
  read_items_lem [] rest s h f room e = (
    s,
    refl,
    record {
      valid = h;
      left = e;
      moved = omega arith;
      same_memory = refl;
      same_size = refl;
      same_capacity = refl;
      same_endian = refl;
    },
  )
  read_items_lem (x ∷ xs) rest s h f room e =
      let bs = item_bytes s.endian x in
      let cs = message_bytes s.endian xs in
      Reads-then (read_item host (kind x))
        (λ y. read_items host (map kind xs) >>= λ ys. return (y ∷ ys)) x (x ∷ xs) s bs cs rest
        (read_item_lem host x (cs ++ rest) s h f.0 (omega (arith, length-append bs cs))
          (e ∙ append_assoc bs cs rest))
        (λ t c.
          Reads-map (read_items host (map kind xs)) (λ ys. x ∷ ys) xs (x ∷ xs) t cs rest refl
            (subst (λ d. Reads (read_items host (map kind xs)) xs t (message_bytes d xs) rest)
              c.same_endian
              (read_items_lem xs rest t c.valid f.1
                (rw c.same_endian (omega (arith, c.moved, c.same_capacity, length-append bs cs)))
                (rw c.same_endian c.left))))

-- Writing any list of typed values in range from a valid state returns on every machine, and
-- what it stores is one write of bytes that depend on the values and the byte order of the
-- array, not on the machine.
pub write_items-Wrote :
    (host : Endian) (xs : List Item) (s : ByteArray)
    → IsValid s
    → All FitsItem xs
    → (t : ByteArray) × (write_items host xs s ≡ ok tt t) × Wrote (message_bytes s.endian xs) s t
write_items-Wrote host xs s h f = write_items_lem host xs s h f

pub ok-injective : {A : Type 0} {a b : A} {s t : ByteArray} → ok a s ≡ ok b t → s ≡ t
ok-injective e = cc

-- Any list of typed values in range (fixed integers, zigzag varints, varints, the four kinds of
-- length-prefixed strings), written from a valid state on one machine so that the position does
-- not end at the very end of the capacity, is read back in order on a machine of any byte order
-- after setPosition to where it began, and the reader ends where the writer ended.
pub read_items-write_items :
    (writer reader : Endian) (xs : List Item) (s t : ByteArray)
    → IsValid s
    → All FitsItem xs
    → write_items writer xs s ≡ ok tt t
    → t.position < t.capacity
    → (u w : ByteArray) × (set_position s.position t ≡ ok tt u)
      × (read_items reader (map kind xs) u ≡ ok xs w)
      × (w.position ≡ t.position)
read_items-write_items writer reader xs s t h f e room = back (write_items_lem writer xs s h f)
  where
    after :
        Wrote (message_bytes s.endian xs) s t
        → (u w : ByteArray) × (set_position s.position t ≡ ok tt u)
          × (read_items reader (map kind xs) u ≡ ok xs w)
          × (w.position ≡ t.position)
    after wr =
        let (u, eu, mv) = set_position_lem s.position t wr.valid (omega (arith, wr.moved)) in
        let (rest, er) = unread-Wrote (message_bytes s.endian xs) s t u wr mv in
        let same : s.endian ≡ u.endian = sym (mv.same_endian ∙ wr.same_endian) in
        let bytes : message_bytes s.endian xs ≡ message_bytes u.endian xs =
          ap (λ d. message_bytes d xs) same in
        let (w, ew, c) =
          read_items_lem reader xs rest u mv.valid f
            (omega (arith, mv.at, mv.same_capacity, wr.moved, ap length bytes))
            (er ∙ ap (λ bs. bs ++ rest) bytes) in
        (u, w, eu, ew, omega (arith, c.moved, mv.at, wr.moved, ap length bytes))

    back :
        Writes (write_items writer xs) s (message_bytes s.endian xs)
        → (u w : ByteArray) × (set_position s.position t ≡ ok tt u)
          × (read_items reader (map kind xs) u ≡ ok xs w)
          × (w.position ≡ t.position)
    back (t', e', wr) =
        after (subst (Wrote (message_bytes s.endian xs) s) (ok-injective (sym e' ∙ e)) wr)
