-- ===== src/Stream.antt =====
-- kit_server/stream.cpp: readFixSize and writeFixSize.
--
-- The virtual functions `read` and `write` of a stream are parameters: from the state of the world,
-- the buffer's memory included, the offset in the buffer and the number of bytes asked for, to the
-- int that the function returns and the new state. The overloads on a ByteArray pass no offset.
-- The loops recurse on fuel.
pub mod Contract
mod Tests
use kit_server.Common.{ℕ, zero, suc, ◌+◌, ◌-◌, ◌%◌, ◌^◌, ◌==◌, if◌then◌else◌, Option, none, some}
use kit_server.Common.Ints.{ℤ, pos, to_word, of_word}

-- The loop of the overloads on a buffer: `ret` is a size_t, and so are `left` and `offset`.
unfoldable pub fix_size_loop {ℓ} :
    {W : Type ℓ} → (W → ℕ → ℕ → ℤ × W) → (len fuel left offset : ℕ) → W → Option (ℤ × W)
fix_size_loop call len zero left offset w = none
fix_size_loop call len (suc fuel) zero offset w = some (of_word 32 (len % 2 ^ 32), w)
fix_size_loop call len (suc fuel) (suc left) offset w =
    let reply = call w offset (suc left) in
    let ret = to_word 64 reply.0 in
    let rest =
      fix_size_loop call len fuel ((suc left + 2 ^ 64 - ret) % 2 ^ 64) ((offset + ret) % 2 ^ 64)
        reply.1 in
    if ret == 0 then some (of_word 32 (ret % 2 ^ 32), reply.1) else rest

abbrev pub read_fix_size {ℓ} :
    {W : Type ℓ} → (W → ℕ → ℕ → ℤ × W) → ℕ → (len : ℕ) → W → Option (ℤ × W)
read_fix_size read fuel len w = fix_size_loop read len fuel len 0 w

abbrev pub write_fix_size {ℓ} :
    {W : Type ℓ} → (W → ℕ → ℕ → ℤ × W) → ℕ → (len : ℕ) → W → Option (ℤ × W)
write_fix_size write fuel len w = fix_size_loop write len fuel len 0 w

-- The loop of the overloads on a ByteArray, whose position moves in the world.
unfoldable pub fix_size_array_loop {ℓ} :
    {W : Type ℓ} → (W → ℕ → ℤ × W) → (len fuel left : ℕ) → W → Option (ℤ × W)
fix_size_array_loop call len zero left w = none
fix_size_array_loop call len (suc fuel) zero w = some (of_word 32 (len % 2 ^ 32), w)
fix_size_array_loop call len (suc fuel) (suc left) w =
    let reply = call w (suc left) in
    let ret = to_word 64 reply.0 in
    let rest = fix_size_array_loop call len fuel ((suc left + 2 ^ 64 - ret) % 2 ^ 64) reply.1 in
    if ret == 0 then some (of_word 32 (ret % 2 ^ 32), reply.1) else rest

abbrev pub read_fix_size_array {ℓ} :
    {W : Type ℓ} → (W → ℕ → ℤ × W) → ℕ → (len : ℕ) → W → Option (ℤ × W)
read_fix_size_array read fuel len w = fix_size_array_loop read len fuel len w

abbrev pub write_fix_size_array {ℓ} :
    {W : Type ℓ} → (W → ℕ → ℤ × W) → ℕ → (len : ℕ) → W → Option (ℤ × W)
write_fix_size_array write fuel len w = fix_size_array_loop write len fuel len w
