-- ===== src/Hook/Flags.antt =====
-- kit_server/hook.cpp: the flags of a descriptor, in fcntl and ioctl.
--
-- What the system call answers is an argument. An int that is negative has the bits of its complement
-- turned round: negsuc n is ~n.
pub mod Seen
use kit_server.Common.{
  ℕ, ◌+◌, ◌-◌, ◌*◌, ◌%◌, leb, if◌then◌else◌, Option, none, some, Bool, not, ◌&&◌,
}
use kit_server.Common.Ints.{ℤ, pos, negsuc}
use kit_server.FdManager.{FdCtx}

abbrev pub o_nonblock : ℕ
o_nonblock = 2048

-- The bit of O_NONBLOCK in a word: whether it is set, the word with it and the word without it.
unfoldable pub has_bit : ℕ → Bool
has_bit w = leb o_nonblock (w % (2 * o_nonblock))

unfoldable pub with_bit : ℕ → ℕ
with_bit w = if has_bit w then w else w + o_nonblock

unfoldable pub without_bit : ℕ → ℕ
without_bit w = if has_bit w then w - o_nonblock else w

-- `arg & O_NONBLOCK`, and `arg |= O_NONBLOCK` or `arg &= ~O_NONBLOCK`.
unfoldable pub has_nonblock : ℤ → Bool
has_nonblock (pos w) = has_bit w
has_nonblock (negsuc w) = not (has_bit w)

unfoldable pub put_nonblock : Bool → ℤ → ℤ
put_nonblock set (pos w) = pos (if set then with_bit w else without_bit w)
put_nonblock set (negsuc w) = negsuc (if set then without_bit w else with_bit w)

unfoldable pub is_open_socket : FdCtx → Bool
is_open_socket ctx = not ctx.is_closed && ctx.is_socket

-- F_SETFL: the context and the flags that fcntl_f is given.
unfoldable pub set_flags : Option FdCtx → ℤ → Option FdCtx × ℤ
set_flags none arg = (none, arg)
set_flags (some ctx) arg =
    if is_open_socket ctx
    then (some (record ctx { user_nonblock = has_nonblock arg }), put_nonblock ctx.sys_nonblock arg)
    else (some ctx, arg)

-- F_GETFL, from what fcntl_f answers.
unfoldable pub get_flags : Option FdCtx → ℤ → ℤ
get_flags none answer = answer
get_flags (some ctx) answer =
    if is_open_socket ctx then put_nonblock ctx.user_nonblock answer else answer

-- ioctl with FIONBIO: the context; the call of ioctl_f that follows gets the same argument.
unfoldable pub set_fionbio : (user_nonblock : Bool) → Option FdCtx → Option FdCtx
set_fionbio user_nonblock none = none
set_fionbio user_nonblock (some ctx) =
    if is_open_socket ctx then some (record ctx { user_nonblock = user_nonblock }) else some ctx
