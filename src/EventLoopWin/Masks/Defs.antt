-- ===== src/EventLoopWin/Masks/Defs.antt =====
-- The masks and the two translations.
use io_base.Base.{ℕ, ◌-◌, ◌≡◌, ◌≢◌, bit_and, bit_or, ◌==◌, if◌then◌else◌}

-- kEventReadable, kEventWritable and kEventError.
abbrev pub event_readable : ℕ
event_readable = 0x01

abbrev pub event_writable : ℕ
event_writable = 0x02

abbrev pub event_error : ℕ
event_error = 0x04

pub record PollFlags : Type 0 where
  pub pollin : ℕ
  pub pollout : ℕ
  pub pollerr : ℕ
  pub pollhup : ℕ

-- No two of the flags have a bit in common, and none is empty.
pub record IsDisjoint (p : PollFlags) : Type 0 where
  pub in_some : p.pollin ≢ 0
  pub out_some : p.pollout ≢ 0
  pub err_some : p.pollerr ≢ 0
  pub in_out : bit_and p.pollin p.pollout ≡ 0
  pub in_err : bit_and p.pollin p.pollerr ≡ 0
  pub in_hup : bit_and p.pollin p.pollhup ≡ 0
  pub out_err : bit_and p.pollout p.pollerr ≡ 0
  pub out_hup : bit_and p.pollout p.pollhup ≡ 0
  pub err_hup : bit_and p.pollerr p.pollhup ≡ 0

-- `(mask & flag) ? value : 0`.
abbrev pub when : ℕ → ℕ → ℕ → ℕ
when mask flag value = if bit_and mask flag == 0 then 0 else value

unfoldable pub get_poll_mask : PollFlags → ℕ → ℕ
get_poll_mask p event_mask =
    bit_or
      (bit_or (when event_mask event_readable p.pollin) (when event_mask event_writable p.pollout))
      (when event_mask event_error p.pollerr)

unfoldable pub get_event_mask : PollFlags → ℕ → ℕ
get_event_mask p poll_mask =
    bit_or
      (bit_or (when poll_mask p.pollin event_readable) (when poll_mask p.pollout event_writable))
      (when poll_mask p.pollerr event_error)

-- `mask &= ~cleared` on a uint8_t.
unfoldable pub clear_bits : ℕ → ℕ → ℕ
clear_bits mask cleared = bit_and mask (255 - cleared)
