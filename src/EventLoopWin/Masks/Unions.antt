-- ===== src/EventLoopWin/Masks/Unions.antt =====
-- get_event_mask of a union of poll masks, and of each flag.
use io_base.Base.{ℕ, ◌≡◌, refl, bit_or, ◌==◌, if◌then◌else◌, arith, ◌&&◌}
use io_base.Base.Bits.{and-or, and_self, or_comm, le-or, or-zero}
use io_base.EventLoopWin.Masks.Defs.{
  PollFlags, IsDisjoint, event_readable, event_writable, event_error, get_event_mask,
}
use io_base.EventLoopWin.Masks.Laws.{out_in, err_in, err_out, and-eq-zero_comm}

or-zero_test : (a b : ℕ) → (bit_or a b == 0) ≡ ((a == 0) && (b == 0))
or-zero_test a b = ground (arith, le-or a b, le-or b a, or_comm a b, or-zero a)

-- The three tests of get_event_mask on a union, by cases on the parts.
unions :
    (a b c a' b' c' : ℕ)
    → bit_or
        (bit_or
          (if bit_or a a' == 0 then 0 else event_readable)
          (if bit_or b b' == 0 then 0 else event_writable))
        (if bit_or c c' == 0 then 0 else event_error)
      ≡ bit_or
          (bit_or
            (bit_or (if a == 0 then 0 else event_readable) (if b == 0 then 0 else event_writable))
            (if c == 0 then 0 else event_error))
          (bit_or
            (bit_or (if a' == 0 then 0 else event_readable) (if b' == 0 then 0 else event_writable))
            (if c' == 0 then 0 else event_error))
unions a b c a' b' c' = ground (arith, or-zero_test a a', or-zero_test b b', or-zero_test c c')

module _ (p : PollFlags) where
  pub get_event_mask-or :
      (x y : ℕ) → get_event_mask p (bit_or x y) ≡ bit_or (get_event_mask p x) (get_event_mask p y)
  unfolding get_event_mask
  get_event_mask-or x y = simp and-or (unions _ _ _ _ _ _)

module _ (p : PollFlags) (d : IsDisjoint p) where
  pub get_event_mask-pollin : get_event_mask p p.pollin ≡ event_readable
  unfolding get_event_mask
  get_event_mask-pollin = simp (and_self, d.in_out, d.in_err) (ground (arith, d.in_some))

  pub get_event_mask-pollout : get_event_mask p p.pollout ≡ event_writable
  unfolding get_event_mask
  get_event_mask-pollout = simp (and_self, out_in p d, d.out_err) (ground (arith, d.out_some))

  pub get_event_mask-pollerr : get_event_mask p p.pollerr ≡ event_error
  unfolding get_event_mask
  get_event_mask-pollerr = simp (and_self, err_in p d, err_out p d) (ground (arith, d.err_some))

  pub get_event_mask-pollhup : get_event_mask p p.pollhup ≡ 0
  unfolding get_event_mask
  get_event_mask-pollhup =
      simp
        (
          and-eq-zero_comm p.pollin p.pollhup d.in_hup,
          and-eq-zero_comm p.pollout p.pollhup d.out_hup,
          and-eq-zero_comm p.pollerr p.pollhup d.err_hup,
        )
        refl
