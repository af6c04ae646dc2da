-- ===== src/EventLoopWin/Masks/Laws.antt =====
-- What the translations keep.
use io_base.Base.{
  ℕ, ◌-◌, ◌<◌, ◌≤◌, ◌≡◌, refl, sym, ap, ap₂, ◌∙◌, bit_and, bit_or, ◌==◌, if◌then◌else◌, arith, Bool,
  true, false,
}
use io_base.Base.Bits.{
  and_comm, and_assoc, and-or, or-zero, zero-or, and-zero, zero-and, and_self, complement-and,
  complement-or, and_full, and-le, byte_bits, readable_bit, writable_bit, error_bit,
}
use io_base.EventLoopWin.Masks.Defs.{
  PollFlags, IsDisjoint, event_readable, event_writable, event_error, get_poll_mask, get_event_mask,
  clear_bits,
}

pub and-eq-zero_comm : (a b : ℕ) → bit_and a b ≡ 0 → bit_and b a ≡ 0
and-eq-zero_comm a b h = and_comm b a ∙ h

if-and : (b : Bool) (x f : ℕ) → bit_and (if b then 0 else x) f ≡ (if b then 0 else bit_and x f)
if-and true x f = zero-and f
if-and false x f = refl

if_same : (b : Bool) (x : ℕ) → (if b then x else x) ≡ x
if_same true x = refl
if_same false x = refl

and-if : (b : Bool) (x f : ℕ) → bit_and f (if b then 0 else x) ≡ (if b then 0 else bit_and f x)
and-if true x f = and-zero f
and-if false x f = refl

ruleset mask_laws = (and-or, and_self, if-and, if_same, zero-and, and-zero, or-zero, zero-or)

module _ (p : PollFlags) (d : IsDisjoint p) where
  pub out_in : bit_and p.pollout p.pollin ≡ 0
  out_in = and-eq-zero_comm p.pollin p.pollout d.in_out

  pub err_in : bit_and p.pollerr p.pollin ≡ 0
  err_in = and-eq-zero_comm p.pollin p.pollerr d.in_err

  pub err_out : bit_and p.pollerr p.pollout ≡ 0
  err_out = and-eq-zero_comm p.pollout p.pollerr d.out_err

  -- A poll mask of any of the three flags, taken apart.
  pick :
      (a b c : Bool)
      → get_event_mask p (
          bit_or
            (bit_or (if a then 0 else p.pollin) (if b then 0 else p.pollout))
            (if c then 0 else p.pollerr))
        ≡ bit_or
            (bit_or (if a then 0 else event_readable) (if b then 0 else event_writable))
            (if c then 0 else event_error)
  unfolding get_event_mask
  pick a b c =
      simp (mask_laws, d.in_out, d.in_err, d.out_err, out_in, err_in, err_out)
        (ground (arith, d.in_some, d.out_some, d.err_some))

  -- get_event_mask undoes get_poll_mask on a uint8_t, up to the bits that name no event.
  pub get_event_mask-get_poll_mask :
      (m : ℕ) → m < 256 → get_event_mask p (get_poll_mask p m) ≡ bit_and m 7
  unfolding get_poll_mask
  get_event_mask-get_poll_mask m h =
      pick (bit_and m event_readable == 0) (bit_and m event_writable == 0)
        (bit_and m event_error == 0)
      ∙ byte_bits m h

  -- The poll mask of a registration meets each flag in that flag, if it is registered.
  registered :
      (a b c : Bool) (x : ℕ)
      → let poll =
          bit_or
            (bit_or (if a then 0 else p.pollin) (if b then 0 else p.pollout))
            (if c then 0 else p.pollerr) in
        (bit_and (bit_and x poll) p.pollin ≡ (if a then 0 else bit_and x p.pollin))
        × (bit_and (bit_and x poll) p.pollout ≡ (if b then 0 else bit_and x p.pollout))
        × (bit_and (bit_and x poll) p.pollerr ≡ (if c then 0 else bit_and x p.pollerr))
  registered a b c x = (
    simp (and_assoc, mask_laws, out_in, err_in, and-if) refl,
    simp (and_assoc, mask_laws, d.in_out, err_out, and-if) refl,
    simp (and_assoc, mask_laws, d.in_err, d.out_err, and-if) refl,
  )

  -- What DispatchSocketEvent delivers for the reported poll mask `x` to a registration for `e` is
  -- exactly the reported events that are registered.
  pub get_event_mask-and :
      (x e : ℕ)
      → e < 256
      → get_event_mask p (bit_and x (get_poll_mask p e)) ≡ bit_and (get_event_mask p x) e
  unfolding get_event_mask get_poll_mask
  get_event_mask-and x e h =
      simp (mask_laws, readable_bit e h, writable_bit e h, error_bit e h)
        (ground (
          arith,
          registered (bit_and e event_readable == 0) (bit_and e event_writable == 0)
              (bit_and e event_error == 0) x,
        ))

bits_lt :
    (a b c : Bool)
    → bit_or
        (bit_or (if a then 0 else event_readable) (if b then 0 else event_writable))
        (if c then 0 else event_error)
      < 8
bits_lt a b c = ground arith

pub get_event_mask-lt : (p : PollFlags) (x : ℕ) → get_event_mask p x < 8
unfolding get_event_mask
get_event_mask-lt p x =
    bits_lt (bit_and x p.pollin == 0) (bit_and x p.pollout == 0) (bit_and x p.pollerr == 0)

-- `mask &= ~cleared` clears these bits, and keeps the others.
pub clear_bits-and : (m c : ℕ) → c < 256 → bit_and (clear_bits m c) c ≡ 0
unfolding clear_bits
clear_bits-and m c h = simp (and_assoc, complement-and c h, and-zero) refl

pub clear_bits_keeps :
    (m c b : ℕ) → c < 256 → b < 256 → bit_and c b ≡ 0 → bit_and (clear_bits m c) b ≡ bit_and m b
unfolding clear_bits
clear_bits_keeps m c b h k e =
    and_assoc m (255 - c) b
    ∙ ap (bit_and m) (
        sym (or-zero _)
        ∙ ap (bit_or (bit_and (255 - c) b)) (sym e)
        ∙ sym (and-or (255 - c) c b)
        ∙ ap (λ t. bit_and t b) (complement-or c h)
        ∙ and_comm 255 b
        ∙ and_full b k)

-- `&=` cannot leave the uint8_t.
pub clear_bits-le : (m c : ℕ) → clear_bits m c ≤ m
unfolding clear_bits
clear_bits-le m c = and-le m (255 - c)

and-or_left : (x a b : ℕ) → bit_and x (bit_or a b) ≡ bit_or (bit_and x a) (bit_and x b)
and-or_left x a b =
    and_comm x (bit_or a b) ∙ and-or a b x ∙ ap₂ bit_or (and_comm a x) (and_comm b x)

no_bits :
    (x y z : ℕ)
    → bit_or
        (bit_or (if x == 0 then 0 else event_readable) (if y == 0 then 0 else event_writable))
        (if z == 0 then 0 else event_error)
      ≡ 0
    → bit_or (bit_or x y) z ≡ 0
no_bits x y z h = ground arith

-- A reported mask that meets the poll mask of a registration delivers some event.
module _ (p : PollFlags) (d : IsDisjoint p) where
  pub within-eq-zero :
      (x e : ℕ)
      → get_event_mask p (bit_and x (get_poll_mask p e)) ≡ 0
      → bit_and x (get_poll_mask p e) ≡ 0
  unfolding get_event_mask get_poll_mask
  within-eq-zero x e h =
      let a = bit_and e event_readable == 0 in
      let b = bit_and e event_writable == 0 in
      let c = bit_and e event_error == 0 in
      simp (and-or_left, and-if)
        (no_bits (if a then 0 else bit_and x p.pollin) (if b then 0 else bit_and x p.pollout)
          (if c then 0 else bit_and x p.pollerr) (ground (arith, h, registered p d a b c x)))

pub get_event_mask-zero : (p : PollFlags) → get_event_mask p 0 ≡ 0
unfolding get_event_mask
get_event_mask-zero p = simp zero-and refl
