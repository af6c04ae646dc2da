-- ===== src/EvenLoop/Interest/Tests.antt =====
-- A sequence of changes to what epoll watches.
use io_base.Base.{
  ℕ, ◌==◌, ◌≡◌, ◌≢◌, refl, if◌then◌else◌, false, Option, none, some, List, [], ◌∷◌, arith,
}
use io_base.EvenLoop.Defs.{Dispatcher}
use io_base.EvenLoop.Interest.Interface.{Epoll, Ctl, NeverFails}
use io_base.EvenLoop.Interest.Refines.{
  Change, apply_changes, all_intended, AllAddable, apply_changes-intended,
}
use Change.{adds, removes, updates}

-- An interest list as a function, to run the code on.
abbrev put : ℕ → Option (ℕ × ℕ) → (ℕ → Option (ℕ × ℕ)) → ℕ → Option (ℕ × ℕ)
put fd e i n = if n == fd then e else i n

put-same : (fd : ℕ) (e : Option (ℕ × ℕ)) (i : ℕ → Option (ℕ × ℕ)) → put fd e i fd ≡ e
put-same fd e i = ground arith

put-other :
    (fd other : ℕ) (e : Option (ℕ × ℕ)) (i : ℕ → Option (ℕ × ℕ))
    → (other == fd) ≡ false
    → put fd e i other ≡ i other
put-other fd other e i apart = rw (apart) refl

abbrev change : ℕ → ℕ × ℕ → Option (ℕ × ℕ) → (ℕ → Option (ℕ × ℕ)) → (ℕ → Option (ℕ × ℕ)) × Ctl
change fd e none i = (i, Ctl.enoent)
change fd e (some f) i = (put fd (some e) i, Ctl.done)

change-watched :
    (fd : ℕ) (e f : ℕ × ℕ) (o : Option (ℕ × ℕ)) (i : ℕ → Option (ℕ × ℕ))
    → o ≡ some f
    → ((change fd e o i).0 fd ≡ some e) × ((change fd e o i).1 ≢ Ctl.enoent)
change-watched fd e f none i h = absurd (cc)
change-watched fd e f (some g) i h = (put-same fd (some e) i, λ bad. absurd (cc))

change-fine :
    (fd : ℕ) (e : ℕ × ℕ) (o : Option (ℕ × ℕ)) (i : ℕ → Option (ℕ × ℕ))
    → (change fd e o i).1 ≢ Ctl.another
change-fine fd e none i bad = absurd (cc)
change-fine fd e (some g) i bad = absurd (cc)

change-other :
    (fd other : ℕ) (e : ℕ × ℕ) (o : Option (ℕ × ℕ)) (i : ℕ → Option (ℕ × ℕ))
    → (other == fd) ≡ false
    → (change fd e o i).0 other ≡ i other
change-other fd other e none i apart = refl
change-other fd other e (some g) i apart = put-other fd other (some e) i apart

abbrev interest_function : Epoll
interest_function = record {
  Interest = ℕ → Option (ℕ × ℕ);
  watched = λ fd i. i fd;
  ctl_add = λ fd e i. (put fd (some e) i, Ctl.done);
  ctl_mod = λ fd e i. change fd e (i fd) i;
  ctl_del = λ fd i. (put fd none i, Ctl.done);
  add-watched = λ fd e i h succeeds. put-same fd (some e) i;
  add-other = λ fd other e i h. put-other fd other (some e) i h;
  mod-watched = λ fd e f i h succeeds. (change-watched fd e f (i fd) i h).0;
  mod-present = λ fd e f i h. (change-watched fd e f (i fd) i h).1;
  mod-absent = λ fd e i h. rw (h) refl;
  mod-other = λ fd other e i h. change-other fd other e (i fd) i h;
  del-watched = λ fd i fine. put-same fd none i;
  del-other = λ fd other i h. put-other fd other none i h;
}

interest-NeverFails : NeverFails interest_function
interest-NeverFails = record {
  adds = λ fd e i h. refl;
  mods = λ fd e i. change-fine fd e (i fd) i;
  dels = λ fd i bad. absurd (cc);
}

abbrev socket : (fd events : ℕ) → Dispatcher
socket fd events = record {
  descriptor = fd;
  requested_events = events;
  is_descriptor_closed = false;
}

-- Descriptor 7 loses and regains its events, and descriptor 8 is removed.
abbrev some_changes : List Change
some_changes =
    adds (socket 7 1) 0
    ∷ adds (socket 8 3) 1
    ∷ updates (socket 7 0) 0
    ∷ updates (socket 7 2) 0
    ∷ removes (socket 8 3)
    ∷ []

apply_changes-intended_example :
    (end : ℕ → Option (ℕ × ℕ)) × (apply_changes
        (λ e. e)
        4294967295
        interest_function
        some_changes
        (λ _. none)
      ≡ some end)
    × ((fd : ℕ) → end fd ≡ all_intended (λ e. e) 4294967295 some_changes (λ _. none) fd)
unfolding AllAddable
apply_changes-intended_example =
    apply_changes-intended (λ e. e) 4294967295 interest_function interest-NeverFails some_changes
      (λ _. none) (λ _. none) (λ _. refl)
      ((refl, refl), ((refl, refl), ((refl, tt), ((refl, tt), ((refl, tt), tt)))))
