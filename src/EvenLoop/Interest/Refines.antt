-- ===== src/EvenLoop/Interest/Refines.antt =====
-- What epoll watches after any sequence of AddEpoll, RemoveEpoll and UpdateEpoll.
use io_base.Base.{
  ℕ, ◌==◌, ◌≡◌, refl, ap, ◌∙◌, ◌⊎◌, false, if◌then◌else◌, true, Option, none, some, List, [], ◌∷◌,
  arith, Bool-cases, Option-cases, inl, inr,
}
use io_base.EvenLoop.Defs.{Dispatcher}
use io_base.EvenLoop.Interest.Interface.{Epoll, Ctl, NeverFails}
use io_base.EvenLoop.Interest.Defs.{add_epoll, remove_epoll, update_epoll}

pub data Change : Type 0 where
  adds : Dispatcher → ℕ → Change
  removes : Dispatcher → Change
  updates : Dispatcher → ℕ → Change

module _ (get_epoll_events : ℕ → ℕ) (invalid_socket : ℕ) where
  -- A dispatcher is watched for the events it requests, if there are any.
  abbrev pub wanted : Dispatcher → ℕ → Option (ℕ × ℕ)
  wanted d key =
      let events = get_epoll_events d.requested_events in
      if events == 0 then none else some (events, key)

  abbrev pub at_descriptor : Dispatcher → Option (ℕ × ℕ) → (ℕ → Option (ℕ × ℕ)) → ℕ → Option (ℕ × ℕ)
  at_descriptor d e f fd = if fd == d.descriptor then e else f fd

  -- What a change sets for a descriptor.
  abbrev pub intended : Change → (ℕ → Option (ℕ × ℕ)) → ℕ → Option (ℕ × ℕ)
  intended (adds d key) f = at_descriptor d (wanted d key) f
  intended (removes d) f = at_descriptor d none f
  intended (updates d key) f = at_descriptor d (wanted d key) f

  unfoldable pub all_intended : List Change → (ℕ → Option (ℕ × ℕ)) → ℕ → Option (ℕ × ℕ)
  all_intended [] f = f
  all_intended (c ∷ cs) f = all_intended cs (intended c f)

  -- A dispatcher has a descriptor, and is added only while that is not watched.
  abbrev pub Addable : Change → (ℕ → Option (ℕ × ℕ)) → Type 0
  Addable (adds d key) f = ((d.descriptor == invalid_socket) ≡ false) × (f d.descriptor ≡ none)
  Addable (removes d) f = ((d.descriptor == invalid_socket) ≡ false) × Unit
  Addable (updates d key) f = ((d.descriptor == invalid_socket) ≡ false) × Unit

  unfoldable pub AllAddable : List Change → (ℕ → Option (ℕ × ℕ)) → Type 0
  AllAddable [] f = Unit
  AllAddable (c ∷ cs) f = Addable c f × AllAddable cs (intended c f)

  module _ (k : Epoll) where
    open k use {
      Interest, watched, ctl_add, ctl_mod, ctl_del, add-watched, add-other, mod-watched, mod-absent,
      mod-present, mod-other, del-watched, del-other,
    }

    unfoldable pub apply_change : Change → Interest → Option Interest
    unfolding add_epoll remove_epoll update_epoll
    apply_change (adds d key) i = add_epoll k get_epoll_events invalid_socket d key i
    apply_change (removes d) i = remove_epoll k get_epoll_events invalid_socket d i
    apply_change (updates d key) i = update_epoll k get_epoll_events invalid_socket d key i

    unfoldable pub apply_changes : List Change → Interest → Option Interest
    unfolding apply_change
    apply_changes [] i = some i
    apply_changes (c ∷ cs) i = elim (apply_change c i) [ none ↦ none | some j ↦ apply_changes cs j ]

    same : (fd other : ℕ) → (other == fd) ≡ true → other ≡ fd
    same fd other h = ground arith

    -- Only the descriptor changes.
    abbrev Sets : Dispatcher → Option (ℕ × ℕ) → Interest → Interest → Type 0
    Sets d e i j = (other : ℕ) → watched other j ≡ at_descriptor d e (λ fd. watched fd i) other

    Sets-from :
        (d : Dispatcher) (e : Option (ℕ × ℕ)) (i j : Interest)
        → watched d.descriptor j ≡ e
        → ((other : ℕ) → (other == d.descriptor) ≡ false → watched other j ≡ watched other i)
        → Sets d e i j
    Sets-from d e i j here others other = elim (Bool-cases (other == d.descriptor)) [
      | inl h ↦ rw (h, same d.descriptor other h) here
      | inr h ↦ rw (h) (others other h)
    ]

    -- The change fails no check and sets what is intended.
    abbrev SetsFor : Change → Interest → Type 0
    SetsFor c i =
        (j : Interest) × (apply_change c i ≡ some j)
        × ((fd : ℕ) → watched fd j ≡ intended c (λ n. watched n i) fd)

    module _ (fine : NeverFails k) where
      add-Sets :
          (d : Dispatcher) (e : ℕ × ℕ) (i : Interest)
          → watched d.descriptor i ≡ none
          → Sets d (some e) i (ctl_add d.descriptor e i).0
      add-Sets d e i free =
          Sets-from d (some e) i (ctl_add d.descriptor e i).0
            (add-watched d.descriptor e i free (fine.adds d.descriptor e i free))
            (λ other h. add-other d.descriptor other e i h)

      del-Sets : (d : Dispatcher) (i : Interest) → Sets d none i (ctl_del d.descriptor i).0
      del-Sets d i =
          Sets-from d none i (ctl_del d.descriptor i).0
            (del-watched d.descriptor i (fine.dels d.descriptor i))
            (λ other h. del-other d.descriptor other i h)

      adds-Sets :
          (d : Dispatcher) (key : ℕ) (i : Interest)
          → Addable (adds d key) (λ fd. watched fd i)
          → SetsFor (adds d key) i
      unfolding apply_change add_epoll
      adds-Sets d key i (valid, free) =
          let events = get_epoll_events d.requested_events in
          elim (Bool-cases (events == 0)) [
            | inl e ↦ (i, rw (valid, e) refl, rw (e) (Sets-from d none i i free (λ other h. refl)))
            | inr e ↦ (
              (ctl_add d.descriptor (events, key) i).0,
              rw (valid, e, fine.adds d.descriptor (events, key) i free) refl,
              rw (e) (add-Sets d (events, key) i free),
            )
          ]

      Ctl-cases : (e : Ctl) → (e ≡ Ctl.done) ⊎ ((e ≡ Ctl.enoent) ⊎ (e ≡ Ctl.another))
      Ctl-cases Ctl.done = inl refl
      Ctl-cases Ctl.enoent = inr (inl refl)
      Ctl-cases Ctl.another = inr (inr refl)

      removes-Sets :
          (d : Dispatcher) (i : Interest)
          → Addable (removes d) (λ fd. watched fd i)
          → SetsFor (removes d) i
      unfolding apply_change remove_epoll
      removes-Sets d i (valid, u) = elim (Ctl-cases (ctl_del d.descriptor i).1) [
        | inl e ↦ ((ctl_del d.descriptor i).0, rw (valid, e) refl, del-Sets d i)
        | inr (inl e) ↦ ((ctl_del d.descriptor i).0, rw (valid, e) refl, del-Sets d i)
        | inr (inr e) ↦ absurd (fine.dels d.descriptor i e)
      ]

      updates-Sets :
          (d : Dispatcher) (key : ℕ) (i : Interest)
          → Addable (updates d key) (λ fd. watched fd i)
          → SetsFor (updates d key) i
      unfolding apply_change update_epoll
      updates-Sets d key i (valid, u) =
          let fd = d.descriptor in
          let events = get_epoll_events d.requested_events in
          let e : ℕ × ℕ = (events, key) in
          elim (Bool-cases (events == 0)) [
            | inl none_wanted ↦
                ((ctl_del fd i).0, rw (valid, none_wanted) refl, rw (none_wanted) (del-Sets d i))
            | inr some_wanted ↦ elim (Option-cases (watched fd i)) [
              | inl absent ↦
                  let refused = mod-absent fd e i absent in
                  (
                    (ctl_add fd e i).0,
                    rw (valid, some_wanted, ap (λ x. x.1) refused, ap (λ x. x.0) refused) refl,
                    rw (some_wanted) (add-Sets d e i absent),
                  )
              | inr (f, there) ↦ elim (Ctl-cases (ctl_mod fd e i).1) [
                | inl is_done ↦ (
                  (ctl_mod fd e i).0,
                  rw (valid, some_wanted, is_done) refl,
                  rw (some_wanted) (
                      Sets-from d (some e) i (ctl_mod fd e i).0 (mod-watched fd e f i there is_done)
                        (λ other h. mod-other fd other e i h)),
                )
                | inr (inl gone) ↦ absurd (mod-present fd e f i there gone)
                | inr (inr failed) ↦ absurd (fine.mods fd e i failed)
              ]
            ]
          ]

      change-Sets : (c : Change) (i : Interest) → Addable c (λ fd. watched fd i) → SetsFor c i
      change-Sets (adds d key) i h = adds-Sets d key i h
      change-Sets (removes d) i h = removes-Sets d i h
      change-Sets (updates d key) i h = updates-Sets d key i h

    intended-cong :
        (c : Change) (f g : ℕ → Option (ℕ × ℕ))
        → ((fd : ℕ) → f fd ≡ g fd)
        → (fd : ℕ) → intended c f fd ≡ intended c g fd
    intended-cong (adds d key) f g h fd = ground (arith, h fd)
    intended-cong (removes d) f g h fd = ground (arith, h fd)
    intended-cong (updates d key) f g h fd = ground (arith, h fd)

    Addable-cong :
        (c : Change) (f g : ℕ → Option (ℕ × ℕ))
        → ((fd : ℕ) → g fd ≡ f fd)
        → Addable c f
        → Addable c g
    Addable-cong (adds d key) f g h (valid, free) = (valid, h d.descriptor ∙ free)
    Addable-cong (removes d) f g h free = free
    Addable-cong (updates d key) f g h free = free

    -- If epoll_ctl does not fail but with ENOENT, the dispatchers have descriptors, and none is added while it is
    -- watched: after any sequence of AddEpoll, RemoveEpoll and UpdateEpoll, in which then no ABSL_DCHECK fails, the
    -- descriptors that epoll watches, the events it watches them for and the keys it answers with are what the last
    -- change of each descriptor asked for: the events and the key of its dispatcher, nothing if it was removed or
    -- requests no events; descriptors that are not changed are left as they were.
    pub apply_changes-intended :
        NeverFails k
        → (cs : List Change) (i : Interest) (f : ℕ → Option (ℕ × ℕ))
        → ((fd : ℕ) → watched fd i ≡ f fd)
        → AllAddable cs f
        → (end : Interest) × (apply_changes cs i ≡ some end)
          × ((fd : ℕ) → watched fd end ≡ all_intended cs f fd)
    unfolding apply_changes all_intended AllAddable
    apply_changes-intended fine [] i f same_watched addable = (i, refl, same_watched)
    apply_changes-intended fine (c ∷ cs) i f same_watched addable =
        let (j, e, sets) =
          change-Sets fine c i (Addable-cong c f (λ m. watched m i) same_watched addable.0) in
        let (end, e', all) =
          apply_changes-intended fine cs j (intended c f)
            (λ n. sets n ∙ intended-cong c (λ m. watched m i) f same_watched n) addable.1 in
        (end, rw (apply_changes, e) e', all)
