-- ===== src/WebSocket/Closing/Sound.antt =====
-- The states of the closing of a WebSocket client (src/WebSocketClient.cc).
use libnavajo.Base.{
  ◌==◌, ◌+◌, ◌≡◌, refl, sym, subst, ◌∙◌, inl, inr, Bool, true, false, not, ◌&&◌, Option, none, some,
  if_intro, false≢true, arith,
}
use libnavajo.WebSocket.Closing.{
  Thread, owner, sender, receiver, Teardown, runs, stopped, is_thread, close_first, close_once,
  has_waited, free_client, Action, detaches, loses_connection, begins, exits, frees, guard, free_by,
  act,
}
use libnavajo.WebSocket.Closing.States.{
  Sound, OwnerDetached, IsSound, guarded, detaches-Sound, loses-Sound, Keeps, stopped-Keeps,
}

not_started :
    (o : Option Thread) (s : Teardown)
    → Sound o s
    → s.close_started ≡ false
    → (s.freed ≡ 0) × (s.on_closings ≡ 0)
not_started none s (inl h) c = (h.1, h.2)
not_started none s (inr h) c = absurd (false≢true (sym c ∙ h.0))
not_started (some t) s h c = absurd (false≢true (sym c ∙ h.0))

begins-Keeps :
    (t : Thread) (s : Teardown)
    → runs t s ≡ true
    → is_thread t s.closer ≡ false
    → Keeps s
    → Keeps (close_first t s)
begins-Keeps t s r n h =
    if_intro Keeps s.close_started (λ _. stopped-Keeps t s n h)
      (λ c. let (f, o) = not_started s.closer s h.2 c in first t r f (omega (arith, o)))
  where
    first :
        (t' : Thread)
        → runs t' s ≡ true
        → s.freed ≡ 0
        → s.on_closings + 1 ≡ 1
        → Keeps (record s {
          close_started = true;
          closing = true;
          tracked = false;
          on_closings = s.on_closings + 1;
          closer = some t';
        })
    first owner r' f o = (h.0, h.1, (refl, f, o, r'))
    first sender r' f o = (h.0, h.1, (refl, f, o, r'))
    first receiver r' f o = (h.0, h.1, (refl, f, o, r'))

-- A freed client: no worker runs, so that only the owner is left.
freed_workers :
    (o : Option Thread) (s : Teardown)
    → Sound o s
    → (s.freed == 0) ≡ false
    → (s.sender_runs ≡ false) × (s.receiver_runs ≡ false)
freed_workers none s (inl h) n = absurd (ground (arith, h.1))
freed_workers none s (inr h) n = (h.3, h.4)
freed_workers (some t) s h n = absurd (ground (arith, h.1))

misuse-detached :
    (t : Thread) (s : Teardown)
    → runs t s ≡ true
    → (s.freed == 0) ≡ false
    → Keeps s
    → s.detached ≡ true
misuse-detached owner s r n h = elim h.1 [
  | inl free' ↦ absurd (false≢true (sym free' ∙ r))
  | inr off ↦ off
]
misuse-detached sender s r n h = absurd (false≢true (sym (freed_workers s.closer s h.2 n).0 ∙ r))
misuse-detached receiver s r n h = absurd (false≢true (sym (freed_workers s.closer s h.2 n).1 ∙ r))

begins-IsSound :
    (t : Thread) (s : Teardown)
    → runs t s ≡ true
    → is_thread t s.closer ≡ false
    → Keeps s
    → IsSound (close_once t s)
begins-IsSound t s r n h =
    if_intro IsSound (s.freed == 0) (λ _. inr (begins-Keeps t s r n h))
      (λ freed'. inl (refl, misuse-detached t s r freed' h))

both_not : (a b : Bool) → (not a && not b) ≡ true → (a ≡ false) × (b ≡ false)
both_not true b e = cc
both_not false true e = cc
both_not false false e = (refl, refl)

is_not : (a : Bool) → not a ≡ true → a ≡ false
is_not true e = cc
is_not false e = refl

freed-Keeps :
    (t : Thread) (s : Teardown)
    → s.misused ≡ false
    → OwnerDetached s
    → Sound (some t) s
    → has_waited t s ≡ true
    → Keeps (free_client t s)
freed-Keeps owner s m d h w =
    let (a, b) = both_not s.sender_runs s.receiver_runs w in
    (m, inl refl, inr (h.0, omega (arith, h.1), h.2, a, b))
freed-Keeps sender s m d h w =
    (m, d, inr (h.0, omega (arith, h.1), h.2, refl, is_not s.receiver_runs w))
freed-Keeps receiver s m d h w =
    (m, d, inr (h.0, omega (arith, h.1), h.2, is_not s.sender_runs w, refl))

frees-IsSound :
    (o : Option Thread) (s s' : Teardown)
    → s.misused ≡ false
    → OwnerDetached s
    → Sound o s
    → free_by o s ≡ some s'
    → IsSound s'
frees-IsSound none s s' m d h e = cc
frees-IsSound (some t) s s' m d h e =
    let (w, f) = guarded (has_waited t s) (free_client t s) s' e in
    subst IsSound f (inr (freed-Keeps t s m d h w))

both_true : (a b : Bool) → (a && b) ≡ true → (a ≡ true) × (b ≡ true)
both_true true b e = (refl, e)
both_true false b e = cc

exits-IsSound :
    (t : Thread) (s s' : Teardown)
    → Keeps s
    → guard (s.closing && (runs t s && not (is_thread t s.closer))) (stopped t s) ≡ some s'
    → IsSound s'
exits-IsSound t s s' h e =
    let (g, f) = guarded _ (stopped t s) s' e in
    let (c, g') = both_true s.closing (runs t s && not (is_thread t s.closer)) g in
    let (r, n) = both_true (runs t s) (not (is_thread t s.closer)) g' in
    subst IsSound f (inr (stopped-Keeps t s (is_not (is_thread t s.closer) n) h))

act-Keeps : (a : Action) (s s' : Teardown) → Keeps s → act a s ≡ some s' → IsSound s'
unfolding act
act-Keeps detaches s s' h e =
    subst IsSound (guarded _ _ s' e).1 (inr (h.0, inr refl, detaches-Sound s.closer s h.2))
act-Keeps loses_connection s s' h e =
    subst IsSound (guarded _ _ s' e).1 (inr (h.0, h.1, loses-Sound s.closer s h.2))
act-Keeps (begins t) s s' h e =
    let (g, f) = guarded (runs t s && not (is_thread t s.closer)) (close_once t s) s' e in
    let (r, n) = both_true (runs t s) (not (is_thread t s.closer)) g in
    subst IsSound f (begins-IsSound t s r (is_not (is_thread t s.closer) n) h)
act-Keeps (exits owner) s s' h e = cc
act-Keeps (exits sender) s s' h e = exits-IsSound sender s s' h e
act-Keeps (exits receiver) s s' h e = exits-IsSound receiver s s' h e
act-Keeps frees s s' h e = frees-IsSound s.closer s s' h.0 h.1 h.2 e

abbrev Spoilt : Teardown → Type 0
Spoilt s = (s.misused ≡ true) × (s.detached ≡ true)

stopped-Spoilt : (t : Thread) (s : Teardown) → Spoilt s → Spoilt (stopped t s)
stopped-Spoilt owner s h = h
stopped-Spoilt sender s h = h
stopped-Spoilt receiver s h = h

close_once-Spoilt : (t : Thread) (s : Teardown) → Spoilt s → Spoilt (close_once t s)
close_once-Spoilt t s h =
    if_intro Spoilt (s.freed == 0)
      (λ _. if_intro Spoilt s.close_started (λ _. stopped-Spoilt t s h) (λ _. h)) (λ _. (refl, h.1))

free_by-Spoilt :
    (o : Option Thread) (s s' : Teardown) → Spoilt s → free_by o s ≡ some s' → Spoilt s'
free_by-Spoilt none s s' h e = cc
free_by-Spoilt (some t) s s' h e = subst Spoilt (guarded _ _ s' e).1 (stopped-Spoilt t s h)

act-Spoilt : (a : Action) (s s' : Teardown) → Spoilt s → act a s ≡ some s' → Spoilt s'
unfolding act
act-Spoilt detaches s s' h e = subst Spoilt (guarded _ _ s' e).1 (h.0, refl)
act-Spoilt loses_connection s s' h e = subst Spoilt (guarded _ _ s' e).1 h
act-Spoilt (begins t) s s' h e = subst Spoilt (guarded _ _ s' e).1 (close_once-Spoilt t s h)
act-Spoilt (exits owner) s s' h e = cc
act-Spoilt (exits sender) s s' h e = subst Spoilt (guarded _ _ s' e).1 h
act-Spoilt (exits receiver) s s' h e = subst Spoilt (guarded _ _ s' e).1 h
act-Spoilt frees s s' h e = free_by-Spoilt s.closer s s' h e

-- Every step of the threads keeps this, in whatever order they come, the receiving thread setting
-- `closing` by itself included: before any thread closes, nothing is freed; while one does, it runs and
-- nothing is freed; after it, the client was freed once, `onClosing` was called once, and no worker runs.
-- The one exception: an owner that had taken the client off the list to close it has called `closeOnce`
-- of the freed client.
pub act-IsSound : (a : Action) (s s' : Teardown) → IsSound s → act a s ≡ some s' → IsSound s'
act-IsSound a s s' (inl h) e = inl (act-Spoilt a s s' h e)
act-IsSound a s s' (inr h) e = act-Keeps a s s' h e
