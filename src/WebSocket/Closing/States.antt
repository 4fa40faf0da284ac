-- ===== src/WebSocket/Closing/States.antt =====
-- The states in which no freed memory was touched, while a WebSocket client is closed
-- (src/WebSocketClient.cc).
use libnavajo.Base.{◌≡◌, refl, ◌⊎◌, inl, inr, Bool, true, false, Option, none, some, eq_of_some}
use libnavajo.WebSocket.Closing.{
  Thread, owner, sender, receiver, Teardown, runs, stopped, is_thread, guard,
}

-- What holds where no freed memory was touched, by the thread that closes.
abbrev pub Sound : Option Thread → Teardown → Type 0
Sound none s =
    ((s.close_started ≡ false) × (s.freed ≡ 0) × (s.on_closings ≡ 0))
    ⊎ ((s.close_started ≡ true)
        × (s.freed ≡ 1)
        × (s.on_closings ≡ 1)
        × (s.sender_runs ≡ false)
        × (s.receiver_runs ≡ false))
Sound (some t) s =
    (s.close_started ≡ true) × (s.freed ≡ 0) × (s.on_closings ≡ 1) × (runs t s ≡ true)

-- Only an owner that took the client off the list holds it.
abbrev pub OwnerDetached : Teardown → Type 0
OwnerDetached s = (s.owner_holds ≡ false) ⊎ (s.detached ≡ true)

-- Before any thread closes, nothing is freed; while one does, it runs and nothing is freed; after it,
-- the client was freed once, `onClosing` called once, and no worker runs. Or the freed client was misused,
-- and the owner had taken it off the list.
abbrev pub IsSound : Teardown → Type 0
IsSound s =
    ((s.misused ≡ true) × (s.detached ≡ true))
    ⊎ ((s.misused ≡ false) × OwnerDetached s × Sound s.closer s)

pub guarded : (b : Bool) (s s' : Teardown) → guard b s ≡ some s' → (b ≡ true) × (s ≡ s')
guarded true s s' e = (refl, eq_of_some e)
guarded false s s' e = cc

pub detaches-Sound :
    (o : Option Thread) (s : Teardown)
    → Sound o s
    → Sound o (record s { tracked = false; owner_holds = true; detached = true })
detaches-Sound none s h = h
detaches-Sound (some owner) s h = (h.0, h.1, h.2, refl)
detaches-Sound (some sender) s h = h
detaches-Sound (some receiver) s h = h

pub loses-Sound :
    (o : Option Thread) (s : Teardown) → Sound o s → Sound o (record s { closing = true })
loses-Sound none s h = h
loses-Sound (some owner) s h = h
loses-Sound (some sender) s h = h
loses-Sound (some receiver) s h = h

-- A thread that is not the closer may end at any time.
stopped-Sound :
    (t : Thread) (o : Option Thread) (s : Teardown)
    → is_thread t o ≡ false
    → Sound o s
    → Sound o (stopped t s)
stopped-Sound owner none s n h = h
stopped-Sound sender none s n (inl h) = inl h
stopped-Sound sender none s n (inr h) = inr (h.0, h.1, h.2, refl, h.4)
stopped-Sound receiver none s n (inl h) = inl h
stopped-Sound receiver none s n (inr h) = inr (h.0, h.1, h.2, h.3, refl)
stopped-Sound owner (some owner) s n h = cc
stopped-Sound owner (some sender) s n h = h
stopped-Sound owner (some receiver) s n h = h
stopped-Sound sender (some owner) s n h = h
stopped-Sound sender (some sender) s n h = cc
stopped-Sound sender (some receiver) s n h = h
stopped-Sound receiver (some owner) s n h = h
stopped-Sound receiver (some sender) s n h = h
stopped-Sound receiver (some receiver) s n h = cc

-- What is kept by a step that does not touch freed memory.
abbrev pub Keeps : Teardown → Type 0
Keeps s = (s.misused ≡ false) × OwnerDetached s × Sound s.closer s

pub stopped-Keeps :
    (t : Thread) (s : Teardown) → is_thread t s.closer ≡ false → Keeps s → Keeps (stopped t s)
stopped-Keeps owner s n h = (h.0, inl refl, stopped-Sound owner s.closer s n h.2)
stopped-Keeps sender s n h = (h.0, h.1, stopped-Sound sender s.closer s n h.2)
stopped-Keeps receiver s n h = (h.0, h.1, stopped-Sound receiver s.closer s n h.2)
