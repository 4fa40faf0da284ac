-- ===== src/WebSocket/Closing.antt =====
-- The end of a WebSocket client: `closeOnce`, `closeWS`, `closeSend`, `closeRecv` and `finalizeClose`
-- (src/WebSocketClient.cc) as the steps of three threads, the owner and the two workers. The calls from
-- `closeOnce` to `onClosing` are one step, as is the freeing at the end. The owner is
-- a caller of `removeAllClients` or `removeClient`. Whether a worker that may leave
-- its loop is woken for that is not modelled: a step may come late or not at all.
pub mod Sound
pub mod States
use libnavajo.Base.{
  ◌==◌, ℕ, ◌+◌, ◌≡◌, refl, sym, subst, ◌∙◌, ◌⊎◌, inl, inr, Bool, true, false, not, ◌&&◌, List, [],
  ◌∷◌, Option, none, some, if◌then◌else◌, if_intro, false≢true, eq_of_some, arith,
}

pub data Thread : Type 0 where
  owner sender receiver : Thread

-- `owner_holds` says that the owner has taken the client off the list to close it; `closer` is the
-- thread inside `finalizeClose`; `freed` counts how often the client was freed, and `on_closings` the
-- calls of `onClosing`. `detached` says that the owner ever took the client off the list to close it, and
-- `misused` that it called `closeOnce` of a client that was freed: what the memory holds then, and so all
-- that comes after, is not defined.
pub record Teardown : Type 0 where
  pub close_started : Bool
  pub closing : Bool
  pub tracked : Bool
  pub owner_holds : Bool
  pub sender_runs : Bool
  pub receiver_runs : Bool
  pub closer : Option Thread
  pub freed : ℕ
  pub on_closings : ℕ
  pub detached : Bool
  pub misused : Bool

abbrev pub open_client : Teardown
open_client = record {
  close_started = false;
  closing = false;
  tracked = true;
  owner_holds = false;
  sender_runs = true;
  receiver_runs = true;
  closer = none;
  freed = 0;
  on_closings = 0;
  detached = false;
  misused = false;
}

abbrev pub runs : Thread → Teardown → Bool
runs owner s = s.owner_holds
runs sender s = s.sender_runs
runs receiver s = s.receiver_runs

abbrev pub stopped : Thread → Teardown → Teardown
stopped owner s = record s { owner_holds = false }
stopped sender s = record s { sender_runs = false }
stopped receiver s = record s { receiver_runs = false }

abbrev pub is_thread : Thread → Option Thread → Bool
is_thread owner (some owner) = true
is_thread sender (some sender) = true
is_thread receiver (some receiver) = true
is_thread _ _ = false

-- `closeWS`, `closeSend` or `closeRecv` up to `finalizeClose`: the thread that is first goes on to
-- close, any other returns.
abbrev pub close_first : Thread → Teardown → Teardown
close_first t s = if s.close_started then stopped t s else record s {
  close_started = true;
  closing = true;
  tracked = false;
  on_closings = s.on_closings + 1;
  closer = some t;
}

abbrev pub close_once : Thread → Teardown → Teardown
close_once t s = if s.freed == 0 then close_first t s else record s { misused = true }

-- The workers that `finalizeClose` waits for have ended.
abbrev pub has_waited : Thread → Teardown → Bool
has_waited owner s = not s.sender_runs && not s.receiver_runs
has_waited sender s = not s.receiver_runs
has_waited receiver s = not s.sender_runs

abbrev pub free_client : Thread → Teardown → Teardown
free_client t s = record (stopped t s) { freed = s.freed + 1; closer = none }

-- The owner takes the client off the list to close it; the receiving thread sets `closing` itself, as its
-- connection is lost; a thread begins to close; a worker leaves its loop as `closing` is set; the thread
-- that closes has waited for the workers and frees the client.
pub data Action : Type 0 where
  detaches : Action
  loses_connection : Action
  begins exits : Thread → Action
  frees : Action

abbrev pub guard : Bool → Teardown → Option Teardown
guard true s = some s
guard false s = none

abbrev pub free_by : Option Thread → Teardown → Option Teardown
free_by none s = none
free_by (some t) s = guard (has_waited t s) (free_client t s)

-- `none` where the action cannot happen.
unfoldable pub act : Action → Teardown → Option Teardown
act detaches s = guard s.tracked (record s { tracked = false; owner_holds = true; detached = true })
act loses_connection s =
    guard (s.receiver_runs && not (is_thread receiver s.closer)) (record s { closing = true })
act (begins t) s = guard (runs t s && not (is_thread t s.closer)) (close_once t s)
act (exits owner) s = none
act (exits t) s = guard (s.closing && (runs t s && not (is_thread t s.closer))) (stopped t s)
act frees s = free_by s.closer s

unfoldable pub act_all : List Action → Teardown → Option Teardown
unfolding act
act_all [] s = some s
act_all (a ∷ actions) s = elim (act a s) [ none ↦ none | some s' ↦ act_all actions s' ]
