-- ===== src/Main.antt =====
-- main.cpp: perform, which hands an event to its socket, and the loop that makes a task of it. The
-- socket's methods are a parameter: each of them returns or throws.
pub mod Start
use torrent_client.Base.{
  ◌≡◌, refl, List, [], ◌∷◌, ◌++◌, Option, none, some, Bool, true, false, Outcome, ok, throws,
  undefined, ◌>>=◌, if◌then◌else◌,
}

-- The bits of an event's mask
pub record Event : Type 0 where
  pub error : Bool
  pub read : Bool
  pub write : Bool
  pub close : Bool
  pub rearm : Bool
  pub stop : Bool

pub record Socket (S : Type 0) : Type 0 where
  pub error : S → Outcome S
  pub read : S → Outcome S
  pub write : S → Outcome S
  pub close : S → Outcome S
  pub rearm : S → Outcome S

module _ {S : Type 0} (socket : Socket S) where
  abbrev pub on : Bool → (S → Outcome S) → S → Outcome S
  on bit method s = if bit then method s else ok s

  -- The body of perform
  unfoldable pub dispatch : Event → S → Outcome S
  dispatch event s =
      if event.error
      then socket.error s
      else on event.read socket.read s
        >>= on event.write socket.write
        >>= on event.close socket.close
        >>= on event.rearm socket.rearm

  -- The catch of perform
  abbrev pub close_after : Outcome S → Outcome S
  close_after (ok s) = ok s
  close_after (throws e s) = socket.close s
  close_after undefined = undefined

  unfoldable pub perform : Event → S → Outcome S
  unfolding dispatch
  perform event s = close_after (dispatch event s)

-- The loop of main over what poller.get_event gives, with or without an event: the events that it
-- hands to the pool as tasks, before the one that stops it.
unfoldable pub event_loop : List (Option Event) → List Event
event_loop [] = []
event_loop (none ∷ polls) = event_loop polls
event_loop (some event ∷ polls) =
    let rest = event_loop polls in if event.stop then [] else event ∷ rest

-- Events without STOP, with those polls between them that gave none.
data Polled : List (Option Event) → List Event → Type 0 where
  start : Polled [] []
  idle :
      {polls : List (Option Event)} {events : List Event}
      → Polled polls events
      → Polled (none ∷ polls) events
  event :
      {polls : List (Option Event)} {events : List Event} (e : Event)
      → e.stop ≡ false
      → Polled polls events
      → Polled (some e ∷ polls) (e ∷ events)

-- The tasks are the events before the first with STOP, in order, each once, and nothing behind it.
event_loop-stop :
    (polls : List (Option Event)) (events : List Event) (last : Event) (later : List (Option Event))
    → Polled polls events
    → last.stop ≡ true
    → event_loop (polls ++ some last ∷ later) ≡ events
unfolding event_loop
event_loop-stop _ _ last later start h = rw h refl
event_loop-stop _ _ last later (idle p) h = event_loop-stop _ _ last later p h
event_loop-stop _ _ last later (event e n p) h = rw (n, event_loop-stop _ _ last later p h) refl
