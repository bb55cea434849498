-- ===== src/Stream.antt =====
-- EventStore of ai-agent-orch/internal/governance/stream.go: the event stream of a session. A Go
-- channel is a number, whose buffer stands in the `Hub`, since the store and a subscriber share it.
-- A send on a closed channel, or a second close, panics in Go: the hub notes it. Each call runs
-- under the store's lock, so it is one step.
pub mod Replay
pub mod Runs
use ai_governance_orchestrat.Prelude.Dict.{lookup, insert, remove}
use ai_governance_orchestrat.Prelude.{
  ℕ, ◌+◌, ◌-◌, String, Bool, true, false, not, ◌&&◌, ◌||◌, Option, none, some, List, [], ◌∷◌, ◌++◌,
  ◌==◌, ltb, nat_eq, if◌then◌else◌, length, drop, get_last?,
}

pub record SessionEvent : Type 0 where
  pub type : String
  pub payload : String
  pub timestamp : ℕ

pub record Channel : Type 0 where
  pub capacity : ℕ
  pub buffer : List SessionEvent
  pub is_open : Bool

pub record Hub : Type 0 where
  pub channels : ℕ → Channel
  pub next : ℕ
  pub panicked : Bool

abbrev set_channel : ℕ → Channel → Hub → Hub
set_channel i c hub = record hub { channels = λ j. if nat_eq j i then c else hub.channels j }

-- A send that drops the event where the buffer is full.
send : SessionEvent → Hub → ℕ → Hub
send event hub i =
    let c = hub.channels i in
    if not c.is_open
    then record hub { panicked = true }
    else if ltb (length c.buffer) c.capacity
    then set_channel i (record c { buffer = c.buffer ++ event ∷ [] }) hub
    else hub

close_channel : Hub → ℕ → Hub
close_channel hub i =
    let c = hub.channels i in
    if not c.is_open
    then record hub { panicked = true }
    else set_channel i (record c { is_open = false }) hub

each : (Hub → ℕ → Hub) → Hub → List ℕ → Hub
each f hub [] = hub
each f hub (i ∷ ids) = each f (f hub i) ids

pub record EventStore : Type 0 where
  pub chans : List (String × List ℕ)
  pub closed : List (String × Bool)
  pub history : List (String × List SessionEvent)
  pub closed_order : List String
  pub hub : Hub

abbrev pub max_closed_session_history : ℕ
max_closed_session_history = 256

abbrev pub max_history : ℕ
max_history = 128

unfoldable pub new_event_store : EventStore
new_event_store = record {
  chans = [];
  closed = [];
  history = [];
  closed_order = [];
  hub = record {
    channels = λ i. record { capacity = 0; buffer = []; is_open = false };
    next = 0;
    panicked = false;
  };
}

-- A map's value, the zero value where the key is missing.
abbrev pub or_nil {ℓ} : {A : Type ℓ} → Option (List A) → List A
or_nil none = []
or_nil (some xs) = xs

abbrev pub or_false : Option Bool → Bool
or_false none = false
or_false (some b) = b

abbrev pub history_of : EventStore → String → List SessionEvent
history_of s id = or_nil (lookup id s.history)

abbrev pub is_closed : EventStore → String → Bool
is_closed s id = or_false (lookup id s.closed)

abbrev pub channels_of : EventStore → String → List ℕ
channels_of s id = or_nil (lookup id s.chans)

abbrev is_done : Option SessionEvent → Bool
is_done none = false
is_done (some event) = event.type == "done"

abbrev pub last_event_is_done : List SessionEvent → Bool
last_event_is_done events = is_done (get_last? events)

-- The newest events of a history.
unfoldable pub recent : List SessionEvent → List SessionEvent
recent events =
    if ltb max_history (length events) then drop (length events - max_history) events else events

pub append_history : EventStore → String → SessionEvent → EventStore
append_history s id event = record s {
  history = insert id (recent (history_of s id ++ event ∷ [])) s.history;
}

-- The new channel, and the store.
unfoldable pub subscribe : EventStore → String → ℕ × EventStore
subscribe s id =
    let past = history_of s id in
    let size = if ltb 64 (length past) then length past else 64 in
    let ch = s.hub.next in
    let opened =
      set_channel ch (record { capacity = size; buffer = past; is_open = not (is_closed s id) })
        (record s.hub { next = ch + 1 }) in
    if is_closed s id
    then (ch, record s { hub = opened })
    else (ch, record s { chans = insert id (channels_of s id ++ ch ∷ []) s.chans; hub = opened })

without : ℕ → List ℕ → List ℕ
without ch [] = []
without ch (c ∷ cs) = let rest = without ch cs in if nat_eq c ch then cs else c ∷ rest

is_among : ℕ → List ℕ → Bool
is_among ch [] = false
is_among ch (c ∷ cs) = nat_eq c ch || is_among ch cs

unfoldable pub unsubscribe : EventStore → String → ℕ → EventStore
unfolding without is_among close_channel
unsubscribe s id ch =
    if is_among ch (channels_of s id)
    then record s {
      chans = insert id (without ch (channels_of s id)) s.chans;
      hub = close_channel s.hub ch;
    }
    else s

unfoldable pub publish : EventStore → String → SessionEvent → EventStore
unfolding append_history each send
publish s id event =
    let noted = append_history s id event in
    if is_closed s id then s else record noted { hub = each (send event) s.hub (channels_of s id) }

-- A subscriber takes the oldest event of its channel.
received : EventStore → ℕ → EventStore
received s ch =
    let c = s.hub.channels ch in
    record s { hub = set_channel ch (record c { buffer = drop 1 c.buffer }) s.hub }

-- The first entry of a session goes.
drop_first : String → List String → List String
drop_first id [] = []
drop_first id (x ∷ xs) = let rest = drop_first id xs in if x == id then xs else x ∷ rest

unfoldable pub reopen : EventStore → String → EventStore
unfolding drop_first
reopen s id = record s {
  closed = remove id s.closed;
  closed_order = drop_first id s.closed_order;
  history = remove id s.history;
  chans = remove id s.chans;
}

abbrev forget : EventStore → String → EventStore
forget s oldest =
    if is_closed s oldest
    then record s {
      closed = remove oldest s.closed;
      history = remove oldest s.history;
      chans = remove oldest s.chans;
    }
    else s

-- The loop of evictClosedHistoryLocked, on the closed order.
pub evict : EventStore → List String → EventStore
evict s [] = record s { closed_order = [] }
evict s (oldest ∷ order) =
    let shorter = evict (forget s oldest) order in
    if ltb max_closed_session_history (length (oldest ∷ order))
    then shorter
    else record s { closed_order = oldest ∷ order }

close_event : ℕ → SessionEvent
close_event now = record { type = "done"; payload = ""; timestamp = now }

-- The done event goes out, unless the stream ended with one.
abbrev pub finish : EventStore → String → SessionEvent → EventStore
finish s id event = if last_event_is_done (history_of s id) then s else append_history s id event

-- The subscribers get it, and their channels are closed.
notify : Bool → SessionEvent → Hub → ℕ → Hub
unfolding send close_channel
notify send_done event hub ch = close_channel (if send_done then send event hub ch else hub) ch

unfoldable pub close : ℕ → EventStore → String → EventStore
unfolding append_history each notify evict close_event
close now s id =
    let event = close_event now in
    let finished = finish s id event in
    let send_done = not (last_event_is_done (history_of s id)) in
    if is_closed s id
    then s
    else evict
        (record finished {
          closed = insert id true s.closed;
          chans = remove id s.chans;
          hub = each (notify send_done event) s.hub (channels_of s id);
        })
        (s.closed_order ++ id ∷ [])
