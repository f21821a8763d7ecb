-- ===== src/Sockets.antt =====
-- internal/api/websocket.go: the event loop of WSHub as a state machine. A client is a number with
-- the count of messages in its send buffer; an action is one communication of the loop, or a move
-- of another goroutine. A message is a number.
pub mod Blocking
pub mod Origin
use whatsupp.Base.{
  ℕ, suc, ◌+◌, ◌-◌, Bool, true, false, not, ◌||◌, List, [], ◌∷◌, ◌++◌, Option, none, some, ltb, leb,
  ◌==◌, if◌then◌else◌, length, keep_if, map,
}

pub record WsClient : Type 0 where
  pub id : ℕ
  pub queued : ℕ

-- Where the loop stands: at its `select`; in the loop over a snapshot; at the send on the unbuffered
-- channel `unregister`; or returned.
pub data Position : Type 0 where
  selecting : Position
  sending : ℕ → List ℕ → Position
  unregistering : ℕ → ℕ → List ℕ → Position
  stopped : Position

pub record WsHub : Type 0 where
  pub clients : List WsClient
  pub broadcast : List ℕ
  pub quit : Bool
  pub position : Position

pub data Action : Type 0 where
  register unregister publish drain : ℕ → Action
  receive proceed stop leave : Action

abbrev pub buffer_size : ℕ
buffer_size = 256

unfoldable pub new_ws_hub : WsHub
new_ws_hub = record { clients = []; broadcast = []; quit = false; position = selecting }

unfoldable pub queued_of : ℕ → List WsClient → Option ℕ
queued_of id [] = none
queued_of id (c ∷ cs) = let rest = queued_of id cs in if c.id == id then some c.queued else rest

unfoldable pub push_one : ℕ → WsClient → WsClient
push_one id c = if c.id == id then record c { queued = c.queued + 1 } else c

unfoldable pub drain_one : ℕ → WsClient → WsClient
drain_one id c = if c.id == id then record c { queued = c.queued - 1 } else c

abbrev pub remove_client : ℕ → List WsClient → List WsClient
remove_client id = keep_if (λ c. not (c.id == id))

abbrev at_select : WsHub → WsHub → Option WsHub
at_select h h' = elim h.position [ selecting ↦ some h' | _ ↦ none ]

-- The next client of the snapshot gets the message if its buffer has room. A closed buffer, of a
-- client that is gone, is not modelled apart: only the loop itself removes clients.
unfoldable pub send_next : WsHub → ℕ → ℕ → List ℕ → WsHub
unfolding queued_of push_one
send_next h message id rest = elim (queued_of id h.clients) [
  | none ↦ record h { position = sending message rest }
  | some n ↦
      if ltb n buffer_size
      then record h { clients = map (push_one id) h.clients; position = sending message rest }
      else record h { position = unregistering id message rest }
]

unfoldable pub proceed_from : WsHub → Position → Option WsHub
unfolding send_next
proceed_from h (sending message []) = some (record h { position = selecting })
proceed_from h (sending message (id ∷ rest)) = some (send_next h message id rest)
proceed_from h _ = none

unfoldable pub receive_from : WsHub → List ℕ → Option WsHub
receive_from h [] = none
receive_from h (message ∷ more) =
    at_select h
      (record h { broadcast = more; position = sending message (map (λ c. c.id) h.clients) })

-- `none`: the action cannot happen now. `register` and `unregister` are the receives of the loop;
-- `publish` is Broadcast, which drops a message if the channel is full; `drain` is a client's
-- writer; `stop` is Stop, and `leave` the loop's end.
unfoldable pub step : WsHub → Action → Option WsHub
unfolding proceed_from receive_from drain_one
step h (register id) =
    at_select h (record h { clients = record { id = id; queued = 0 } ∷ h.clients })
step h (unregister id) = at_select h (record h { clients = remove_client id h.clients })
step h (publish message) = some (
    if ltb (length h.broadcast) buffer_size
    then record h { broadcast = h.broadcast ++ message ∷ [] }
    else h)
step h (drain id) = some (record h { clients = map (drain_one id) h.clients })
step h receive = receive_from h h.broadcast
step h proceed = proceed_from h h.position
step h stop = some (record h { quit = true })
step h leave = if h.quit then at_select h (record h { clients = []; position = stopped }) else none

-- A schedule: an action that cannot happen is skipped.
unfoldable pub run : WsHub → List Action → WsHub
unfolding step
run h [] = h
run h (a ∷ more) = elim (step h a) [ none ↦ run h more | some next ↦ run next more ]
