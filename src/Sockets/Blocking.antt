-- ===== src/Sockets/Blocking.antt =====
-- internal/api/websocket.go: the bounds of the channels, and what a slow client does to the loop.
use whatsupp.Base.{
  ℕ, ◌≤◌, ◌≡◌, refl, ◌∙◌, List, [], ◌∷◌, none, some, arith, map, Option-cases, inl, inr,
}
use whatsupp.Sockets.{
  WsClient, WsHub, Action, sending, unregistering, register, unregister, publish, drain, receive,
  proceed, stop, leave, queued_of, drain_one, send_next, proceed_from, receive_from, step, run,
  buffer_size,
}

abbrev pub ids : List WsClient → List ℕ
ids = map (λ c. c.id)

ids-drain_one : (i : ℕ) (cs : List WsClient) → ids (map (drain_one i) cs) ≡ ids cs
unfolding drain_one
ids-drain_one i [] = refl
ids-drain_one i (c ∷ cs) = let ih = ids-drain_one i cs in ground arith

receive_blocked :
    (h : WsHub) (i m : ℕ) (rest : List ℕ)
    → h.position ≡ unregistering i m rest
    → (bs : List ℕ) → receive_from h bs ≡ none
unfolding receive_from
receive_blocked h i m rest at [] = refl
receive_blocked h i m rest at (b ∷ bs) = rw at refl

stuck_step :
    (a : Action) (h h' : WsHub) (i m : ℕ) (rest : List ℕ)
    → h.position ≡ unregistering i m rest
    → step h a ≡ some h'
    → (h'.position ≡ unregistering i m rest) × (ids h'.clients ≡ ids h.clients)
unfolding step proceed_from receive_from
stuck_step (register id) h h' i m rest at taken = ground arith
stuck_step (unregister id) h h' i m rest at taken = ground arith
stuck_step (publish message) h h' i m rest at taken = ground arith
stuck_step (drain id) h h' i m rest at taken = ground (arith, ids-drain_one id h.clients)
stuck_step receive h h' i m rest at taken =
    ground (arith, receive_blocked h i m rest at h.broadcast)
stuck_step proceed h h' i m rest at taken = ground arith
stuck_step stop h h' i m rest at taken = ground arith
stuck_step leave h h' i m rest at taken = ground arith

stuck_run :
    (later : List Action) (h : WsHub) (i m : ℕ) (rest : List ℕ)
    → h.position ≡ unregistering i m rest
    → ((run h later).position ≡ unregistering i m rest)
      × (ids (run h later).clients ≡ ids h.clients)
unfolding run
stuck_run [] h i m rest at = (at, refl)
stuck_run (a ∷ later) h i m rest at = elim (Option-cases (step h a)) [
  | inl skipped ↦ rw (skipped, run) (stuck_run later h i m rest at)
  | inr (h', taken) ↦
      let (at', kept) = stuck_step a h h' i m rest at taken in
      let (there, same) = stuck_run later h' i m rest at' in rw (taken, run) (there, same ∙ kept)
]

-- When the loop of Run, in the middle of a broadcast, reaches a client whose send buffer is full, it
-- stops at its own send to `unregister` for ever: whatever the clients and the other goroutines do
-- after that, the loop stays there, the other clients of the snapshot do not get the message, no
-- client is registered or removed, and Stop does not end it.
pub slow_client_blocks :
    (later : List Action) (h : WsHub) (message i n : ℕ) (rest : List ℕ)
    → h.position ≡ sending message (i ∷ rest)
    → queued_of i h.clients ≡ some n
    → buffer_size ≤ n
    → ((run h (proceed ∷ later)).position ≡ unregistering i message rest)
      × (ids (run h (proceed ∷ later)).clients ≡ ids h.clients)
unfolding run step proceed_from send_next
slow_client_blocks later h message i n rest at found full =
    let blocked : WsHub = record h { position = unregistering i message rest } in
    let taken : step h proceed ≡ some blocked = rw at (ground arith) in
    rw (taken, run) (stuck_run later blocked i message rest refl)
